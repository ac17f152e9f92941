-- ===== src/Protocol/GroupData.antt =====
-- Server/include/GroupData.h: the payloads and their encodings. A std::string is its bytes; an
-- `int` and a `double` are the bit patterns that lie in memory, below 2 ^ 32 and 2 ^ 64.
pub mod RoundTrip
use p2p_watcher.Base.{ℕ, ◌+◌, ◌^◌, ◌<◌, ◌≤◌, List, [], ◌∷◌, ◌++◌, length, All, Outcome}
use p2p_watcher.Protocol.Wire.{Endian, bytes_of, u32, htonl}
use p2p_watcher.Protocol.Reader.{Reader, pure, ◌>>=◌, run, next, next_number, next_net, next_nets}

-- udp_data::DataTypes and tcp_data::DataTypes, as the u16 that they are on the wire.
pub data UdpType : Type 0 where
  test_message image : UdpType

abbrev pub udp_code : UdpType → ℕ
udp_code test_message = 0x0
udp_code image = 0x1

pub data TcpType : Type 0 where
  test_struct first_data : TcpType

abbrev pub tcp_code : TcpType → ℕ
tcp_code test_struct = 0x0
tcp_code first_data = 0x1

pub record TestMessage : Type 0 where
  pub message : List ℕ

pub record FirstData : Type 0 where
  pub client_addr : List ℕ
  pub client_port : ℕ

pub record TestStruct : Type 0 where
  pub a : List ℕ
  pub b : ℕ
  pub c : ℕ
  pub d : List ℕ

module _ (host : Endian) where
  -- `x_net = htonl(x)` and the four bytes of it.
  abbrev pub net : ℕ → List ℕ
  net x = bytes_of host 4 (htonl host x)

  -- The loop over `d` in `TestStruct::serilize`.
  unfoldable pub nets : List ℕ → List ℕ
  nets [] = []
  nets (val ∷ d) = net val ++ nets d

  unfoldable pub serialize_message : TestMessage → List ℕ
  serialize_message m = net (u32 (length m.message)) ++ m.message

  unfoldable pub serialize_first : FirstData → List ℕ
  serialize_first f =
      net (u32 (length f.client_addr)) ++ (f.client_addr ++ bytes_of host 2 f.client_port)

  unfoldable pub serilize : TestStruct → List ℕ
  unfolding nets
  serilize s =
      net (u32 (length s.a))
      ++ (s.a ++ (net s.b ++ (bytes_of host 8 s.c ++ (net (u32 (length s.d)) ++ nets s.d))))

  unfoldable pub read_message : Reader TestMessage
  unfolding next next_net
  read_message = do
    strlen ← next_net (2 ^ 32) host
    message ← next (2 ^ 32) strlen
    pure (record { message = message })

  unfoldable pub deserialize_message : List ℕ → Outcome TestMessage
  unfolding read_message
  deserialize_message buf = run read_message buf

  unfoldable pub read_first : Reader FirstData
  unfolding next next_net next_number
  read_first = do
    cl_addr_len ← next_net (2 ^ 32) host
    client_addr ← next (2 ^ 32) cl_addr_len
    cl_port ← next_number (2 ^ 32) host 2
    pure (record { client_addr = client_addr; client_port = cl_port })

  unfoldable pub deserialize_first : List ℕ → Outcome FirstData
  unfolding read_first
  deserialize_first buf = run read_first buf

  -- `offset_limit` is that of the offset's type, which the two copies of the header differ in.
  unfoldable pub read_struct : ℕ → Reader TestStruct
  unfolding next next_net next_number next_nets
  read_struct offset_limit = do
    str_len ← next_net offset_limit host
    a ← next offset_limit str_len
    b ← next_net offset_limit host
    c ← next_number offset_limit host 8
    vec_size ← next_net offset_limit host
    d ← next_nets offset_limit host vec_size
    pure (record { a = a; b = b; c = c; d = d })

  -- The server's copy counts its offset in a u32.
  unfoldable pub deserialize_struct : List ℕ → Outcome TestStruct
  unfolding read_struct
  deserialize_struct buf = run (read_struct (2 ^ 32)) buf

-- What the C++ types guarantee of a struct, but for the lengths, which htonl cuts to 32 bits.
pub record IsStruct (s : TestStruct) : Type 0 where
  pub a_short : length s.a < 2 ^ 32
  pub b_word : s.b < 2 ^ 32
  pub d_short : length s.d < 2 ^ 32
  pub d_words : All (λ x. x < 2 ^ 32) s.d
