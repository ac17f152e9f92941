-- ===== src/Protocol/GroupData/RoundTrip.antt =====
-- Decoding what was encoded, by a host of the same or of the other byte order.
use native.Mathlib.Nat.{mod-eq_of_lt}
use p2p_watcher.Base.{
  ℕ, ◌+◌, ◌*◌, ◌/◌, ◌%◌, ◌^◌, ◌<◌, ◌≡◌, ◌≢◌, refl, ap, ◌∙◌, List, [], ◌∷◌, ◌++◌, length, All, done,
  fault, lt→leb, arith, length-append,
}
use p2p_watcher.Protocol.Wire.{
  Endian, little, big, bytes_of, value_of, le_bytes, le_value, htonl, u32,
}
use p2p_watcher.Protocol.Wire.Laws.{length-bytes_of, length-bytes_of-append, value_of-bytes_of}
use p2p_watcher.Protocol.Reader.{◌>>=◌, next_net, next_nets}
use p2p_watcher.Protocol.Reader.Laws.{
  Reads, Reads-next, Reads-bind, Reads-map, Reads-pure, Reads-number, Reads-net, run-Reads,
}
use p2p_watcher.Protocol.GroupData.{
  TestMessage, FirstData, TestStruct, IsStruct, net, nets, serialize_message, serialize_first,
  serilize, read_message, read_first, read_struct, deserialize_message, deserialize_first,
  deserialize_struct,
}

swapped :
    (writer host : Endian) (p : ℕ)
    → writer ≢ host
    → p < 2 ^ 16
    → value_of host (bytes_of writer 2 p) ≡ p % 256 * 256 + p / 256
unfolding value_of bytes_of le_bytes le_value
swapped little little p other h = absurd (other refl)
swapped little big p other h = omega arith
swapped big little p other h = omega arith
swapped big big p other h = absurd (other refl)

module _ (limit : ℕ) (writer host : Endian) where
  -- A length below 2 ^ 32 goes through the conversion to u32 and through htonl and ntohl.
  Reads-length :
      (xs : List ℕ)
      → length xs < 2 ^ 32
      → Reads limit (next_net limit host) (net writer (u32 (length xs))) (length xs)
  Reads-length xs h = rw (mod-eq_of_lt h) (Reads-net limit host (length xs) writer h)

  Reads-nets :
      (d : List ℕ)
      → All (λ x. x < 2 ^ 32) d
      → Reads limit (next_nets limit host (length d)) (nets writer d) d
  unfolding next_nets nets
  Reads-nets [] h = Reads-pure limit []
  Reads-nets (x ∷ d) h =
      Reads-bind limit _ (Reads-net limit host x writer h.0)
        (Reads-map limit (λ xs. x ∷ xs) (Reads-nets d h.1))

  abbrev pub seen : ℕ → ℕ → ℕ
  seen n x = value_of host (bytes_of writer n x)

  pub Reads-struct :
      (s : TestStruct)
      → IsStruct s
      → Reads limit (read_struct host limit) (serilize writer s) (record s { c = seen 8 s.c })
  unfolding read_struct serilize
  Reads-struct s h = Reads-bind limit _ (Reads-length s.a h.a_short) (
      Reads-bind limit _ (Reads-next limit (length s.a) s.a refl) (
        Reads-bind limit _ (Reads-net limit host s.b writer h.b_word) (
          Reads-bind limit _ (Reads-number limit host 8 s.c writer) (
            Reads-bind limit _ (Reads-length s.d h.d_short)
              (Reads-map limit _ (Reads-nets s.d h.d_words))))))

module _ (writer host : Endian) where
  Reads-first :
      (f : FirstData)
      → length f.client_addr < 2 ^ 32
      → Reads
          (2 ^ 32)
          (read_first host)
          (serialize_first writer f)
          (record f { client_port = value_of host (bytes_of writer 2 f.client_port) })
  unfolding read_first serialize_first
  Reads-first f h = Reads-bind (2 ^ 32) _ (Reads-length (2 ^ 32) writer host f.client_addr h) (
      Reads-bind (2 ^ 32) _ (Reads-next (2 ^ 32) (length f.client_addr) f.client_addr refl)
        (Reads-map (2 ^ 32) _ (Reads-number (2 ^ 32) host 2 f.client_port writer)))

  Reads-message :
      (m : TestMessage)
      → length m.message < 2 ^ 32
      → Reads (2 ^ 32) (read_message host) (serialize_message writer m) m
  unfolding read_message serialize_message
  Reads-message m h =
      Reads-bind (2 ^ 32) _ (Reads-length (2 ^ 32) writer host m.message h)
        (Reads-map (2 ^ 32) _ (Reads-next (2 ^ 32) (length m.message) m.message refl))

  pub length-serialize_message :
      (m : TestMessage) → length (serialize_message writer m) ≡ 4 + length m.message
  unfolding serialize_message
  length-serialize_message m = omega (
    arith,
    length-append (net writer (u32 (length m.message))) m.message,
    length-bytes_of writer 4 (htonl writer (u32 (length m.message))),
  )

  length-serialize_first :
      (f : FirstData) → length (serialize_first writer f) ≡ 6 + length f.client_addr
  unfolding serialize_first
  length-serialize_first f = omega (
    arith,
    length-append (net writer (u32 (length f.client_addr)))
        (f.client_addr ++ bytes_of writer 2 f.client_port),
    length-append f.client_addr (bytes_of writer 2 f.client_port),
    length-bytes_of writer 4 (htonl writer (u32 (length f.client_addr))),
    length-bytes_of writer 2 f.client_port,
  )

  -- A message is read back on any host, whichever host wrote it and whatever follows it in the
  -- buffer, if its text is shorter than 2 ^ 32 - 4 bytes.
  pub deserialize_message-serialize :
      (m : TestMessage) (rest : List ℕ)
      → 4 + length m.message < 2 ^ 32
      → deserialize_message host (serialize_message writer m ++ rest) ≡ done m
  unfolding deserialize_message
  deserialize_message-serialize m rest h =
      run-Reads (2 ^ 32) rest (Reads-message m (omega arith))
        (omega (arith, length-serialize_message m))

  -- A message whose length field, of 32 bits, promises more bytes than follow it reads outside its
  -- buffer.
  pub deserialize_message_overrun :
      (promised : ℕ) (body : List ℕ)
      → promised < 2 ^ 32
      → length body < promised
      → deserialize_message host (net writer promised ++ body) ≡ fault
  unfolding deserialize_message read_message
  deserialize_message_overrun promised body h short =
      let four = length-bytes_of writer 4 (htonl writer promised) in
      let header =
        (Reads-net (2 ^ 32) host promised writer h).apply [] body (omega (arith, four)) in
      let beyond : length (net writer promised ++ body) < 4 + promised =
        omega (arith, four, length-append (net writer promised) body, short) in
      rw (header, ◌>>=◌, four, lt→leb (4 + promised) (length (net writer promised ++ body)) beyond)
        refl

  first_data_seen :
      (f : FirstData) (rest : List ℕ)
      → 6 + length f.client_addr < 2 ^ 32
      → deserialize_first host (serialize_first writer f ++ rest)
        ≡ done (record f { client_port = value_of host (bytes_of writer 2 f.client_port) })
  unfolding deserialize_first
  first_data_seen f rest h =
      run-Reads (2 ^ 32) rest (Reads-first f (omega arith))
        (omega (arith, length-serialize_first f))

-- A host reads back the address and the port that a host of its own byte order wrote, whatever
-- follows them, if the port fits 16 bits and the address is shorter than 2 ^ 32 - 6 bytes.
pub deserialize_first-serialize :
    (host : Endian) (f : FirstData) (rest : List ℕ)
    → f.client_port < 2 ^ 16
    → 6 + length f.client_addr < 2 ^ 32
    → deserialize_first host (serialize_first host f ++ rest) ≡ done f
deserialize_first-serialize host f rest port h =
    first_data_seen host host f rest h
    ∙ ap (λ p. done (record f { client_port = p }))
        (value_of-bytes_of host 2 f.client_port ∙ mod-eq_of_lt port)

-- The two bytes of a port change places between hosts of different byte order, since the port is
-- written without htons; the address arrives whole. The port fits
-- 16 bits, and the address is shorter than 2 ^ 32 - 6 bytes.
pub first_port_swapped :
    (writer host : Endian) (f : FirstData) (rest : List ℕ)
    → writer ≢ host
    → f.client_port < 2 ^ 16
    → 6 + length f.client_addr < 2 ^ 32
    → deserialize_first host (serialize_first writer f ++ rest)
      ≡ done (record f { client_port = f.client_port % 256 * 256 + f.client_port / 256 })
first_port_swapped writer host f rest other port h =
    first_data_seen writer host f rest h
    ∙ ap (λ p. done (record f { client_port = p })) (swapped writer host f.client_port other port)

length-nets : (writer : Endian) (d : List ℕ) → length (nets writer d) ≡ 4 * length d
unfolding nets
length-nets writer [] = refl
length-nets writer (x ∷ d) = omega (
  arith,
  length-append (net writer x) (nets writer d),
  length-bytes_of writer 4 (htonl writer x),
  length-nets writer d,
)

pub length-serilize :
    (writer : Endian) (s : TestStruct)
    → length (serilize writer s) ≡ 20 + length s.a + 4 * length s.d
unfolding serilize
length-serilize w s =
    rw
      (
        length-bytes_of-append w 4,
        length-append s.a,
        length-bytes_of-append w 4,
        length-bytes_of-append w 8,
        length-bytes_of-append w 4,
        length-nets w s.d,
      )
      (omega arith)

-- A host reads back a TestStruct that a host of its own byte order wrote, whatever follows it, if
-- the fields fit their C++ types and the encoding is shorter than 2 ^ 32 bytes.
pub deserialize_struct-serilize :
    (host : Endian) (s : TestStruct) (rest : List ℕ)
    → s.b < 2 ^ 32
    → s.c < 2 ^ 64
    → All (λ x. x < 2 ^ 32) s.d
    → 20 + length s.a + 4 * length s.d < 2 ^ 32
    → deserialize_struct host (serilize host s ++ rest) ≡ done s
unfolding deserialize_struct
deserialize_struct-serilize host s rest b_word c_word d_words h =
    run-Reads (2 ^ 32) rest (Reads-struct (2 ^ 32) host host s valid)
      (omega (arith, length-serilize host s))
    ∙ ap (λ c. done (record s { c = c })) (value_of-bytes_of host 8 s.c ∙ mod-eq_of_lt c_word)
  where
    valid : IsStruct s
    valid = record {
      a_short = omega arith;
      b_word = b_word;
      d_short = omega arith;
      d_words = d_words;
    }
