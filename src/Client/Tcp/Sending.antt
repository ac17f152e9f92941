-- ===== src/Client/Tcp/Sending.antt =====
-- What the server makes of what the client writes on the TCP connection.
use p2p_watcher.Base.{
  ℕ, ◌+◌, ◌*◌, ◌^◌, ◌<◌, ◌≡◌, refl, subst, true, List, [], ◌∷◌, ◌++◌, length, All, done, arith,
  append-nil,
}
use p2p_watcher.Console.{literal, with_number, with_bytes, numbers}
use p2p_watcher.Network.{Asio}
use p2p_watcher.Protocol.Wire.{Endian}
use p2p_watcher.Protocol.GroupData
use p2p_watcher.Protocol.GroupData.{TestStruct, TcpType, test_struct}
use p2p_watcher.Protocol.GroupData.RoundTrip.{length-serilize}
use p2p_watcher.Protocol.Packet.{IsPacket, serialize}
use p2p_watcher.Protocol.Packet.RoundTrip.{parse-serialize, length-serialize}
use p2p_watcher.Server.Session.{Session, process, reading_size, frame}
use p2p_watcher.Server.Session.Framing.{serve, frames, serve-frames_in_order}
use p2p_watcher.Server.Tcp
use p2p_watcher.Server.Tcp.{
  TcpManager, on_signals, on_signal, process_tcp, handle_tcp, print_struct,
}
use p2p_watcher.Client.Headers.{serilize}
use p2p_watcher.Protocol.GroupData.RoundTrip.{deserialize_struct-serilize}
use p2p_watcher.Client.Tcp.{TcpConnection, async_write, write_packet}

write_packet-IsPacket :
    (net : Asio) (host : Endian) (kind : TcpType) (buffer : List ℕ)
    → IsPacket (write_packet net host kind buffer)
unfolding write_packet
write_packet-IsPacket net host kind buffer = record {
  hash_word = omega arith;
  size_word = omega arith;
  count_word = omega arith;
  number_word = omega arith;
  packet_size_word = omega arith;
  first_byte = omega arith;
  last_byte = omega arith;
  compressed_byte = omega arith;
  type_word = code_small kind;
}
  where
    code_small : (k : TcpType) → (write_packet net host k buffer).d_type < 2 ^ 16
    code_small TcpType.test_struct = omega arith
    code_small TcpType.first_data = omega arith

module _ (net : Asio) (host : Endian) where
  -- The texts of a struct that came in.
  abbrev pub shown : TestStruct → TcpManager net → TcpManager net
  shown s m = Tcp.print net (numbers s.d) (
      Tcp.print net (with_number "" s.c) (
        Tcp.print net (with_number "" s.b)
          (Tcp.print net (with_bytes "" s.a) (Tcp.print net (literal "---TestStruct---") m))))

  pub process_tcp-struct :
      (s : TestStruct) (m : TcpManager net)
      → s.b < 2 ^ 32
      → s.c < 2 ^ 64
      → All (λ x. x < 2 ^ 32) s.d
      → 20 + length s.a + 4 * length s.d < 2 ^ 32
      → process_tcp net host
          (serialize host (write_packet net host test_struct (serilize host s)))
          m
        ≡ done (shown s m)
  unfolding process_tcp handle_tcp print_struct write_packet serilize
  process_tcp-struct s m b_word c_word d_words short =
      let payload : List ℕ = serilize host s in
      let decoded =
        subst (λ xs. GroupData.deserialize_struct host xs ≡ done s) (append-nil payload)
          (deserialize_struct-serilize host s [] b_word c_word d_words short) in
      rw
        (
          parse-serialize host (write_packet net host test_struct payload)
              (write_packet-IsPacket net host test_struct payload),
          decoded,
        )
        refl

  pub length-packet :
      (s : TestStruct)
      → length (serialize host (write_packet net host test_struct (serilize host s)))
        ≡ 37 + length s.a + 4 * length s.d
  unfolding write_packet serilize
  length-packet s = omega (
    arith,
    length-serialize host (write_packet net host test_struct (serilize host s)),
    length-serilize host s,
  )

  signals_of :
      (packet : List ℕ) (m : TcpManager net) {m' : TcpManager net}
      → process_tcp net host packet m ≡ done m'
      → on_signals net host (process packet ∷ []) m ≡ done m'
  unfolding on_signals on_signal
  signals_of packet m e = rw e refl

  -- A TestStruct that the client writes on its open connection becomes bytes from which a session
  -- that waits for a frame takes, by two reads, one packet, and the server prints the four fields
  -- of the struct for it. What follows on the stream is not touched, and the session waits for the
  -- next frame. The hosts have the same byte order, the fields fit their C++ types, and the packet
  -- is shorter than 2 ^ 32 bytes.
  pub async_write-served :
      (s : TestStruct) (c : TcpConnection net) (session : Session net) (rest : List ℕ)
      (m : TcpManager net)
      → net.is_open c.socket ≡ true
      → session.phase ≡ reading_size
      → s.b < 2 ^ 32
      → s.c < 2 ^ 64
      → All (λ x. x < 2 ^ 32) s.d
      → 37 + length s.a + 4 * length s.d < 2 ^ 32
      → (bytes : List ℕ) × ((async_write net host test_struct (serilize host s) c).written
          ≡ c.written ++ bytes)
        × (let (session', signals, left) = serve net host 2 session (bytes ++ rest) in
            (left ≡ rest)
            × (session'.phase ≡ reading_size)
            × (on_signals net host signals m ≡ done (shown s m)))
  async_write-served s c session rest m opened waiting b_word c_word d_words short =
      let packet : List ℕ = serialize host (write_packet net host test_struct (serilize host s)) in
      let size = length-packet s in
      let (emitted, untouched, again, _) =
        serve-frames_in_order net host (packet ∷ []) rest session waiting
          (omega (arith, size), tt) in
      (
        frames net host (packet ∷ []),
        unfold async_write frame in rw (opened, append-nil) refl,
        (
          untouched,
          again,
          rw emitted
              (signals_of packet m (process_tcp-struct s m b_word c_word d_words (omega arith))),
        ),
      )
