-- ===== src/Protocol/Sender/Datagrams.antt =====
-- What leaves through the socket for a payload: how many datagrams, how long, and of what.
use p2p_watcher.Base.{
  ◌++◌, ap, refl, ◌∷◌, [], ℕ, zero, suc, ◌+◌, ◌/◌, ◌^◌, ◌<◌, ◌≤◌, ◌≡◌, refl, List, [], ◌∷◌, ◌++◌,
  length, take, drop, All, All-append, done, arith, length-take,
}
use p2p_watcher.Protocol.Wire.{Endian, IsBytes, bytes_of}
use p2p_watcher.Protocol.Wire.Laws.{bytes_of-IsBytes}
use p2p_watcher.Protocol.Packet.{Packet, IsPacket, serialize, front}
use p2p_watcher.Protocol.Packet.RoundTrip.{length-serialize}
use p2p_watcher.Protocol.Sender.{Datagram, datagrams, packets_of}
use p2p_watcher.Protocol.Sender.Chunks.{
  Carries, packets_of-Carries, expected_packet, expected_packet-IsOwn,
}

IsBytes-append : (xs ys : List ℕ) → IsBytes xs → IsBytes ys → IsBytes (xs ++ ys)
IsBytes-append xs ys h k = All-append (λ b. b < 256) xs ys h k

IsBytes-take : (n : ℕ) (xs : List ℕ) → IsBytes xs → IsBytes (take n xs)
IsBytes-take zero xs h = tt
IsBytes-take (suc n) [] h = tt
IsBytes-take (suc n) (x ∷ xs) (h, hs) = (h, IsBytes-take n xs hs)

IsBytes-drop : (n : ℕ) (xs : List ℕ) → IsBytes xs → IsBytes (drop n xs)
IsBytes-drop zero xs h = h
IsBytes-drop (suc n) [] h = tt
IsBytes-drop (suc n) (x ∷ xs) (h, hs) = IsBytes-drop n xs hs

module _ (host : Endian) where
  serialize-IsBytes : (pkt : Packet) → IsBytes pkt.buffer → IsBytes (serialize host pkt)
  unfolding serialize front
  serialize-IsBytes pkt h =
      let h' = pkt.header in
      IsBytes-append _ _
        (next 2 h'.server_hash _ (
          next 4 h'.total_data_size _ (
            next 2 h'.total_cnt_packets _ (
              next 2 h'.cur_packet_number _ (
                next 2 h'.cur_packet_size _ (
                  next 1 h'.is_first _ (
                    next 1 h'.is_last _
                      (next 1 h'.is_compressed _ (bytes_of-IsBytes host 2 pkt.d_type)))))))))
        h
    where
      next : (w n : ℕ) (ys : List ℕ) → IsBytes ys → IsBytes (bytes_of host w n ++ ys)
      next w n ys k = IsBytes-append (bytes_of host w n) ys (bytes_of-IsBytes host w n) k

  -- The datagram of a packet that carries at least one byte, to `address` and `port`.
  abbrev pub IsDatagram : ℕ → ℕ → Datagram → Type 0
  IsDatagram address port d =
      IsBytes d.bytes
      × (18 ≤ length d.bytes)
      × (length d.bytes ≤ 1489)
      × (d.address ≡ address)
      × (d.port ≡ port)

  module _ (address port data_type total cnt : ℕ) (small : total < 2 ^ 32) where
    IsDatagram-packet :
        (idx : ℕ) (rest : List ℕ) (p : Packet)
        → 0 < length rest
        → IsBytes rest
        → p ≡ expected_packet data_type total cnt idx (take 1472 rest)
        → IsPacket p
          × IsDatagram address port
              (record { address = address; port = port; bytes = serialize host p })
    IsDatagram-packet idx rest p some_left h is =
        let p' : Packet = expected_packet data_type total cnt idx (take 1472 rest) in
        let size = length-serialize host p' in
        let cut = length-take 1472 rest in
        rw is (
          (expected_packet-IsOwn data_type total cnt idx (take 1472 rest) small
              (omega (arith, cut))).fits,
          (
            serialize-IsBytes p' (IsBytes-take 1472 rest h),
            omega (arith, size, cut),
            omega (arith, size, cut),
            refl,
            refl,
          ),
        )

    Carries-IsDatagram :
        (idx : ℕ) (rest : List ℕ) (ps : List Packet)
        → IsBytes rest
        → Carries data_type total cnt idx rest ps
        → All IsPacket ps
          × All (IsDatagram address port) (datagrams host address port ps)
          × (idx + length (datagrams host address port ps) ≡ cnt)
    Carries-IsDatagram idx rest [] h (none_left, all) = (tt, tt, omega arith)
    Carries-IsDatagram idx rest (p ∷ ps) h (some_left, is, c) =
        let first = IsDatagram-packet idx rest p some_left h is in
        let (fits, good, count) =
          Carries-IsDatagram (idx + 1) (drop 1472 rest) ps (IsBytes-drop 1472 rest h) c in
        ((first.0, fits), (first.1, good), omega (arith, count))

  -- For a payload of fewer than 2 ^ 31 bytes the loop makes, without fault, packets whose fields
  -- fit their C++ types, one for every 1472 bytes begun. The datagrams for them are as many; each
  -- consists of bytes, of 18 to 1489 of them, and goes to the given address and port.
  pub packets_of-IsDatagram :
      (address port data_type : ℕ) (buf : List ℕ)
      → length buf < 2 ^ 31
      → IsBytes buf
      → (ps : List Packet) × (packets_of data_type buf ≡ done ps)
        × All IsPacket ps
        × All (IsDatagram address port) (datagrams host address port ps)
        × (length (datagrams host address port ps) ≡ (length buf + 1471) / 1472)
  packets_of-IsDatagram address port data_type buf small h =
      let (ps, runs, carried) = packets_of-Carries data_type buf small in
      let (fits, good, count) =
        Carries-IsDatagram address port data_type (length buf) ((length buf + 1471) / 1472)
          (omega arith) 0 buf ps h carried in
      (ps, runs, fits, good, omega (arith, count))

-- Two payloads sent one after the other.
pub datagrams-append :
    (host : Endian) (address port : ℕ) (ps qs : List Packet)
    → datagrams host address port (ps ++ qs)
      ≡ datagrams host address port ps ++ datagrams host address port qs
datagrams-append host address port [] qs = refl
datagrams-append host address port (p ∷ ps) qs =
    ap (◌∷◌ (record { address = address; port = port; bytes = serialize host p }))
      (datagrams-append host address port ps qs)
