-- ===== src/Protocol/Receiving/Overruns.antt =====
-- The images whose last packet carries fewer than 1455 bytes, which no receiver takes.
use native.Mathlib.Numerals.{add-one}
use p2p_watcher.Base.{
  ℕ, zero, suc, ◌+◌, ◌-◌, ◌*◌, ◌/◌, ◌%◌, ◌^◌, ◌<◌, ◌≤◌, ◌≡◌, refl, ap, subst, ◌∙◌, List, [], ◌∷◌,
  length, take, drop, map, none, done, fault, length-replicate, lt→leb, length-take, length-drop,
  ne→==, arith,
}
use p2p_watcher.Network.{Asio, IsAsio}
use p2p_watcher.Network.Receiving.{length-receive}
use p2p_watcher.Protocol.Wire.{Endian, u16}
use p2p_watcher.Protocol.Packet.{Packet, serialize}
use p2p_watcher.Protocol.Sender.{packets_of}
use p2p_watcher.Protocol.Sender.Chunks.{
  Carries, IsOwn, expected_packet, expected_packet-IsOwn, packets_of-Carries,
}
use p2p_watcher.Protocol.Assembly.{
  Assembly, copy_into, begin_image, chunk_offset, end_image, assemble,
}
use p2p_watcher.Protocol.Assembly.Images.{chunk_offset_lem, Carries-le}
use p2p_watcher.Protocol.Assembly.Copies.{length-copy_into}
use p2p_watcher.Protocol.Assembly.Truncation.{seen_payload, length-seen_payload}
use p2p_watcher.Protocol.Receiving.{Receiver, receive_each, Breaks, receive_each-Breaks}

-- A payload that reaches beyond the assembly buffer is copied outside it.
assemble-overflow :
    (p : Packet) (s : Assembly)
    → length (begin_image p s).assembly_buffer
      < chunk_offset p.header.cur_packet_number + length p.buffer
    → assemble p s ≡ fault
unfolding assemble copy_into
assemble-overflow p s h = rw (lt→leb _ _ h) refl

module _ (total cnt : ℕ) (few : cnt < 2 ^ 16) where
  abbrev packet : ℕ → List ℕ → Packet
  packet idx piece = expected_packet 1 total cnt idx piece

  -- Before the packet of number `idx` the assembly buffer has the size of the image, if that packet
  -- is not the first, which sets it up.
  abbrev IsBegun : ℕ → Assembly → Type 0
  IsBegun zero s = Unit
  IsBegun (suc idx) s = length s.assembly_buffer ≡ total

  begin_size :
      (idx : ℕ) (piece payload : List ℕ) (s : Assembly)
      → IsBegun idx s
      → length (begin_image (record (packet idx piece) { buffer = payload }) s).assembly_buffer
        ≡ total
  unfolding begin_image
  begin_size zero piece payload s h = length-replicate {A = ℕ} total 0
  begin_size (suc idx) piece payload s h = ground (arith, h)

  -- A packet that is not the last leaves the buffer at its size, whatever 1455 bytes it holds.
  assemble-part :
      (idx : ℕ) (piece payload : List ℕ) (s : Assembly)
      → idx + 1 < cnt
      → 1472 * (idx + 1) ≤ total
      → length payload ≡ 1455
      → IsBegun idx s
      → (s' : Assembly) × (assemble (record (packet idx piece) { buffer = payload }) s
          ≡ done (s', none))
        × (length s'.assembly_buffer ≡ total)
  unfolding assemble end_image
  assemble-part idx piece payload s more inside size begun =
      let started : Assembly = begin_image (record (packet idx piece) { buffer = payload }) s in
      let at : chunk_offset (u16 (idx + 1)) ≡ 1472 * idx = chunk_offset_lem idx (omega arith) in
      let (b, copied, kept) =
        length-copy_into started.assembly_buffer payload (chunk_offset (u16 (idx + 1)))
          (omega (arith, at, begin_size idx piece payload s begun)) in
      (
        record started { assembly_buffer = b },
        rw (copied, ne→== (idx + 1) cnt (omega arith)) refl,
        kept ∙ begin_size idx piece payload s begun,
      )

  module _ (net : Asio) (assumed : IsAsio net) (host : Endian) (r : Receiver net host) where
    open r use {State, buffer, assembly, receive, after, finish}

    receive-overflow :
        (p : Packet) (m : State)
        → IsOwn 1 p
        → length (buffer m) ≡ 1472
        → length (begin_image p (assembly m)).assembly_buffer
          < chunk_offset p.header.cur_packet_number + 1455
        → receive (serialize host p) m ≡ fault
    unfolding begin_image
    receive-overflow p m own size beyond =
        let seen : Packet = record p { buffer = seen_payload p (buffer m) } in
        let outside =
          assemble-overflow seen (assembly m)
            (omega (arith, beyond, length-seen_payload p (buffer m) size)) in
        rw (r.receive_lem p m own size, outside) refl

    receive-part :
        (idx : ℕ) (piece : List ℕ) (m : State)
        → IsOwn 1 (packet idx piece)
        → idx + 1 < cnt
        → 1472 * (idx + 1) ≤ total
        → length (buffer m) ≡ 1472
        → IsBegun idx (assembly m)
        → (b : List ℕ) × (s : Assembly) × (receive (serialize host (packet idx piece)) m
            ≡ done (after b s m))
          × (length b ≡ 1472)
          × (length s.assembly_buffer ≡ total)
    receive-part idx piece m own more inside size begun =
        let p : Packet = packet idx piece in
        let b : List ℕ = net.receive (serialize host p) (buffer m) in
        let (s', assembled, kept) =
          assemble-part idx piece (seen_payload p (buffer m)) (assembly m) more inside
            (length-seen_payload p (buffer m) size) begun in
        (
          b,
          s',
          rw (r.receive_lem p m own size, assembled) (r.finish-none b s' m),
          length-receive net assumed (serialize host p) (buffer m) ∙ size,
          kept,
        )

    Breaks-Carries :
        (idx : ℕ) (rest : List ℕ) (ps : List Packet) (m : State)
        → total < 2 ^ 32
        → 1472 * idx + length rest ≡ total
        → (total - 1) % 1472 < 1454
        → 0 < length rest
        → Carries 1 total cnt idx rest ps
        → length (buffer m) ≡ 1472
        → IsBegun idx (assembly m)
        → Breaks net host r ps m
    unfolding chunk_offset
    Breaks-Carries idx rest [] m small at short some_left (none_left, all) size begun =
        absurd (omega (arith, ap length none_left))
    Breaks-Carries idx rest (p ∷ []) m small at short some_left (_, e, (none_left, last)) size
          begun =
        let piece : List ℕ = take 1472 rest in
        let own =
          expected_packet-IsOwn 1 total cnt idx piece small
            (omega (arith, length-take 1472 rest)) in
        let beyond = receive-overflow (packet idx piece) m own size (
          omega (
            arith,
            begin_size idx piece piece (assembly m) begun,
            length-drop 1472 rest,
            ap length none_left,
          )) in
        rw (e, beyond) refl
    Breaks-Carries idx rest (p ∷ q ∷ ps) m small at short some_left (_, e, c) size begun =
        let piece : List ℕ = take 1472 rest in
        let own =
          expected_packet-IsOwn 1 total cnt idx piece small
            (omega (arith, length-take 1472 rest)) in
        let further = Carries-le 1 total cnt (idx + 1 + 1) (drop 1472 (drop 1472 rest)) ps c.2 in
        let long = length-drop 1472 rest in
        let (b, s, received, size', kept) =
          receive-part idx piece m own (omega (arith, further)) (omega (arith, long, c.0)) size
            begun in
        rw e (
          b,
          s,
          received,
          Breaks-Carries (suc idx) (drop 1472 rest) (q ∷ ps) (after b s m) small
              (omega (arith, long, c.0)) short c.0
              (subst (λ k. Carries 1 total cnt k (drop 1472 rest) (q ∷ ps)) (add-one idx) c)
              (rw (r.buffer-after b s m) size') (rw (r.assembly-after b s m) kept),
        )

module _ (net : Asio) (assumed : IsAsio net) (host : Endian) (r : Receiver net host) where
  -- The datagrams of an image whose last packet carries fewer than 1455 bytes.
  pub Breaks-packets_of :
      (image : List ℕ) (m : r.State)
      → 0 < length image
      → length image ≤ 65535 * 1472
      → (length image - 1) % 1472 < 1454
      → length (r.buffer m) ≡ 1472
      → (ps : List Packet) × (packets_of 1 image ≡ done ps) × Breaks net host r ps m
  Breaks-packets_of image m some_left small short size =
      let (ps, sent, carried) = packets_of-Carries 1 image (omega arith) in
      (
        ps,
        sent,
        Breaks-Carries (length image) ((length image + 1471) / 1472) (omega arith) net assumed host
            r 0 image ps m (omega arith) (omega arith) short some_left carried size tt,
      )

  pub receive_each-short_end :
      (image : List ℕ) (m : r.State)
      → 0 < length image
      → length image ≤ 65535 * 1472
      → (length image - 1) % 1472 < 1454
      → length (r.buffer m) ≡ 1472
      → (ps : List Packet) × (packets_of 1 image ≡ done ps)
        × (receive_each r.receive (map (serialize host) ps) m ≡ fault)
  receive_each-short_end image m some_left small short size =
      let (ps, sent, breaks) = Breaks-packets_of image m some_left small short size in
      (ps, sent, receive_each-Breaks net host r ps m breaks)
