-- ===== src/Protocol/Receiving/Whole.antt =====
-- An image whose last packet carries 1455 bytes or more, as a receiver takes it from its socket.
use p2p_watcher.Base.{
  ℕ, ◌+◌, ◌-◌, ◌*◌, ◌%◌, ◌≤◌, ◌≡◌, refl, ap, ◌∙◌, List, [], ◌∷◌, length, take, drop, map, All, some,
  done, bind-done, ◌>>=◌, append-nil, drop_all, length-take, length-drop, arith,
}
use p2p_watcher.Network.{Asio, IsAsio}
use p2p_watcher.Network.Receiving.{length-receive}
use p2p_watcher.Protocol.Wire.{Endian}
use p2p_watcher.Protocol.Packet.{Packet, serialize}
use p2p_watcher.Protocol.Sender.{packets_of}
use p2p_watcher.Protocol.Sender.Chunks.{IsOwn, Carries, Carries-IsOwn, packets_of-Carries}
use p2p_watcher.Protocol.Assembly.{idle, assemble}
use p2p_watcher.Protocol.Assembly.Images.{Completes}
use p2p_watcher.Protocol.Assembly.Cutting.{cut_from, cut_packet, Completes-cut}
use p2p_watcher.Protocol.Assembly.Truncation.{seen_payload}
use p2p_watcher.Protocol.Receiving.{Receiver, receive_each, Brings}

-- It fills the receive buffer.
abbrev IsLong : Packet → Type 0
IsLong p = 1455 ≤ length p.buffer

Carries-IsLong :
    (data_type total cnt idx : ℕ) (rest : List ℕ) (ps : List Packet)
    → 1454 ≤ (length rest - 1) % 1472
    → Carries data_type total cnt idx rest ps
    → All IsLong ps
Carries-IsLong data_type total cnt idx rest [] long c = tt
Carries-IsLong data_type total cnt idx rest (p ∷ []) long (_, e, c) =
    (rw e (omega (arith, length-take 1472 rest, length-drop 1472 rest, ap length c.0)), tt)
Carries-IsLong data_type total cnt idx rest (p ∷ q ∷ ps) long (_, e, c) = (
  rw e (omega (arith, length-take 1472 rest, length-drop 1472 rest, c.0)),
  Carries-IsLong data_type total cnt (idx + 1) (drop 1472 rest) (q ∷ ps)
      (omega (arith, length-drop 1472 rest, c.0)) c,
)

seen_payload-IsLong :
    (p : Packet) (buffer : List ℕ)
    → length buffer ≡ 1472
    → IsLong p
    → seen_payload p buffer ≡ take 1455 p.buffer
seen_payload-IsLong p buffer size long =
    rw (drop_all (17 + length p.buffer) buffer (omega (arith, size, long)))
      (append-nil (take 1455 p.buffer))

module _ (net : Asio) (assumed : IsAsio net) (host : Endian) (r : Receiver net host) where
  open r use {State, buffer, assembly, receive, after, finish}

  receive-IsLong :
      (p : Packet) (m : State)
      → IsOwn 1 p
      → IsLong p
      → length (buffer m) ≡ 1472
      → receive (serialize host p) m ≡ (
          assemble (cut_packet p) (assembly m) >>= λ (s, image).
          finish image (after (net.receive (serialize host p) (buffer m)) s m))
  receive-IsLong p m own long size =
      rw (r.receive_lem p m own size, seen_payload-IsLong p (buffer m) size long) refl

  Brings-Completes :
      (image : List ℕ) (ps : List Packet) (m : State)
      → All (IsOwn 1) ps
      → All IsLong ps
      → length (buffer m) ≡ 1472
      → Completes image (map cut_packet ps) (assembly m)
      → Brings net host r image ps m
  Brings-Completes image [] m own long size c = absurd c
  Brings-Completes image (p ∷ []) m own long size c = (
    net.receive (serialize host p) (buffer m),
    length-receive net assumed (serialize host p) (buffer m) ∙ size,
    receive-IsLong p m own.0 long.0 size ∙ rw c refl,
  )
  Brings-Completes image (p ∷ q ∷ ps) m own long size (s', e, c) =
      let b : List ℕ = net.receive (serialize host p) (buffer m) in
      (
        b,
        s',
        rw (receive-IsLong p m own.0 long.0 size, e) (r.finish-none b s' m),
        Brings-Completes image (q ∷ ps) (after b s' m) own.1 long.1
            (rw (r.buffer-after b s' m)
              (length-receive net assumed (serialize host p) (buffer m) ∙ size))
            (rw (r.assembly-after b s' m) c),
      )

  -- The datagrams of an image as the sender cuts it.
  pub Brings-packets_of :
      (image : List ℕ) (m : State)
      → length image ≤ 65535 * 1472
      → 1454 ≤ (length image - 1) % 1472
      → length (buffer m) ≡ 1472
      → (ps : List Packet) × (packets_of 1 image ≡ done ps)
        × Brings net host r (cut_from 0 image) ps m
  Brings-packets_of image m small long size =
      let (ps, sent, carried) = packets_of-Carries 1 image (omega arith) in
      (
        ps,
        sent,
        Brings-Completes (cut_from 0 image) ps m
            (Carries-IsOwn 1 (length image) _ 0 image ps (omega arith) carried)
            (Carries-IsLong 1 (length image) _ 0 image ps long carried) size
            (Completes-cut 1 image (assembly m) ps small long carried),
      )

  abbrev Takes : List ℕ → List Packet → State → Type 0
  Takes image ps m =
      (b : List ℕ) × (length b ≡ 1472)
      × (receive_each receive (map (serialize host) ps) m ≡ finish (some image) (after b idle m))

  receive_each-Brings :
      (image : List ℕ) (ps : List Packet) (m : State)
      → Brings net host r image ps m
      → Takes image ps m
  receive_each-Brings image [] m h = absurd h
  receive_each-Brings image (p ∷ []) m (b, size, e) =
      (b, size, bind-done (receive (serialize host p) m) ∙ e)
  receive_each-Brings image (p ∷ q ∷ ps) m (b, s, e, later) =
      let (b', size, ran) = receive_each-Brings image (q ∷ ps) (after b s m) later in
      (b', size, rw e (ran ∙ ap (finish (some image)) (r.after-after b b' s idle m)))

  pub receive_each-packets_of :
      (image : List ℕ) (m : State)
      → length image ≤ 65535 * 1472
      → 1454 ≤ (length image - 1) % 1472
      → length (buffer m) ≡ 1472
      → (ps : List Packet) × (packets_of 1 image ≡ done ps) × Takes (cut_from 0 image) ps m
  receive_each-packets_of image m small long size =
      let (ps, sent, brings) = Brings-packets_of image m small long size in
      (ps, sent, receive_each-Brings (cut_from 0 image) ps m brings)
