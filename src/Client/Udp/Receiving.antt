-- ===== src/Client/Udp/Receiving.antt =====
-- The client takes images from its UDP socket: its handler of a datagram is a Receiver.
use p2p_watcher.Base.{
  ℕ, ◌≡◌, refl, ap, ◌∙◌, List, [], ◌∷◌, ◌++◌, length, min, Option, none, some, false, inl, inr,
  Bool-cases, Outcome, done, ne→==, ◌≢◌, ◌>>=◌, bind_assoc, arith, if◌then◌else◌,
}
use p2p_watcher.Network.{Asio, IsAsio}
use p2p_watcher.Console.{with_number}
use p2p_watcher.Protocol.Wire.{Endian}
use p2p_watcher.Protocol.Packet.{Packet, IsPacket, serialize}
use p2p_watcher.Protocol.Packet.RoundTrip.{length-serialize}
use p2p_watcher.Protocol.Sender.Chunks.{IsOwn}
use p2p_watcher.Protocol.Assembly.{Assembly, assemble}
use p2p_watcher.Protocol.Assembly.Truncation.{seen_payload, parse-receive}
use p2p_watcher.Protocol.Receiving.{Receiver}
use p2p_watcher.Client.Udp.{
  UdpConnection, print, update_image, image_packet, handle_packet, prcs_packet, listen_udp,
  receive_datagram,
}

module _ (net : Asio) (host : Endian) where
  abbrev arrived : Packet → UdpConnection net → UdpConnection net
  arrived p u = record u { receiving = false; buffer = net.receive (serialize host p) u.buffer }

  -- `if (udp_var_->socket_->is_open()) listen();`
  abbrev pub again : UdpConnection net → Outcome (UdpConnection net)
  again u = done (if net.is_open u.socket then listen_udp net u else u)

  again-idle :
      (u : UdpConnection net)
      → again (record u { receiving = false })
        ≡ done (record u { receiving = net.is_open u.socket })
  unfolding listen_udp
  again-idle u = elim (Bool-cases (net.is_open u.socket)) [ inl e ↦ rw e refl | inr e ↦ rw e refl ]

  -- What is done with an image, or without one.
  abbrev pub finish : Option (List ℕ) → UdpConnection net → Outcome (UdpConnection net)
  finish image u = again (update_image net image (record u { receiving = false }))

  abbrev pub after : List ℕ → Assembly → UdpConnection net → UdpConnection net
  after b s u = record u { receiving = net.is_open u.socket; buffer = b; assembly = s }

  pub finish-none :
      (b : List ℕ) (s : Assembly) (u : UdpConnection net)
      → finish none (after b s u) ≡ done (after b s u)
  unfolding update_image
  finish-none b s u = again-idle (after b s u)

  pub finish-some :
      (image b : List ℕ) (s : Assembly) (u : UdpConnection net)
      → finish (some image) (after b s u)
        ≡ done (record (print net (with_number "size=" (length image)) u) {
          receiving = net.is_open u.socket;
          buffer = b;
          assembly = s;
          images = u.images ++ image ∷ [];
        })
  unfolding update_image
  finish-some image b s u =
      again-idle (record (print net (with_number "size=" (length image)) (after b s u)) {
        images = u.images ++ image ∷ [];
      })

  handle_packet-image :
      (p : Packet) (u : UdpConnection net)
      → p.header.server_hash ≡ 1337
      → p.d_type ≡ 1
      → handle_packet net host p u ≡ image_packet net p u
  unfolding handle_packet
  handle_packet-image p u hash kind = rw (hash, kind) refl

  module _ (assumed : IsAsio net) where
    receive_datagram-seen :
        (p : Packet) (u : UdpConnection net)
        → IsPacket p
        → length u.buffer ≡ 1472
        → receive_datagram net host (serialize host p) u ≡ (
            handle_packet net host (record p { buffer = seen_payload p u.buffer }) (arrived p u)
            >>= again)
    unfolding receive_datagram prcs_packet
    receive_datagram-seen p u v h =
        let some_bytes : min (length (serialize host p)) (length u.buffer) ≢ 0 =
          omega (arith, length-serialize host p, h) in
        rw (ne→== _ 0 some_bytes, parse-receive net assumed host p u.buffer v h) refl

    pub receive_datagram-image :
        (p : Packet) (u : UdpConnection net)
        → IsOwn 1 p
        → length u.buffer ≡ 1472
        → receive_datagram net host (serialize host p) u ≡ (
            assemble (record p { buffer = seen_payload p u.buffer }) u.assembly >>= λ (s, image).
            finish image (after (net.receive (serialize host p) u.buffer) s u))
    unfolding image_packet
    receive_datagram-image p u own size =
        let seen : Packet = record p { buffer = seen_payload p u.buffer } in
        receive_datagram-seen p u own.fits size
        ∙ (ap (λ x. x >>= again) (handle_packet-image seen (arrived p u) own.hash own.kind)
            ∙ bind_assoc (assemble seen u.assembly) _ again)

    abbrev pub receiver : Receiver net host
    receiver = record {
      State = UdpConnection net;
      buffer = λ u. u.buffer;
      assembly = λ u. u.assembly;
      receive = receive_datagram net host;
      after = after;
      finish = finish;
      buffer-after = λ b s u. refl;
      assembly-after = λ b s u. refl;
      after-after = λ b b' s s' u. refl;
      finish-none = finish-none;
      receive_lem = receive_datagram-image;
    }
