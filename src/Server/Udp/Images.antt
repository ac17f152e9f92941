-- ===== src/Server/Udp/Images.antt =====
-- The server takes images from its UDP socket: its handler of a datagram is a Receiver.
use p2p_watcher.Base.{
  ℕ, ◌-◌, ◌*◌, ◌%◌, ◌≤◌, ◌≡◌, refl, ap, List, length, min, map, Option, none, true, false, ◌++◌,
  ◌∙◌, inl, inr, Bool-cases, Outcome, done, ne→==, ◌≢◌, ◌>>=◌, bind_assoc, arith, if◌then◌else◌,
}
use p2p_watcher.Network.{Asio, IsAsio}
use p2p_watcher.Console.{with_number}
use p2p_watcher.Protocol.Wire.{Endian}
use p2p_watcher.Protocol.Packet.{Packet, IsPacket, serialize}
use p2p_watcher.Protocol.Packet.RoundTrip.{length-serialize}
use p2p_watcher.Protocol.Sender.{packets_of}
use p2p_watcher.Protocol.Sender.Chunks.{IsOwn}
use p2p_watcher.Protocol.Assembly.{Assembly, idle, assemble}
use p2p_watcher.Protocol.Assembly.Cutting.{cut_from, length-cut_from}
use p2p_watcher.Protocol.Assembly.Truncation.{seen_payload, parse-receive}
use p2p_watcher.Protocol.Receiving.{Receiver, receive_each}
use p2p_watcher.Protocol.Receiving.Whole.{receive_each-packets_of}
use p2p_watcher.Server.Udp.Relay.{handle_packet-image, Addressed, all_datagrams, broadcast_udp-sent}
use p2p_watcher.Server.Udp.{
  UdpManager, say, broadcast_udp, relay_image, image_packet, handle_packet, process_packet,
  listen_udp, receive_datagram,
}

module _ (net : Asio) (host : Endian) where
  -- A sequence of datagrams, each received in its turn.
  abbrev pub receive_all : List (List ℕ) → UdpManager net → Outcome (UdpManager net)
  receive_all = receive_each (receive_datagram net host)

  abbrev pub arrived : Packet → UdpManager net → UdpManager net
  arrived p m = record m { receiving = false; buffer = net.receive (serialize host p) m.buffer }

  -- `if (socket_.is_open()) listen();`
  abbrev pub again : UdpManager net → Outcome (UdpManager net)
  again m = done (if net.is_open m.socket then listen_udp net m else m)

  pub again-idle :
      (m : UdpManager net)
      → again (record m { receiving = false })
        ≡ done (record m { receiving = net.is_open m.socket })
  unfolding listen_udp
  again-idle m = elim (Bool-cases (net.is_open m.socket)) [ inl e ↦ rw e refl | inr e ↦ rw e refl ]

  module _ (assumed : IsAsio net) where
    pub receive_datagram-seen :
        (p : Packet) (m : UdpManager net)
        → IsPacket p
        → length m.buffer ≡ 1472
        → receive_datagram net host (serialize host p) m ≡ (
            handle_packet net host (record p { buffer = seen_payload p m.buffer }) (arrived p m)
            >>= again)
    unfolding receive_datagram process_packet
    receive_datagram-seen p m v h =
        let some_bytes : min (length (serialize host p)) (length m.buffer) ≢ 0 =
          omega (arith, length-serialize host p, h) in
        rw (ne→== _ 0 some_bytes, parse-receive net assumed host p m.buffer v h) refl

    -- What is done with an image, or without one.
    abbrev pub finish : Option (List ℕ) → UdpManager net → Outcome (UdpManager net)
    finish image m = relay_image net host image (record m { receiving = false }) >>= again

    abbrev pub after : List ℕ → Assembly → UdpManager net → UdpManager net
    after b s m = record m { receiving = net.is_open m.socket; buffer = b; assembly = s }

    pub receive_datagram-image :
        (p : Packet) (m : UdpManager net)
        → IsOwn 1 p
        → length m.buffer ≡ 1472
        → receive_datagram net host (serialize host p) m ≡ (
            assemble (record p { buffer = seen_payload p m.buffer }) m.assembly >>= λ (s, image).
            finish image (after (net.receive (serialize host p) m.buffer) s m))
    unfolding image_packet
    receive_datagram-image p m own size =
        let seen : Packet = record p { buffer = seen_payload p m.buffer } in
        receive_datagram-seen p m own.fits size
        ∙ (ap (λ x. x >>= again) (handle_packet-image net host seen (arrived p m) own.hash own.kind)
            ∙ bind_assoc (assemble seen m.assembly) _ again)

    pub finish-none :
        (b : List ℕ) (s : Assembly) (m : UdpManager net)
        → finish none (after b s m) ≡ done (after b s m)
    unfolding relay_image
    finish-none b s m = again-idle (after b s m)

    abbrev pub receiver : Receiver net host
    receiver = record {
      State = UdpManager net;
      buffer = λ m. m.buffer;
      assembly = λ m. m.assembly;
      receive = receive_datagram net host;
      after = after;
      finish = finish;
      buffer-after = λ b s m. refl;
      assembly-after = λ b s m. refl;
      after-after = λ b b' s s' m. refl;
      finish-none = finish-none;
      receive_lem = receive_datagram-image;
    }

    -- The server takes an image whose last packet carries 1455 bytes or more from its socket: its
    -- datagrams, received whole and in order, make it log the size and broadcast, once, the image in
    -- which the last 17 of every 1472 bytes are zeros; then it waits for the next image, and listens
    -- if the socket is open. The image has at most 65535 * 1472 bytes, and the buffer 1472.
    pub receive_all-packets_of :
        (image : List ℕ) (m : UdpManager net)
        → length image ≤ 65535 * 1472
        → 1454 ≤ (length image - 1) % 1472
        → length m.buffer ≡ 1472
        → (ps : List Packet) × (b : List ℕ) × (packets_of 1 image ≡ done ps)
          × (length b ≡ 1472)
          × (receive_all (map (serialize host) ps) m ≡ (
              broadcast_udp net host 1 (cut_from 0 image) (
                say net
                  (with_number "size=" (length image))
                  (record m { receiving = false; buffer = b; assembly = idle }))
              >>= λ m'. done (if net.is_open m'.socket then listen_udp net m' else m')))
    unfolding relay_image
    receive_all-packets_of image m small long size =
        let (ps, sent, (b, size', ran)) =
          receive_each-packets_of net assumed host receiver image m small long size in
        (ps, b, sent, size', rw (length-cut_from 0 image) at ran)

    -- Where the socket is open and an address can be read for every client, `rs` being the packets
    -- that the server makes of what it took.
    pub image_relayed :
        (image : List ℕ) (small : length image ≤ 65535 * 1472)
        (long : 1454 ≤ (length image - 1) % 1472) (rs : List Packet) (addresses : List ℕ)
        (m : UdpManager net)
        → length m.buffer ≡ 1472
        → packets_of 1 (cut_from 0 image) ≡ done rs
        → net.is_open m.socket ≡ true
        → Addressed net host m.cl addresses
        → (ps : List Packet) × (packets_of 1 image ≡ done ps)
          × (b : List ℕ) × (receive_all (map (serialize host) ps) m
              ≡ done (record (say net (with_number "size=" (length image)) m) {
                receiving = net.is_open m.socket;
                buffer = b;
                assembly = idle;
                sent = m.sent ++ all_datagrams net host rs m.cl addresses;
              }))
    image_relayed image small long rs addresses m size resent opened known =
        let (ps, b, sent, size', ran) = receive_all-packets_of image m small long size in
        let ready : UdpManager net =
          say net (with_number "size=" (length image))
            (record m { receiving = false; buffer = b; assembly = idle }) in
        (
          ps,
          sent,
          b,
          ran
              ∙ (ap (λ x. x >>= again)
                    (broadcast_udp-sent net host 1 (cut_from 0 image) rs addresses ready opened
                      resent known)
                  ∙ again-idle
                      (record ready { sent = m.sent ++ all_datagrams net host rs m.cl addresses })),
        )
