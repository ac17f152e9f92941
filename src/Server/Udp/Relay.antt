-- ===== src/Server/Udp/Relay.antt =====
-- The server passes an image that comes in on to its clients.
use p2p_watcher.Base.{
  ℕ, ◌*◌, ◌<◌, ◌≤◌, ◌≡◌, refl, ◌∙◌, List, [], ◌∷◌, length, map, All, none, some, Outcome, done,
  ◌>>=◌, bind-done, arith, ◌++◌, append_assoc, append-nil, true,
}
use p2p_watcher.Network.{Asio}
use p2p_watcher.Protocol.Wire.{Endian}
use p2p_watcher.Protocol.Packet.{Packet, serialize}
use p2p_watcher.Protocol.Packet.RoundTrip.{parse-serialize}
use p2p_watcher.Protocol.Sender.{Datagram, datagrams, packets_of}
use p2p_watcher.Protocol.Sender.Chunks.{IsOwn, Carries-IsOwn, packets_of-Carries}
use p2p_watcher.Protocol.Assembly.{idle, assemble}
use p2p_watcher.Protocol.Assembly.Images.{Completes, Completes-Carries}
use p2p_watcher.Console.{with_number}
use p2p_watcher.Server.Udp.{
  UdpManager, ClientInfo, say, send_to, send_all, broadcast_udp, image_packet, handle_packet,
  process_packet,
}

module _ (net : Asio) (host : Endian) where
  -- A sequence of calls of `processPacket`.
  abbrev pub process_all : List (List ℕ) → UdpManager net → Outcome (UdpManager net)
  process_all [] m = done m
  process_all (buf ∷ bufs) m = process_packet net host buf m >>= process_all bufs

  pub handle_packet-image :
      (p : Packet) (m : UdpManager net)
      → p.header.server_hash ≡ 1337
      → p.d_type ≡ 1
      → handle_packet net host p m ≡ image_packet net host p m
  unfolding handle_packet
  handle_packet-image p m hash kind = rw (hash, kind) refl

  process_packet-image :
      (p : Packet) (m : UdpManager net)
      → IsOwn 1 p
      → process_packet net host (serialize host p) m ≡ image_packet net host p m
  unfolding process_packet
  process_packet-image p m own =
      rw (parse-serialize host p own.fits) (handle_packet-image p m own.hash own.kind)

  pub image_packet-part :
      (p : Packet) (m : UdpManager net) {s : _}
      → assemble p m.assembly ≡ done (s, none)
      → image_packet net host p m ≡ done (record m { assembly = s })
  unfolding image_packet
  image_packet-part p m e = rw e refl

  pub image_packet-last :
      (p : Packet) (m : UdpManager net) (image : List ℕ)
      → assemble p m.assembly ≡ done (idle, some image)
      → image_packet net host p m
        ≡ broadcast_udp net host 1 image
            (say net (with_number "size=" (length image)) (record m { assembly = idle }))
  unfolding image_packet
  image_packet-last p m image e = rw e refl

  process_all-Completes :
      (image : List ℕ) (ps : List Packet) (m : UdpManager net)
      → All (IsOwn 1) ps
      → Completes image ps m.assembly
      → process_all (map (serialize host) ps) m
        ≡ broadcast_udp net host 1 image
            (say net (with_number "size=" (length image)) (record m { assembly = idle }))
  process_all-Completes image [] m own c = absurd c
  process_all-Completes image (p ∷ []) m own c =
      bind-done (process_packet net host (serialize host p) m)
      ∙ (process_packet-image p m own.0 ∙ image_packet-last p m image c)
  process_all-Completes image (p ∷ q ∷ ps) m own (s', e, c) =
      rw (process_packet-image p m own.0, image_packet-part p m e)
        (process_all-Completes image (q ∷ ps) (record m { assembly = s' }) own.1 c)

  -- The packets of an image of 1 to 65535 * 1472 bytes, handed to processPacket in order by a
  -- server in any state, are logged and broadcast as that image, once, and leave the server ready
  -- for the next image.
  pub process_all-packets_of :
      (image : List ℕ) (m : UdpManager net)
      → 0 < length image
      → length image ≤ 65535 * 1472
      → (ps : List Packet) × (packets_of 1 image ≡ done ps)
        × (process_all (map (serialize host) ps) m
            ≡ broadcast_udp net host 1 image
                (say net (with_number "size=" (length image)) (record m { assembly = idle })))
  process_all-packets_of image m some_left small =
      let (ps, sent, carried) = packets_of-Carries 1 image (omega arith) in
      (
        ps,
        sent,
        process_all-Completes image ps m
            (Carries-IsOwn 1 (length image) _ 0 image ps (omega arith) carried)
            (Completes-Carries 1 image m.assembly ps some_left small carried),
      )

  -- The numeric addresses of the clients, in their order.
  abbrev pub Addressed : List (ℕ × ClientInfo) → List ℕ → Type 0
  Addressed [] [] = Unit
  Addressed ((id, client) ∷ cl) (address ∷ addresses) =
      (net.make_address client.addr ≡ some address) × Addressed cl addresses
  Addressed _ _ = ⊥

  abbrev pub all_datagrams : List Packet → List (ℕ × ClientInfo) → List ℕ → List Datagram
  all_datagrams pkts ((id, client) ∷ cl) (address ∷ addresses) =
      datagrams host address client.port pkts ++ all_datagrams pkts cl addresses
  all_datagrams _ _ _ = []

  send_all-sent :
      (data_type : ℕ) (buf : List ℕ) (ps : List Packet) (cl : List (ℕ × ClientInfo))
      (addresses : List ℕ) (m : UdpManager net)
      → packets_of data_type buf ≡ done ps
      → Addressed cl addresses
      → send_all net host data_type buf cl m
        ≡ done (record m { sent = m.sent ++ all_datagrams ps cl addresses })
  unfolding send_all send_to
  send_all-sent data_type buf ps [] [] m e h = rw append-nil refl
  send_all-sent data_type buf ps [] (address ∷ addresses) m e h = absurd h
  send_all-sent data_type buf ps ((id, client) ∷ cl) [] m e h = absurd h
  send_all-sent data_type buf ps ((id, client) ∷ cl) (address ∷ addresses) m e (known, h) =
      rw (known, e)
        (send_all-sent data_type buf ps cl addresses
            (record m { sent = m.sent ++ datagrams host address client.port ps }) e h
          ∙ rw append_assoc refl)

  -- On an open socket, and with an address that can be read for every client, a broadcast sends
  -- the packets of the payload to each client in turn and changes nothing else.
  pub broadcast_udp-sent :
      (data_type : ℕ) (buf : List ℕ) (ps : List Packet) (addresses : List ℕ) (m : UdpManager net)
      → net.is_open m.socket ≡ true
      → packets_of data_type buf ≡ done ps
      → Addressed m.cl addresses
      → broadcast_udp net host data_type buf m
        ≡ done (record m { sent = m.sent ++ all_datagrams ps m.cl addresses })
  unfolding broadcast_udp
  broadcast_udp-sent data_type buf ps addresses m opened e h =
      rw opened (send_all-sent data_type buf ps m.cl addresses m e h)
