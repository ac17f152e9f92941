-- ===== src/Server/Udp/Table.antt =====
-- What the UDP manager does with datagrams changes only what it has sent, logged, assembled and
-- received: what does not depend on these it keeps.
use p2p_watcher.Base.{
  ℕ, ◌≡◌, ◌∙◌, Bool, List, [], ◌∷◌, length, Option, none, some, done, if◌then◌else◌, ◌==◌, not, min,
  Ensures, Ensures-bind, Ensures-after, Ensures-if, Ensures-done, Bool-cases, inl, inr, or_throw,
  false, true, ◌++◌,
}
use p2p_watcher.Network.{Asio, IsAsio}
use p2p_watcher.Console.{Console, literal, with_number, with_bytes}
use p2p_watcher.Protocol.Wire.{Endian}
use p2p_watcher.Protocol.Packet.{Packet, parse, server_hash_value}
use p2p_watcher.Protocol.Sender.{Datagram, datagrams, packets_of}
use p2p_watcher.Protocol.Assembly.{Assembly, assemble}
use p2p_watcher.Protocol.GroupData.{deserialize_message}
use p2p_watcher.Server.Udp.{
  ClientInfo, UdpManager, say, complain, broadcast_udp, send_all, send_to, relay_image, listen_udp,
  image_packet, message_packet, handle_packet, process_packet, receive_datagram,
}
use p2p_watcher.Network.Receiving.{length-receive}

module _ (net : Asio) (host : Endian) where
  -- What depends on none of these.
  pub record IsKept (Keeps : UdpManager net → Type 0) : Type 0 where
    pub sends :
        (u : UdpManager net) (sent : List Datagram) → Keeps u → Keeps (record u { sent = sent })
    pub logs :
        (u : UdpManager net) (console : Console) → Keeps u → Keeps (record u { console = console })
    pub assembles :
        (u : UdpManager net) (s : Assembly) → Keeps u → Keeps (record u { assembly = s })
    pub receives :
        (u : UdpManager net) (receiving : Bool)
        → Keeps u
        → Keeps (record u { receiving = receiving })
    pub fills :
        (u : UdpManager net) (datagram : List ℕ)
        → Keeps u
        → Keeps (record u { buffer = net.receive datagram u.buffer })

  module _ (Keeps : UdpManager net → Type 0) (kept : IsKept Keeps) where
    listen_udp-Keeps : (u : UdpManager net) → Keeps u → Keeps (listen_udp net u)
    unfolding listen_udp
    listen_udp-Keeps u h = elim (Bool-cases (net.is_open u.socket)) [
      | inl e ↦ rw e (kept.receives u true h)
      | inr e ↦ rw e h
    ]

    send_to-Keeps :
        (data_type : ℕ) (buf : List ℕ) (client : ClientInfo) (u : UdpManager net)
        → Keeps u
        → Ensures Keeps (send_to net host data_type buf client u)
    unfolding send_to
    send_to-Keeps data_type buf client u h =
        Ensures-after Keeps (or_throw (net.make_address client.addr)) _ λ address.
          Ensures-after Keeps (packets_of data_type buf) _ λ pkts.
            Ensures-done Keeps (kept.sends u (u.sent ++ datagrams host address client.port pkts) h)

    send_all-Keeps :
        (data_type : ℕ) (buf : List ℕ) (cl : List (ℕ × ClientInfo)) (u : UdpManager net)
        → Keeps u
        → Ensures Keeps (send_all net host data_type buf cl u)
    unfolding send_all
    send_all-Keeps data_type buf [] u h = Ensures-done Keeps h
    send_all-Keeps data_type buf ((id, client) ∷ cl) u h =
        Ensures-bind Keeps Keeps (send_to net host data_type buf client u) _
          (send_to-Keeps data_type buf client u h) (send_all-Keeps data_type buf cl)

    pub broadcast_udp-Keeps :
        (data_type : ℕ) (buf : List ℕ) (u : UdpManager net)
        → Keeps u
        → Ensures Keeps (broadcast_udp net host data_type buf u)
    unfolding broadcast_udp
    broadcast_udp-Keeps data_type buf u h =
        Ensures-if Keeps (net.is_open u.socket) _ _ (send_all-Keeps data_type buf u.cl u h)
          (Ensures-done Keeps {a = u} h)

    relay_image-Keeps :
        (whole : Option (List ℕ)) (u : UdpManager net)
        → Keeps u
        → Ensures Keeps (relay_image net host whole u)
    unfolding relay_image
    relay_image-Keeps none u h = Ensures-done Keeps h
    relay_image-Keeps (some img) u h =
        broadcast_udp-Keeps 1 img (say net (with_number "size=" (length img)) u) (kept.logs u _ h)

    image_packet-Keeps :
        (pkt : Packet) (u : UdpManager net) → Keeps u → Ensures Keeps (image_packet net host pkt u)
    unfolding image_packet
    image_packet-Keeps pkt u h =
        Ensures-after Keeps (assemble pkt u.assembly) _
          λ r. relay_image-Keeps r.1 (record u { assembly = r.0 }) (kept.assembles u r.0 h)

    message_packet-Keeps :
        (pkt : Packet) (u : UdpManager net)
        → Keeps u
        → Ensures Keeps (message_packet net host pkt u)
    unfolding message_packet
    message_packet-Keeps pkt u h =
        Ensures-after Keeps (deserialize_message host pkt.buffer) _ λ s.
          Ensures-done Keeps {a = say net (with_bytes "message=" s.message) u} (kept.logs u _ h)

    process_packet-Keeps :
        (buf : List ℕ) (u : UdpManager net)
        → Keeps u
        → Ensures Keeps (process_packet net host buf u)
    unfolding process_packet handle_packet
    process_packet-Keeps buf u h = Ensures-after Keeps (parse host buf) _ λ pkt.
        Ensures-if Keeps (not (pkt.header.server_hash == server_hash_value)) _ _
          (Ensures-done Keeps {a = complain net (literal "!=SERVER_HASH") u} (kept.logs u _ h))
          (Ensures-if Keeps (pkt.d_type == 0) _ _ (message_packet-Keeps pkt u h) (
            Ensures-if Keeps (pkt.d_type == 1) _ _ (image_packet-Keeps pkt u h)
              (Ensures-done Keeps {a = u} h)))

    again-Keeps :
        (u : UdpManager net)
        → Keeps u
        → Ensures Keeps (done (if net.is_open u.socket then listen_udp net u else u))
    again-Keeps u h = elim (Bool-cases (net.is_open u.socket)) [
      | inl e ↦ rw e (Ensures-done Keeps (listen_udp-Keeps u h))
      | inr e ↦ rw e (Ensures-done Keeps h)
    ]

    pub receive_datagram-Keeps :
        (datagram : List ℕ) (u : UdpManager net)
        → Keeps u
        → Ensures Keeps (receive_datagram net host datagram u)
    unfolding receive_datagram
    receive_datagram-Keeps datagram u h =
        let idle_socket : UdpManager net = record u { receiving = false } in
        let m : UdpManager net = record idle_socket { buffer = net.receive datagram u.buffer } in
        let h' : Keeps m = kept.fills idle_socket datagram (kept.receives u false h) in
        Ensures-bind Keeps Keeps
          (if min (length datagram) (length u.buffer) == 0
            then done m
            else process_packet net host m.buffer m)
          (λ u'. done (if net.is_open u'.socket then listen_udp net u' else u'))
          (Ensures-if Keeps (min (length datagram) (length u.buffer) == 0) _ _
            (Ensures-done Keeps {a = m} h') (process_packet-Keeps m.buffer m h'))
          again-Keeps

  pub Knows-IsKept : (known : List (ℕ × ClientInfo)) → IsKept (λ u. u.cl ≡ known)
  Knows-IsKept known = record {
    sends = λ u sent h. h;
    logs = λ u console h. h;
    assembles = λ u s h. h;
    receives = λ u receiving h. h;
    fills = λ u datagram h. h;
  }

  -- The receive buffer has this size, and the socket is open.
  abbrev pub HoldsUdp : ℕ → UdpManager net → Type 0
  HoldsUdp size u = (length u.buffer ≡ size) × (net.is_open u.socket ≡ true)

  pub Holds-IsKept : (size : ℕ) → IsAsio net → IsKept (HoldsUdp size)
  Holds-IsKept size assumed = record {
    sends = λ u sent h. h;
    logs = λ u console h. h;
    assembles = λ u s h. h;
    receives = λ u receiving h. h;
    fills = λ u datagram h. (length-receive net assumed datagram u.buffer ∙ h.0, h.1);
  }

  pub broadcast_udp-Knows :
      (known : List (ℕ × ClientInfo)) (data_type : ℕ) (buf : List ℕ) (u : UdpManager net)
      → u.cl ≡ known
      → Ensures (λ u. u.cl ≡ known) (broadcast_udp net host data_type buf u)
  broadcast_udp-Knows known = broadcast_udp-Keeps (λ u. u.cl ≡ known) (Knows-IsKept known)

  pub receive_datagram-Knows :
      (known : List (ℕ × ClientInfo)) (datagram : List ℕ) (u : UdpManager net)
      → u.cl ≡ known
      → Ensures (λ u. u.cl ≡ known) (receive_datagram net host datagram u)
  receive_datagram-Knows known = receive_datagram-Keeps (λ u. u.cl ≡ known) (Knows-IsKept known)
