-- ===== src/Client/Udp/Buffer.antt =====
-- The receive buffer of the client keeps its size, and the header of whatever it holds is decoded.
use p2p_watcher.Base.{
  ℕ, ◌≡◌, ◌∙◌, List, length, min, false, Option, none, some, done, if◌then◌else◌, ◌==◌, not,
  Ensures, Ensures-bind, Ensures-after, Ensures-if, Ensures-done, or_throw, arith,
}
use p2p_watcher.Network.{Asio, IsAsio}
use p2p_watcher.Network.Receiving.{length-receive}
use p2p_watcher.Protocol.Wire.{Endian}
use p2p_watcher.Protocol.Packet.{Packet, parse}
use p2p_watcher.Protocol.Sender.{packets_of}
use p2p_watcher.Protocol.Assembly.{assemble}
use p2p_watcher.Client.Headers.{deserialize_message}
use p2p_watcher.Client.Udp.{
  UdpConnection, open_udp, listen_udp, close_udp, send_data, update_image, image_packet,
  message_packet, handle_packet, prcs_packet, receive_datagram,
}

module _ (net : Asio) (host : Endian) where
  module _ (size : ℕ) where
    -- A socket with a receive buffer of this size.
    abbrev pub Holds : UdpConnection net → Type 0
    Holds u = length u.buffer ≡ size

    pub open_udp-Holds :
        (addr : List ℕ) (port : ℕ) (u : UdpConnection net)
        → Holds u
        → Ensures Holds (open_udp net addr port u)
    unfolding open_udp
    open_udp-Holds addr port u h =
        Ensures-after Holds (or_throw (net.make_address addr)) _ λ address.
          Ensures-after Holds (net.open_socket u.socket) _ λ opened.
            Ensures-after Holds (net.set_reuse opened) _ λ reusing.
              Ensures-after Holds (net.bind address port reusing) _ λ bound. Ensures-done Holds h

    pub listen_udp-Holds : (u : UdpConnection net) → Holds u → Holds (listen_udp net u)
    unfolding listen_udp
    listen_udp-Holds u h = ground (arith, h)

    pub close_udp-Holds : (u : UdpConnection net) → Holds u → Holds (close_udp net u)
    unfolding close_udp
    close_udp-Holds u h = ground (arith, h)

    pub send_data-Holds :
        (addr : List ℕ) (data_type : ℕ) (buf : List ℕ) (u : UdpConnection net)
        → Holds u
        → Ensures Holds (send_data net host addr data_type buf u)
    unfolding send_data
    send_data-Holds addr data_type buf u h =
        Ensures-if Holds (not (net.is_open u.socket)) _ _ (Ensures-done Holds h) (
          Ensures-after Holds (or_throw (net.make_address addr)) _ (λ address.
            Ensures-after Holds (packets_of data_type buf) _ (λ pkts. Ensures-done Holds h)))

    update_image-Holds :
        (whole : Option (List ℕ)) (u : UdpConnection net)
        → Holds u
        → Holds (update_image net whole u)
    unfolding update_image
    update_image-Holds none u h = h
    update_image-Holds (some img) u h = h

    handle_packet-Holds :
        (pkt : Packet) (u : UdpConnection net)
        → Holds u
        → Ensures Holds (handle_packet net host pkt u)
    unfolding handle_packet message_packet image_packet
    handle_packet-Holds pkt u h = Ensures-if Holds _ _ _ (Ensures-done Holds h) (
        Ensures-if Holds _ _ _
          (Ensures-after Holds (deserialize_message host pkt.buffer) _ (λ s. Ensures-done Holds h))
          (Ensures-if Holds _ _ _
            (Ensures-after Holds (assemble pkt u.assembly) _
              (λ r. Ensures-done Holds (update_image-Holds r.1 (record u { assembly = r.0 }) h)))
            (Ensures-done Holds h)))

    prcs_packet-Holds : (u : UdpConnection net) → Holds u → Ensures Holds (prcs_packet net host u)
    unfolding prcs_packet
    prcs_packet-Holds u h =
        Ensures-after Holds (parse host u.buffer) _ (λ pkt. handle_packet-Holds pkt u h)

    again-Holds :
        (u : UdpConnection net)
        → Holds u
        → Holds (if net.is_open u.socket then listen_udp net u else u)
    again-Holds u h = ground (arith, h, listen_udp-Holds u h)

    pub receive_datagram-Holds :
        (datagram : List ℕ) (u : UdpConnection net)
        → IsAsio net
        → Holds u
        → Ensures Holds (receive_datagram net host datagram u)
    unfolding receive_datagram
    receive_datagram-Holds datagram u assumed h =
        let filled : UdpConnection net = record u {
          receiving = false;
          buffer = net.receive datagram u.buffer;
        } in
        let h' : Holds filled = length-receive net assumed datagram u.buffer ∙ h in
        Ensures-bind Holds Holds
          (if min (length datagram) (length u.buffer) == 0
            then done filled
            else prcs_packet net host filled)
          (λ u'. done (if net.is_open u'.socket then listen_udp net u' else u'))
          (Ensures-if Holds (min (length datagram) (length u.buffer) == 0) _ _
            (Ensures-done Holds {a = filled} h') (prcs_packet-Holds filled h'))
          (λ u' k.
            Ensures-done Holds {a = if net.is_open u'.socket then listen_udp net u' else u'}
              (again-Holds u' k))
