-- ===== src/Client/Main/Sending.antt =====
-- What the button `send` puts on the network.
use native.Mathlib.Nat.{mod-le}
use p2p_watcher.Base.{
  ℕ, ◌^◌, ◌<◌, ◌≡◌, refl, ap, ◌∙◌, true, List, ◌++◌, append_assoc, length, some, done, Bool-cases,
  Option-cases, ◌*◌, ◌≤◌, ◌%◌, List, replicate, length-replicate, inl, inr, arith,
}
use p2p_watcher.Network.{Asio}
use p2p_watcher.Protocol.Wire.{Endian}
use p2p_watcher.Protocol.GroupData.{TcpType, test_struct}
use p2p_watcher.Protocol.GroupData.RoundTrip.{length-serialize_message}
use p2p_watcher.Protocol.Packet.{Packet}
use p2p_watcher.Protocol.Sender.{packets_of, datagrams}
use p2p_watcher.Protocol.Sender.Chunks.{packets_of-Carries}
use p2p_watcher.Client.Headers.{server_port, serilize, serialize_message}
use p2p_watcher.Client.Screen.{Screen, IsScreen}
use p2p_watcher.Client.Udp.{UdpConnection, send_data}
use p2p_watcher.Client.Tcp.{TcpConnection, async_write, send_udp_data}
use p2p_watcher.Client.Main.{MainClient, sent_struct, sent_message, image_to_bytes, slot_send}

module _ (net : Asio) (host : Endian) where
  send_data-sent :
      (addr : List ℕ) (address data_type : ℕ) (buf : List ℕ) (ps : List Packet)
      (u : UdpConnection net)
      → net.is_open u.socket ≡ true
      → net.make_address addr ≡ some address
      → packets_of data_type buf ≡ done ps
      → send_data net host addr data_type buf u
        ≡ done (record u { sent = u.sent ++ datagrams host address server_port ps })
  unfolding send_data
  send_data-sent addr address data_type buf ps u opened known cut = rw (opened, known, cut) refl

  -- A write on the TCP connection leaves what the UDP sends depend on.
  async_write-keeps :
      (kind : TcpType) (buf : List ℕ) (c : TcpConnection net)
      → ((async_write net host kind buf c).server_addr ≡ c.server_addr)
        × ((async_write net host kind buf c).udp.socket ≡ c.udp.socket)
        × ((async_write net host kind buf c).udp.sent ≡ c.udp.sent)
  unfolding async_write
  async_write-keeps kind buf c = elim (Bool-cases (net.is_open c.socket)) [
    | inl e ↦ rw e (refl, refl, refl)
    | inr e ↦ rw e (refl, refl, refl)
  ]

  -- The bytes of a screenshot are at most those of its rows; there are none without a context.
  pub length-image_to_bytes :
      (screen : Screen)
      → IsScreen screen
      → (image : screen.Image)
      → length (image_to_bytes net screen (some image))
        ≤ screen.height image * screen.bytes_per_row image
  unfolding image_to_bytes
  length-image_to_bytes screen assumed image =
      let size : ℕ = screen.height image * screen.bytes_per_row image in
      let row = screen.bytes_per_row image in
      let raw_data : List ℕ = replicate (size % 2 ^ 64) 0 in
      elim (Option-cases
        (screen.draw (screen.width image) (screen.height image) row image raw_data)) [
          | inl e ↦ rw (e, image_to_bytes) (omega arith)
          | inr (drawn, e) ↦
              rw (e, image_to_bytes)
                (omega (
                  arith,
                  assumed.draws_inside (screen.width image) (screen.height image) row image raw_data
                      drawn e,
                  length-replicate {A = ℕ} (size % 2 ^ 64) 0,
                  mod-le size (2 ^ 64),
                ))
        ]

  -- On open sockets, the address of the server known and the screen captured, `send` puts the
  -- frame of its struct on the TCP connection, and hands the packets of its message and then
  -- those of the bytes of the screenshot to the UDP socket, for the server's port. The rows
  -- of the screen have fewer than 2 ^ 31 bytes.
  pub slot_send-sent :
      (screen : Screen) (w : MainClient net) (address : ℕ) (screenshot : screen.Image)
      → net.is_open w.conn.socket ≡ true
      → net.is_open w.conn.udp.socket ≡ true
      → net.make_address w.conn.server_addr ≡ some address
      → IsScreen screen
      → screen.height screenshot * screen.bytes_per_row screenshot < 2 ^ 31
      → (ps qs : List Packet) × (packets_of 0 (serialize_message host sent_message) ≡ done ps)
        × (packets_of 1 (image_to_bytes net screen (some screenshot)) ≡ done qs)
        × (w' : MainClient net) × (slot_send net screen host (some screenshot) w ≡ done w')
        × (w'.conn.written
            ≡ (async_write net host test_struct (serilize host sent_struct) w.conn).written)
        × (w'.conn.udp.sent
            ≡ w.conn.udp.sent
              ++ (datagrams host address server_port ps ++ datagrams host address server_port qs))
  unfolding slot_send send_udp_data
  slot_send-sent screen w address screenshot opened udp_opened known assumed small =
      let raw_data : List ℕ = image_to_bytes net screen (some screenshot) in
      let fits : length raw_data < 2 ^ 31 =
        omega (arith, length-image_to_bytes screen assumed screenshot) in
      let (ps, cut, _) = packets_of-Carries 0 (serialize_message host sent_message) (
        unfold serialize_message in
        omega (arith, length-serialize_message host host sent_message)) in
      let (qs, cut', _) = packets_of-Carries 1 raw_data fits in
      let c = async_write net host test_struct (serilize host sent_struct) w.conn in
      let kept = async_write-keeps test_struct (serilize host sent_struct) w.conn in
      let c_opened : net.is_open c.udp.socket ≡ true =
        ap (λ k. net.is_open k) kept.1 ∙ udp_opened in
      let c_known : net.make_address c.server_addr ≡ some address =
        ap (λ a. net.make_address a) kept.0 ∙ known in
      let messaged = record c.udp { sent = c.udp.sent ++ datagrams host address server_port ps } in
      let sent = record messaged {
        sent = messaged.sent ++ datagrams host address server_port qs;
      } in
      (
        ps,
        qs,
        cut,
        cut',
        record w { conn = record c { udp = sent } },
        rw
            (
              send_data-sent c.server_addr address 0 (serialize_message host sent_message) ps c.udp
                  c_opened c_known cut,
              send_data-sent c.server_addr address 1 raw_data qs messaged c_opened c_known cut',
            )
            refl,
        refl,
        rw (kept.2) (
            append_assoc w.conn.udp.sent (datagrams host address server_port ps)
              (datagrams host address server_port qs)),
      )
