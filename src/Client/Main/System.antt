-- ===== src/Client/Main/System.antt =====
-- The whole system: a screenshot from the window of one client over a running server to the window
-- of another running client.
use p2p_watcher.Base.{
  ℕ, ◌*◌, ◌-◌, ◌%◌, ◌≤◌, fault, ◌≡◌, ap, sym, ◌∙◌, true, List, [], ◌∷◌, ◌++◌, length, take, some,
  done, arith, ◌>>=◌,
}
use p2p_watcher.Network.{Asio, IsAsio}
use p2p_watcher.Protocol.Wire.{Endian}
use p2p_watcher.Protocol.Packet.{Packet}
use p2p_watcher.Protocol.Sender.{datagrams, packets_of}
use p2p_watcher.Protocol.Sender.Datagrams.{datagrams-append}
use p2p_watcher.Protocol.Assembly.Cutting.{cut_from, length-cut_from, cut_from-cut_from}
use p2p_watcher.Server.Udp.Relay.{Addressed, all_datagrams}
use p2p_watcher.Server.Tcp.{TcpManager}
use p2p_watcher.Server.Tcp.Events as ServerEvents
use p2p_watcher.Server.Main.{serve_forever}
use p2p_watcher.Server.Main.Images as ServerImages
use p2p_watcher.Server.Main.Images.{serve_forever-Holds, then_arrive}
use p2p_watcher.Client.Headers.{server_port}
use p2p_watcher.Client.Screen.{Screen, IsScreen}
use p2p_watcher.Client.Main.{MainClient, new_client, image_to_bytes, slot_send}
use p2p_watcher.Client.Main.Events.{Event, run}
use p2p_watcher.Client.Main.Images.{arrivals, run-image_shown, run-image_faults}
use p2p_watcher.Client.Main.Delivery.{delivered}
use p2p_watcher.Client.Main.Sending.{length-image_to_bytes, slot_send-sent}

module _ (net : Asio) (assumed : IsAsio net) (host : Endian) (screen : Screen) where
  -- From the click to what the server sends.
  module _ (w : MainClient net) (address : ℕ) (screenshot : screen.Image)
      (before : List (ServerEvents.Event net)) (m : TcpManager net) (addresses : List ℕ)
      (drawn : IsScreen screen) (opened : net.is_open w.conn.socket ≡ true)
      (udp_opened : net.is_open w.conn.udp.socket ≡ true)
      (known : net.make_address w.conn.server_addr ≡ some address)
      (small : screen.height screenshot * screen.bytes_per_row screenshot ≤ 65535 * 1472)
      (long : 1454 ≤ (length (image_to_bytes net screen (some screenshot)) - 1) % 1472)
      (served : serve_forever net host true before ≡ done m)
      (addressed : Addressed net host m.udp.cl addresses) where
    fits : length (image_to_bytes net screen (some screenshot)) ≤ 65535 * 1472
    fits = omega (arith, small, length-image_to_bytes net host screen drawn screenshot)

    -- The datagrams of `rs` go to the clients of the server.
    abbrev Sends : List Packet → Type 0
    Sends rs =
        (ps : List Packet) × (w' : MainClient net) × (m' : TcpManager net) × (slot_send net screen
            host (some screenshot) w
          ≡ done w')
        × (w'.conn.udp.sent ≡ w.conn.udp.sent ++ datagrams host address server_port ps)
        × (serve_forever net host true (before ++ ServerImages.arrivals net host ps) ≡ done m')
        × (m'.udp.sent ≡ m.udp.sent ++ all_datagrams net host rs m.udp.cl addresses)

    slot_send-Sends :
        (rs : List Packet)
        → packets_of 1 (cut_from 0 (image_to_bytes net screen (some screenshot))) ≡ done rs
        → Sends rs
    slot_send-Sends rs resent =
        let (ps, qs, message, image, w', clicked, _, sent) =
          slot_send-sent net host screen w address screenshot opened udp_opened known drawn
            (omega (arith, small)) in
        let (whole, up) = serve_forever-Holds net assumed host before m served in
        let (u, taken, relayed, _, _, _) =
          delivered net assumed host (image_to_bytes net screen (some screenshot)) fits long ps qs
            rs addresses m.udp whole message image resent up addressed in
        (
          ps ++ qs,
          w',
          record m { udp = u },
          clicked,
          sent ∙ ap (◌++◌ w.conn.udp.sent) (sym (datagrams-append host address server_port ps qs)),
          then_arrive net assumed host before m served (ps ++ qs)
              ∙ ap (λ x. x >>= λ udp. done (record m { udp = udp })) taken,
          relayed,
        )

  -- A client sends a screenshot of at least 2880 * 1800 * 4 bytes whose last packet carries 1455
  -- bytes or more. The datagrams that leave it, the message's and the screenshot's, arrive at a
  -- server that was started as the AsioCreator, whole and in order, after whatever else has
  -- completed there. The server sends the same datagrams to each client that it knows in turn. They
  -- arrive, whole and in order, at a client to which anything may have happened since its start, and
  -- which captures the screen: it puts on the label, once, the scaled pixmap of the screenshot's first
  -- 2880 * 1800 * 4 bytes with zeros as the last 17 of every 1472. Nothing has thrown or met
  -- undefined behaviour before; the sockets of the sender are open and it knows the address of the
  -- server; an address can be read for every client; there is such a pixmap; the rows of the screen
  -- have at most 65535 * 1472 bytes; and the hosts have one byte order.
  pub slot_send-displayed :
      (w : MainClient net) (address : ℕ) (screenshot : screen.Image)
      (before : List (ServerEvents.Event net)) (m : TcpManager net) (addresses : List ℕ)
      (events : List (Event net screen)) (v : MainClient net) (captured : screen.Image)
      (pixmap : List ℕ)
      → IsScreen screen
      → net.is_open w.conn.socket ≡ true
      → net.is_open w.conn.udp.socket ≡ true
      → net.make_address w.conn.server_addr ≡ some address
      → screen.height screenshot * screen.bytes_per_row screenshot ≤ 65535 * 1472
      → 2880 * 1800 * 4 ≤ length (image_to_bytes net screen (some screenshot))
      → 1454 ≤ (length (image_to_bytes net screen (some screenshot)) - 1) % 1472
      → serve_forever net host true before ≡ done m
      → Addressed net host m.udp.cl addresses
      → run net screen host events (new_client net) ≡ done v
      → screen.from_image
          (take (2880 * 1800 * 4) (cut_from 0 (image_to_bytes net screen (some screenshot))))
        ≡ some pixmap
      → (ps rs : List Packet) × (w' : MainClient net) × (m' : TcpManager net) × (v' : MainClient
          net)
        × (slot_send net screen host (some screenshot) w ≡ done w')
        × (w'.conn.udp.sent ≡ w.conn.udp.sent ++ datagrams host address server_port ps)
        × (serve_forever net host true (before ++ ServerImages.arrivals net host ps) ≡ done m')
        × (m'.udp.sent ≡ m.udp.sent ++ all_datagrams net host rs m.udp.cl addresses)
        × (run net screen host (arrivals net screen host (some captured) rs) v ≡ done v')
        × (v'.pixmaps ≡ v.pixmaps ++ screen.scaled pixmap ∷ [])
  slot_send-displayed w address screenshot before m addresses events v captured pixmap drawn opened
        udp_opened known small large long served addressed ran made =
      let raw_data : List ℕ = image_to_bytes net screen (some screenshot) in
      let fits : length raw_data ≤ 65535 * 1472 =
        omega (arith, small, length-image_to_bytes net host screen drawn screenshot) in
      let same = length-cut_from 0 raw_data in
      let (rs, v', resent, shown, pixmaps) =
        run-image_shown net assumed screen host captured events v (cut_from 0 raw_data) ran pixmap
          (omega (arith, same, large)) (omega (arith, same, fits)) (omega (arith, same, long))
          (rw (cut_from-cut_from 0 raw_data) made) in
      let (ps, w', m', clicked, sent, relayed, resends) =
        slot_send-Sends w address screenshot before m addresses drawn opened udp_opened known small
          long served addressed rs resent in
      (ps, rs, w', m', v', clicked, sent, relayed, resends, shown, pixmaps)

  -- A client sends a screenshot of at most 2880 * 1800 * 4 bytes whose last packet carries 1455
  -- bytes or more. The datagrams that leave it, the message's and the screenshot's, arrive at a
  -- server that was started as the AsioCreator, whole and in order, after whatever else has
  -- completed there: the server takes them, and sends the same datagrams to each client that it
  -- knows in turn. They arrive, whole and in order, at a client to which anything may have happened
  -- since its start, and which captures the screen: it meets undefined behaviour. Nothing has thrown
  -- or met undefined behaviour before; the sockets of the sender are open and it knows the address
  -- of the server; an address can be read for every client; the rows of the screen have at most
  -- 65535 * 1472 bytes; and the hosts have one byte order.
  pub slot_send-faults :
      (w : MainClient net) (address : ℕ) (screenshot : screen.Image)
      (before : List (ServerEvents.Event net)) (m : TcpManager net) (addresses : List ℕ)
      (events : List (Event net screen)) (v : MainClient net) (captured : screen.Image)
      → IsScreen screen
      → net.is_open w.conn.socket ≡ true
      → net.is_open w.conn.udp.socket ≡ true
      → net.make_address w.conn.server_addr ≡ some address
      → screen.height screenshot * screen.bytes_per_row screenshot ≤ 65535 * 1472
      → length (image_to_bytes net screen (some screenshot)) ≤ 2880 * 1800 * 4
      → 1454 ≤ (length (image_to_bytes net screen (some screenshot)) - 1) % 1472
      → serve_forever net host true before ≡ done m
      → Addressed net host m.udp.cl addresses
      → run net screen host events (new_client net) ≡ done v
      → (ps rs : List Packet) × (w' : MainClient net) × (m' : TcpManager net) × (slot_send net
            screen host
            (some screenshot)
            w
          ≡ done w')
        × (w'.conn.udp.sent ≡ w.conn.udp.sent ++ datagrams host address server_port ps)
        × (serve_forever net host true (before ++ ServerImages.arrivals net host ps) ≡ done m')
        × (m'.udp.sent ≡ m.udp.sent ++ all_datagrams net host rs m.udp.cl addresses)
        × (run net screen host (arrivals net screen host (some captured) rs) v ≡ fault)
  slot_send-faults w address screenshot before m addresses events v captured drawn opened udp_opened
        known small short long served addressed ran =
      let raw_data : List ℕ = image_to_bytes net screen (some screenshot) in
      let same = length-cut_from 0 raw_data in
      let (rs, resent, faults) =
        run-image_faults net assumed screen host captured events v (cut_from 0 raw_data) ran
          (omega (arith, same, long)) (omega (arith, same, short)) in
      let (ps, w', m', clicked, sent, relayed, resends) =
        slot_send-Sends w address screenshot before m addresses drawn opened udp_opened known small
          long served addressed rs resent in
      (ps, rs, w', m', clicked, sent, relayed, resends, faults)
