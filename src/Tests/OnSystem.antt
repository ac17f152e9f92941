-- ===== src/Tests/OnSystem.antt =====
-- A screenshot of 14087 full packets on its way between the programs of the other tests.
use native.Mathlib.Nat.{mod-eq_of_lt}
use p2p_watcher.Base.{
  ℕ, ◌*◌, ◌%◌, ◌^◌, ◌<◌, ◌≡◌, refl, ◌∙◌, true, List, [], ◌∷◌, ◌++◌, length, length-replicate, take,
  some, done, fault, arith,
}
use p2p_watcher.Network.Loopback.{loopback, loopback-IsAsio}
use p2p_watcher.Protocol.Wire.{little}
use p2p_watcher.Protocol.Packet.{Packet, server_port}
use p2p_watcher.Protocol.Sender.{datagrams}
use p2p_watcher.Protocol.Assembly.Cutting.{cut_from}
use p2p_watcher.Server.Udp.Relay.{all_datagrams}
use p2p_watcher.Server.Tcp.{TcpManager}
use p2p_watcher.Server.Main.{serve_forever}
use p2p_watcher.Server.Main.Images as ServerImages
use p2p_watcher.Client.Main.{MainClient, image_to_bytes, slot_send}
use p2p_watcher.Client.Main.Events.{run}
use p2p_watcher.Client.Main.Images.{arrivals}
use p2p_watcher.Client.Main.System.{slot_send-displayed, slot_send-faults}
use p2p_watcher.Tests.OnVisits.{visits, served, served_lem, served_addresses}
use p2p_watcher.Tests.OnWindow.{
  small_screen, small_screen-IsScreen, window, session, last_state, last_state_lem,
}

length-image_to_bytes :
    (rows : ℕ)
    → rows * 4 < 2 ^ 64
    → length (image_to_bytes loopback small_screen (some rows)) ≡ rows * 4
unfolding image_to_bytes
length-image_to_bytes rows h =
    length-replicate {A = ℕ} (rows * 4 % 2 ^ 64) 0 ∙ mod-eq_of_lt {n = rows * 4} {m = 2 ^ 64} h

slot_send-displayed_example :
    (ps rs : List Packet) × (w' : MainClient loopback) × (m' : TcpManager loopback)
    × (v' : MainClient loopback) × (slot_send loopback small_screen little (some 5184016) window
        ≡ done w')
    × (w'.conn.udp.sent ≡ window.conn.udp.sent ++ datagrams little 127 server_port ps)
    × (serve_forever loopback little true (visits ++ ServerImages.arrivals loopback little ps)
        ≡ done m')
    × (m'.udp.sent ≡ served.udp.sent ++ all_datagrams loopback little rs served.udp.cl (127 ∷ []))
    × (run loopback small_screen little
          (arrivals loopback small_screen little (some 375) rs)
          last_state
        ≡ done v')
    × (v'.pixmaps
        ≡ last_state.pixmaps
          ++ take
              (2880 * 1800 * 4)
              (cut_from 0 (image_to_bytes loopback small_screen (some 5184016)))
            ∷ [])
slot_send-displayed_example =
    let size = length-image_to_bytes 5184016 (omega arith) in
    slot_send-displayed loopback loopback-IsAsio little small_screen window 127 5184016 visits
      served (127 ∷ []) session last_state 375
      (take (2880 * 1800 * 4) (cut_from 0 (image_to_bytes loopback small_screen (some 5184016))))
      small_screen-IsScreen refl refl refl (omega arith) (omega (arith, size)) (omega (arith, size))
      served_lem served_addresses last_state_lem refl

slot_send-faults_example :
    (ps rs : List Packet) × (w' : MainClient loopback) × (m' : TcpManager loopback) × (slot_send
        loopback small_screen little
        (some 736)
        window
      ≡ done w')
    × (w'.conn.udp.sent ≡ window.conn.udp.sent ++ datagrams little 127 server_port ps)
    × (serve_forever loopback little true (visits ++ ServerImages.arrivals loopback little ps)
        ≡ done m')
    × (m'.udp.sent ≡ served.udp.sent ++ all_datagrams loopback little rs served.udp.cl (127 ∷ []))
    × (run loopback small_screen little
          (arrivals loopback small_screen little (some 375) rs)
          last_state
        ≡ fault)
slot_send-faults_example =
    let size = length-image_to_bytes 736 (omega arith) in
    slot_send-faults loopback loopback-IsAsio little small_screen window 127 736 visits served
      (127 ∷ []) session last_state 375 small_screen-IsScreen refl refl refl (omega arith)
      (omega (arith, size)) (omega (arith, size)) served_lem served_addresses last_state_lem
