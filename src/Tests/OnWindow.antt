-- ===== src/Tests/OnWindow.antt =====
-- The client's window, on a screen of 375 rows of one pixel.
use p2p_watcher.Base.{
  ◌*◌, take, replicate, length-replicate, ℕ, ◌≡◌, refl, true, false, List, [], ◌∷◌, ◌++◌, length,
  some, none, Outcome, done, throws, fault, arith,
}
use p2p_watcher.Network.Loopback.{loopback, loopback-IsAsio}
use p2p_watcher.Protocol.Wire.{little}
use p2p_watcher.Protocol.GroupData.{test_struct}
use p2p_watcher.Protocol.Packet.{Packet, server_port, parse}
use p2p_watcher.Protocol.Packet.Layout.{packet_in}
use p2p_watcher.Protocol.Sender.{packets_of, datagrams}
use p2p_watcher.Client.Headers.{serialize_message, serilize}
use p2p_watcher.Client.Screen.{Screen, IsScreen}
use p2p_watcher.Client.Udp.{receive_failed}
use p2p_watcher.Client.Tcp.{async_write, on_connected, on_resolved, async_read, do_connect}
use p2p_watcher.Client.Main.{
  MainClient, sent_struct, sent_message, image_to_bytes, slot_send, slot_connect, new_client,
}
use p2p_watcher.Client.Main.Sending.{slot_send-sent}
use p2p_watcher.Client.Main.Events.{
  Event, connect_clicked, resolved, connected, datagram_failed, step, run,
}
use p2p_watcher.Client.Main.Buffer.{run-parses}
use p2p_watcher.Client.Main.Images.{arrivals, run-image_faults, run-image_shown}
use p2p_watcher.Protocol.Assembly.Cutting.{cut_from}
use p2p_watcher.Tests.{three_bytes, tcp_client}

abbrev pub small_screen : Screen
small_screen = record {
  Image = ℕ;
  width = λ rows. 1;
  height = λ rows. rows;
  bytes_per_row = λ rows. 4;
  draw = λ width height row image bytes. some bytes;
  from_image = λ pixels. some pixels;
  scaled = λ pixmap. pixmap;
}

pub small_screen-IsScreen : IsScreen small_screen
small_screen-IsScreen = record { draws_inside = λ width height row image bytes drawn e. cc }

abbrev pub window : MainClient loopback
window = record { conn = tcp_client; timer = false; pixmaps = [] }

slot_send-sent_example :
    (ps qs : List Packet) × (packets_of 0 (serialize_message little sent_message) ≡ done ps)
    × (packets_of 1 (image_to_bytes loopback small_screen (some 375)) ≡ done qs)
    × (w' : MainClient loopback) × (slot_send loopback small_screen little (some 375) window
        ≡ done w')
    × (w'.conn.written
        ≡ (async_write loopback little test_struct
            (serilize little sent_struct)
            window.conn).written)
    × (w'.conn.udp.sent
        ≡ window.conn.udp.sent
          ++ (datagrams little 127 server_port ps ++ datagrams little 127 server_port qs))
slot_send-sent_example =
    slot_send-sent loopback little small_screen window 127 375 refl refl refl small_screen-IsScreen
      (omega arith)

-- The client connects and a receive fails.
abbrev pub session : List (Event loopback small_screen)
session =
    connect_clicked (127 ∷ []) ∷ resolved none ∷ connected none true ∷ datagram_failed 995 ∷ []

abbrev pub result_of : Outcome (MainClient loopback) → MainClient loopback
result_of (done w) = w
result_of throws = window
result_of fault = window

abbrev pub last_state : MainClient loopback
last_state = result_of (run loopback small_screen little session (new_client loopback))

pub last_state_lem :
    run loopback small_screen little session (new_client loopback) ≡ done last_state
unfolding run step slot_connect do_connect on_resolved on_connected async_read receive_failed
last_state_lem = refl

run-parses_example :
    (parse little (loopback.receive three_bytes last_state.conn.udp.buffer)
      ≡ done (packet_in little (loopback.receive three_bytes last_state.conn.udp.buffer)))
    × (length ((packet_in little (loopback.receive three_bytes last_state.conn.udp.buffer)).buffer)
        ≡ 1455)
run-parses_example =
    run-parses loopback small_screen little loopback-IsAsio session last_state three_bytes
      last_state_lem

run-image_faults_example :
    (ps : List Packet) × (packets_of 1 three_bytes ≡ done ps)
    × (run loopback small_screen little
          (arrivals loopback small_screen little (some 375) ps)
          last_state
        ≡ fault)
run-image_faults_example =
    run-image_faults loopback loopback-IsAsio small_screen little 375 session last_state three_bytes
      last_state_lem (omega arith) (omega arith)

-- An image of one color. It stays shut, since it is too large to be written out.
plain : ℕ → List ℕ
plain size = replicate size 7

length-plain : (size : ℕ) → length (plain size) ≡ size
unfolding plain
length-plain size = length-replicate size 7

-- 14087 packets, each of them full.
abbrev big_image : List ℕ
big_image = plain (14087 * 1472)

run-image_shown_example :
    (ps : List Packet) × (w' : MainClient loopback) × (packets_of 1 big_image ≡ done ps)
    × (run loopback small_screen little
          (arrivals loopback small_screen little (some 375) ps)
          last_state
        ≡ done w')
    × (w'.pixmaps ≡ last_state.pixmaps ++ take (2880 * 1800 * 4) (cut_from 0 big_image) ∷ [])
run-image_shown_example =
    run-image_shown loopback loopback-IsAsio small_screen little 375 session last_state big_image
      last_state_lem (take (2880 * 1800 * 4) (cut_from 0 big_image))
      (omega (arith, length-plain (14087 * 1472))) (omega (arith, length-plain (14087 * 1472)))
      (omega (arith, length-plain (14087 * 1472))) refl
