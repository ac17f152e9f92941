-- ===== src/Client/Main/Events.antt =====
-- Client/source/main.cpp, and what runs between its start and its end: the clicks in Qt's loop and
-- the completions in `io_context.run()`, in the order in which they happen.
use p2p_watcher.Base.{
  ℕ, Bool, not, List, [], ◌∷◌, length, drop, Option, Outcome, done, throws, fault, ◌>>=◌,
  if◌then◌else◌,
}
use p2p_watcher.Network.{Asio}
use p2p_watcher.Protocol.Wire.{Endian}
use p2p_watcher.Server.Session.{Completion}
use p2p_watcher.Client.Screen.{Screen}
use p2p_watcher.Client.Udp
use p2p_watcher.Client.Udp.{UdpConnection}
use p2p_watcher.Client.Tcp.{TcpConnection, on_resolved, on_connected, on_size, on_body, on_written}
use p2p_watcher.Client.Main.{
  MainClient, new_client, close_client, slot_connect, slot_disconnect, slot_send, show_image,
  on_timer,
}

-- Where the screen is captured, the event says what `CGDisplayCreateImage` gives.
pub data Event (net : Asio) (screen : Screen) : Type 0 where
  connect_clicked : List ℕ → Event net screen
  disconnect_clicked : Event net screen
  send_clicked : Option screen.Image → Event net screen
  resolved : Option ℕ → Event net screen
  connected : Option ℕ → net.Socket → Event net screen
  size_read : Completion → Event net screen
  body_read : Completion → Event net screen
  frame_written : Option ℕ → ℕ → Event net screen
  datagram : List ℕ → Option screen.Image → Event net screen
  datagram_failed : ℕ → Event net screen
  datagram_sent : Option ℕ → Event net screen
  timer : Option ℕ → Event net screen

-- How the program ends: without the permission to capture the screen, with the code of Qt's loop,
-- by `std::terminate`, or in undefined behaviour.
pub data Exit (net : Asio) : Type 0 where
  refused : Exit net
  returned : ℕ → MainClient net → Exit net
  terminated : Exit net
  undefined : Exit net

module _ (net : Asio) (screen : Screen) (host : Endian) where
  abbrev pub with_conn : MainClient net → TcpConnection net → MainClient net
  with_conn w c = record w { conn = c }

  abbrev pub with_udp : MainClient net → UdpConnection net → MainClient net
  with_udp w u = record w { conn = record w.conn { udp = u } }

  -- The calls of `signal_update_image_`, to which `showImage` is connected.
  unfoldable pub show_images :
      Option screen.Image → List (List ℕ) → MainClient net → Outcome (MainClient net)
  show_images captured [] w = done w
  show_images captured (img ∷ imgs) w =
      show_image net screen captured img w >>= show_images captured imgs

  -- `showImage` runs within the handler of the datagram that completes an image; what the handler
  -- does after it, to empty the static buffer and to listen again, does not depend on it.
  unfoldable pub on_datagram :
      List ℕ → Option screen.Image → MainClient net → Outcome (MainClient net)
  on_datagram bytes captured w = do
    udp ← Udp.receive_datagram net host bytes w.conn.udp
    show_images captured (drop (length w.conn.udp.images) udp.images) (with_udp w udp)

  unfoldable pub step : Event net screen → MainClient net → Outcome (MainClient net)
  step (connect_clicked host_text) w = done (slot_connect net host_text w)
  step disconnect_clicked w = done (slot_disconnect net w)
  step (send_clicked captured) w = slot_send net screen host captured w
  step (resolved ec) w = done (with_conn w (on_resolved net ec w.conn))
  step (connected ec socket) w = done (with_conn w (on_connected net ec socket w.conn))
  step (size_read c) w = done (with_conn w (on_size net host c w.conn))
  step (body_read c) w = on_body net host c w.conn >>= λ conn. done (with_conn w conn)
  step (frame_written ec n) w = done (with_conn w (on_written net host ec n w.conn))
  step (datagram bytes captured) w = on_datagram bytes captured w
  step (datagram_failed ec) w = done (with_udp w (Udp.receive_failed net ec w.conn.udp))
  step (datagram_sent ec) w = done (with_udp w (Udp.on_sent net ec w.conn.udp))
  step (timer ec) w = done (on_timer net ec w)

  unfoldable pub run : List (Event net screen) → MainClient net → Outcome (MainClient net)
  run [] w = done w
  run (event ∷ events) w = step event w >>= run events

  -- `ret` is the value of `a.exec()`. An exception leaves the thread of the io_context, or unwinds
  -- `main` while that thread is joinable: the program is terminated in both cases. The window is
  -- destroyed at the end of `main`.
  unfoldable pub exit_of : ℕ → Outcome (MainClient net) → Exit net
  exit_of ret (done w) = returned ret (close_client net w)
  exit_of ret throws = terminated
  exit_of ret fault = undefined

  unfoldable pub main : Bool → List (Event net screen) → ℕ → Exit net
  unfolding exit_of
  main access events ret = if not access then refused else exit_of ret (run events (new_client net))
