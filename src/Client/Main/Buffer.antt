-- ===== src/Client/Main/Buffer.antt =====
-- Whatever happens, the client's receive buffer keeps its size.
use p2p_watcher.Base.{
  ℕ, ◌≡◌, ◌∙◌, List, [], ◌∷◌, length, length-drop, length-replicate, Option, none, some, done,
  Ensures, Ensures-bind, Ensures-after, Ensures-done, or_throw, arith,
}
use p2p_watcher.Network.{Asio, IsAsio}
use p2p_watcher.Network.Receiving.{length-receive}
use p2p_watcher.Protocol.Wire.{Endian}
use p2p_watcher.Protocol.Packet.{parse}
use p2p_watcher.Protocol.Packet.Layout.{packet_in, parse-long}
use p2p_watcher.Client.Screen.{Screen}
use p2p_watcher.Client.Udp
use p2p_watcher.Client.Udp.Buffer.{Holds, receive_datagram-Holds}
use p2p_watcher.Client.Tcp.{do_connect, on_body}
use p2p_watcher.Client.Tcp.Buffer.{
  Keeps, do_disconnect-Keeps, on_resolved-Keeps, on_connected-Keeps, on_size-Keeps, on_body-Keeps,
  async_write-Keeps, on_written-Keeps, send_udp_data-Keeps,
}
use p2p_watcher.Client.Main.{
  MainClient, new_udp, new_tcp, new_client, slot_connect, slot_disconnect, slot_send, show_image,
  on_timer, start_timer, image_to_bytes,
}
use p2p_watcher.Client.Main.Events.{
  Event, connect_clicked, disconnect_clicked, send_clicked, resolved, connected, size_read,
  body_read, frame_written, datagram, datagram_failed, datagram_sent, timer, step, run, on_datagram,
  show_images,
}

module _ (net : Asio) (screen : Screen) (host : Endian) where
  -- The receive buffer has its 1472 bytes.
  abbrev pub Whole : MainClient net → Type 0
  Whole w = Keeps net host 1472 w.conn

  show_image-Whole :
      (captured : Option screen.Image) (img : List ℕ) (w : MainClient net)
      → Whole w
      → Ensures Whole (show_image net screen captured img w)
  unfolding show_image
  show_image-Whole captured img w h = Ensures-after Whole (or_throw captured) _ λ screenshot.
      Ensures-after Whole _ _ λ pixels.
        Ensures-after Whole (or_throw (screen.from_image pixels)) _ λ pixmap. Ensures-done Whole h

  show_images-Whole :
      (captured : Option screen.Image) (imgs : List (List ℕ)) (w : MainClient net)
      → Whole w
      → Ensures Whole (show_images net screen host captured imgs w)
  unfolding show_images
  show_images-Whole captured [] w h = Ensures-done Whole h
  show_images-Whole captured (img ∷ imgs) w h =
      Ensures-bind Whole Whole (show_image net screen captured img w) _
        (show_image-Whole captured img w h) (show_images-Whole captured imgs)

  slot_send-Whole :
      (captured : Option screen.Image) (w : MainClient net)
      → Whole w
      → Ensures Whole (slot_send net screen host captured w)
  unfolding slot_send
  slot_send-Whole captured w h =
      Ensures-bind (Keeps net host 1472) Whole _ _
        (send_udp_data-Keeps net host 1472 0 _ _ (async_write-Keeps net host 1472 _ _ w.conn h))
        λ messaged h'. Ensures-after Whole (or_throw captured) _ λ screenshot.
          Ensures-bind (Keeps net host 1472) Whole _ _
            (send_udp_data-Keeps net host 1472 1 (image_to_bytes net screen (some screenshot))
              messaged h')
            (λ conn h''. Ensures-done Whole {a = record w { conn = conn }} h'')

  step-Whole :
      IsAsio net
      → (event : Event net screen) (w : MainClient net) → Whole w
      → Ensures Whole (step net screen host event w)
  unfolding step on_datagram Udp.receive_failed Udp.on_sent slot_connect do_connect slot_disconnect
      on_timer start_timer
  step-Whole assumed (connect_clicked host_text) w h = Ensures-done Whole h
  step-Whole assumed disconnect_clicked w h =
      Ensures-done Whole (do_disconnect-Keeps net host 1472 w.conn h)
  step-Whole assumed (send_clicked captured) w h = slot_send-Whole captured w h
  step-Whole assumed (resolved ec) w h =
      Ensures-done Whole (on_resolved-Keeps net host 1472 ec w.conn h)
  step-Whole assumed (connected ec socket) w h =
      Ensures-done Whole (on_connected-Keeps net host 1472 ec socket w.conn h)
  step-Whole assumed (size_read c) w h = Ensures-done Whole (on_size-Keeps net host 1472 c w.conn h)
  step-Whole assumed (body_read c) w h =
      Ensures-bind (Keeps net host 1472) Whole (on_body net host c w.conn) _
        (on_body-Keeps net host 1472 c w.conn h)
        (λ conn h'. Ensures-done Whole {a = record w { conn = conn }} h')
  step-Whole assumed (frame_written ec n) w h =
      Ensures-done Whole (on_written-Keeps net host 1472 ec n w.conn h)
  step-Whole assumed (datagram bytes captured) w h =
      Ensures-bind (Holds net host 1472) Whole (Udp.receive_datagram net host bytes w.conn.udp) _
        (receive_datagram-Holds net host 1472 bytes w.conn.udp assumed h)
        (λ udp h'. show_images-Whole captured _ _ h')
  step-Whole assumed (datagram_failed ec) w h = Ensures-done Whole h
  step-Whole assumed (datagram_sent none) w h = Ensures-done Whole h
  step-Whole assumed (datagram_sent (some ec)) w h = Ensures-done Whole h
  step-Whole assumed (timer none) w h = Ensures-done Whole h
  step-Whole assumed (timer (some ec)) w h = Ensures-done Whole h

  pub run-Whole :
      IsAsio net
      → (events : List (Event net screen)) (w : MainClient net) → Whole w
      → Ensures Whole (run net screen host events w)
  unfolding run
  run-Whole assumed [] w h = Ensures-done Whole h
  run-Whole assumed (event ∷ events) w h =
      Ensures-bind Whole Whole (step net screen host event w) (run net screen host events)
        (step-Whole assumed event w h) (run-Whole assumed events)

  pub new_client-Whole : Whole (new_client net)
  unfolding new_client new_tcp new_udp
  new_client-Whole = length-replicate {A = ℕ} 1472 0

  -- From its start on, whatever is clicked and whatever completes, in whatever order, as long as
  -- nothing throws or meets undefined behaviour, the client decodes whatever datagram arrives next
  -- without a read outside its receive buffer: the packet is the one that the buffer's first 17
  -- bytes describe, with the 1455 bytes behind them as its payload.
  pub run-parses :
      IsAsio net
      → (events : List (Event net screen)) (w : MainClient net) (arrived : List ℕ)
      → run net screen host events (new_client net) ≡ done w
      → let buffer : List ℕ = net.receive arrived w.conn.udp.buffer in
        (parse host buffer ≡ done (packet_in host buffer))
        × (length ((packet_in host buffer).buffer) ≡ 1455)
  run-parses assumed events w arrived e =
      let size : length (net.receive arrived w.conn.udp.buffer) ≡ 1472 =
        length-receive net assumed arrived w.conn.udp.buffer
        ∙ (run-Whole assumed events (new_client net) new_client-Whole).result w e in
      (
        parse-long host (net.receive arrived w.conn.udp.buffer) (omega (arith, size)),
        omega (arith, size, length-drop 17 (net.receive arrived w.conn.udp.buffer)),
      )
