-- ===== src/Client/Main/Images.antt =====
-- What the client does with an image whose datagrams arrive, from its socket to its window.
use native.Mathlib.Decide.{dec_lt}
use p2p_watcher.Base.{
  ℕ, ◌*◌, ◌-◌, ◌%◌, ◌<◌, ◌≤◌, ◌≡◌, refl, ◌∙◌, List, [], ◌∷◌, ◌++◌, length, map, take, drop_all,
  drop-length-append, Option, some, done, fault, bind-done, lt→ltb, le→ltb, arith,
}
use p2p_watcher.Console.{with_number}
use p2p_watcher.Network.{Asio, IsAsio}
use p2p_watcher.Protocol.Wire.{Endian}
use p2p_watcher.Protocol.Packet.{Packet, serialize}
use p2p_watcher.Protocol.Sender.{packets_of}
use p2p_watcher.Protocol.Assembly.{idle}
use p2p_watcher.Protocol.Assembly.Cutting.{cut_from, length-cut_from}
use p2p_watcher.Protocol.Receiving.{Brings, Breaks}
use p2p_watcher.Protocol.Receiving.Whole.{Brings-packets_of}
use p2p_watcher.Protocol.Receiving.Overruns.{Breaks-packets_of}
use p2p_watcher.Client.Screen.{Screen}
use p2p_watcher.Client.Udp
use p2p_watcher.Client.Udp.{UdpConnection, receive_datagram}
use p2p_watcher.Client.Udp.Receiving.{receiver, after, finish-some}
use p2p_watcher.Client.Tcp.{print}
use p2p_watcher.Client.Main.{MainClient, new_client, show_image}
use p2p_watcher.Client.Main.Events.{Event, datagram, with_udp, show_images, on_datagram, step, run}
use p2p_watcher.Client.Main.Buffer.{run-Whole, new_client-Whole}

module _ (net : Asio) (screen : Screen) (host : Endian) where
  -- The datagrams of these packets, each received in its turn; `captured` is what the screen gives
  -- where an image is complete.
  abbrev pub arrivals : Option screen.Image → List Packet → List (Event net screen)
  arrivals captured ps = map (λ p. datagram (serialize host p) captured) ps

module _ (net : Asio) (assumed : IsAsio net) (screen : Screen) (host : Endian) where
  module _ (captured : Option screen.Image) where
    on_datagram-part :
        (bytes : List ℕ) (w : MainClient net) (b : List ℕ) (s : _)
        → receive_datagram net host bytes w.conn.udp ≡ done (after net host b s w.conn.udp)
        → on_datagram net screen host bytes captured w
          ≡ done (with_udp net screen host w (after net host b s w.conn.udp))
    unfolding on_datagram show_images
    on_datagram-part bytes w b s e =
        rw (e, drop_all (length w.conn.udp.images) w.conn.udp.images (omega arith)) refl

    run-Breaks :
        (ps : List Packet) (w : MainClient net)
        → Breaks net host (receiver net host assumed) ps w.conn.udp
        → run net screen host (arrivals net screen host captured ps) w ≡ fault
    unfolding run step on_datagram
    run-Breaks [] w h = absurd h
    run-Breaks (p ∷ []) w e = rw e refl
    run-Breaks (p ∷ q ∷ ps) w (b, s, e, later) =
        rw (on_datagram-part (serialize host p) w b s e)
          (run-Breaks (q ∷ ps) (with_udp net screen host w (after net host b s w.conn.udp)) later)

    -- The connection once `image` is in.
    abbrev brought : List ℕ → List ℕ → UdpConnection net → UdpConnection net
    brought image b u = record (Udp.print net (with_number "size=" (length image)) u) {
      receiving = net.is_open u.socket;
      buffer = b;
      assembly = idle;
      images = u.images ++ image ∷ [];
    }

    on_datagram-last :
        (bytes : List ℕ) (w : MainClient net) (image b : List ℕ)
        → receive_datagram net host bytes w.conn.udp ≡ done (brought image b w.conn.udp)
        → on_datagram net screen host bytes captured w
          ≡ show_image net screen captured image
              (with_udp net screen host w (brought image b w.conn.udp))
    unfolding on_datagram show_images
    on_datagram-last bytes w image b e =
        rw (e, drop-length-append w.conn.udp.images (image ∷ []))
          (bind-done (
            show_image net screen captured image
              (with_udp net screen host w (brought image b w.conn.udp))))

    -- The image is shown in the window as it is when the last datagram comes in.
    run-Brings :
        (image : List ℕ) (ps : List Packet) (w : MainClient net)
        → Brings net host (receiver net host assumed) image ps w.conn.udp
        → (b : List ℕ) × (run net screen host (arrivals net screen host captured ps) w
            ≡ show_image net screen captured image
                (with_udp net screen host w (brought image b w.conn.udp)))
    unfolding run step
    run-Brings image [] w h = absurd h
    run-Brings image (p ∷ []) w (b, size, e) = (
      b,
      bind-done (on_datagram net screen host (serialize host p) captured w)
          ∙ on_datagram-last (serialize host p) w image b
              (e ∙ finish-some net host image b idle w.conn.udp),
    )
    run-Brings image (p ∷ q ∷ ps) w (b, s, e, later) =
        let (b', ran) =
          run-Brings image (q ∷ ps) (with_udp net screen host w (after net host b s w.conn.udp))
            later in
        (b', rw (on_datagram-part (serialize host p) w b s e) ran)

  module _ (screenshot : screen.Image) where
    show_image-short :
        (image : List ℕ) (w : MainClient net)
        → length image < 2880 * 1800 * 4
        → show_image net screen (some screenshot) image w ≡ fault
    unfolding show_image
    show_image-short image w short = rw (lt→ltb _ _ short) refl

    show_image-shown :
        (image pixmap : List ℕ) (w : MainClient net)
        → 2880 * 1800 * 4 ≤ length image
        → screen.from_image (take (2880 * 1800 * 4) image) ≡ some pixmap
        → (w' : MainClient net) × (show_image net screen (some screenshot) image w ≡ done w')
          × (w'.pixmaps ≡ w.pixmaps ++ screen.scaled pixmap ∷ [])
    unfolding show_image
    show_image-shown image pixmap w long made = (
      record w {
        conn = print net (with_number "image=" (length image)) w.conn;
        pixmaps = w.pixmaps ++ screen.scaled pixmap ∷ [];
      },
      rw (le→ltb _ _ long, made) refl,
      refl,
    )

    module _ (events : List (Event net screen)) (w : MainClient net) (img : List ℕ)
        (ran : run net screen host events (new_client net) ≡ done w) where
      whole : length w.conn.udp.buffer ≡ 1472
      whole =
          (run-Whole net screen host assumed events (new_client net)
              (new_client-Whole net screen host)).result
            w ran

      -- From its start on, whatever was clicked and whatever completed, as long as nothing threw or
      -- met undefined behaviour, the client cannot show an image of 1 to 2880 * 1800 * 4 bytes: when
      -- its datagrams arrive, whole and in order, and the screen can be captured, the handler of one
      -- of them writes outside the assembly buffer, or the image is read beyond its end. The hosts
      -- have one byte order.
      pub run-image_faults :
          0 < length img
          → length img ≤ 2880 * 1800 * 4
          → (ps : List Packet) × (packets_of 1 img ≡ done ps)
            × (run net screen host (arrivals net screen host (some screenshot) ps) w ≡ fault)
      run-image_faults some_left small = elim (dec_lt ((length img - 1) % 1472) 1454) [
        | yes short ↦
            let (ps, sent, breaks) =
              Breaks-packets_of net assumed host (receiver net host assumed) img w.conn.udp
                some_left (omega arith) short whole in
            (ps, sent, run-Breaks (some screenshot) ps w breaks)
        | no long ↦
            let (ps, sent, brings) =
              Brings-packets_of net assumed host (receiver net host assumed) img w.conn.udp
                (omega arith) (omega arith) whole in
            let (b, shows) = run-Brings (some screenshot) (cut_from 0 img) ps w brings in
            (
              ps,
              sent,
              shows ∙ show_image-short (cut_from 0 img) _ (omega (arith, length-cut_from 0 img)),
            )
      ]

      -- From its start on, whatever was clicked and whatever completed, as long as nothing threw or
      -- met undefined behaviour, the client shows an image of at least 2880 * 1800 * 4 bytes whose
      -- last packet carries 1455 bytes or more: when its datagrams arrive, whole and in order, and
      -- the screen can be captured, the pixmap of the image's first 2880 * 1800 * 4 bytes, with
      -- zeros as the last 17 of every 1472, is scaled and put on the label, once. The image has at
      -- most 65535 * 1472 bytes, there is such a pixmap, and the hosts have one byte order.
      pub run-image_shown :
          (pixmap : List ℕ)
          → 2880 * 1800 * 4 ≤ length img
          → length img ≤ 65535 * 1472
          → 1454 ≤ (length img - 1) % 1472
          → screen.from_image (take (2880 * 1800 * 4) (cut_from 0 img)) ≡ some pixmap
          → (ps : List Packet) × (w' : MainClient net) × (packets_of 1 img ≡ done ps)
            × (run net screen host (arrivals net screen host (some screenshot) ps) w ≡ done w')
            × (w'.pixmaps ≡ w.pixmaps ++ screen.scaled pixmap ∷ [])
      run-image_shown pixmap large small long made =
          let (ps, sent, brings) =
            Brings-packets_of net assumed host (receiver net host assumed) img w.conn.udp small long
              whole in
          let (b, shows) = run-Brings (some screenshot) (cut_from 0 img) ps w brings in
          let (w', shown, pixmaps) =
            show_image-shown (cut_from 0 img) pixmap
              (with_udp net screen host w (brought (some screenshot) (cut_from 0 img) b w.conn.udp))
              (omega (arith, length-cut_from 0 img)) made in
          (ps, w', sent, shows ∙ shown, pixmaps)
