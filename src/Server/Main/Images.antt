-- ===== src/Server/Main/Images.antt =====
-- What the started server does with an image whose datagrams arrive, after whatever came before.
use p2p_watcher.Base.{
  ℕ, ◌*◌, ◌-◌, ◌%◌, ◌<◌, ◌≤◌, ◌≡◌, refl, ap, sym, ◌∙◌, true, List, [], ◌∷◌, ◌++◌, length, map, done,
  fault, ◌>>=◌, bind_assoc, fun_ext, Ensures, Ensures-bind, Ensures-after, Ensures-if, Ensures-done,
  Ensures-both, or_throw, arith,
}
use p2p_watcher.Network.{Asio, IsAsio}
use p2p_watcher.Protocol.Wire.{Endian}
use p2p_watcher.Protocol.Packet.{Packet, serialize, server_port}
use p2p_watcher.Protocol.Sender.{packets_of}
use p2p_watcher.Protocol.Assembly.Cutting.{cut_from, length-cut_from}
use p2p_watcher.Server.Udp.{UdpManager, say, open_udp, listen_udp, receive_datagram}
use p2p_watcher.Server.Udp.Images.{receive_all, image_relayed}
use p2p_watcher.Server.Udp.Relay.{Addressed, all_datagrams}
use p2p_watcher.Protocol.Sender.Chunks.{packets_of-Carries}
use p2p_watcher.Protocol.Assembly.{idle}
use p2p_watcher.Console.{with_number}
use p2p_watcher.Server.Udp.Overruns.{receive_all-short_end}
use p2p_watcher.Server.Tcp.{TcpManager, open_tcp, listen_tcp, start_test}
use p2p_watcher.Server.Tcp.Buffer.{Holds, run-Holds}
use p2p_watcher.Server.Tcp.Events.{Event, datagram, step, run}
use p2p_watcher.Server.Main.{new_tcp, new_udp, execute, serve_forever, server_addr, asio}
use p2p_watcher.Server.Main.Startup.{Deserted, open_tcp-Deserted, serve_forever-from}

module _ (net : Asio) (host : Endian) where
  -- The datagrams of these packets, each received in its turn.
  abbrev pub arrivals : List Packet → List (Event net)
  arrivals ps = map (λ p. datagram (serialize host p)) ps

module _ (net : Asio) (assumed : IsAsio net) (host : Endian) where
  abbrev IsUp : TcpManager net → Type 0
  IsUp m = net.is_open m.udp.socket ≡ true

  open_udp-opens :
      (addr : List ℕ) (port : ℕ)
      → Ensures (λ u. net.is_open u.socket ≡ true) (open_udp net addr port (new_tcp net).udp)
  unfolding open_udp new_tcp new_udp
  open_udp-opens addr port = rw assumed.new_closed (
      Ensures-after _ (or_throw (net.make_address addr)) _ λ address.
        Ensures-bind (λ s. net.is_open s ≡ true) _ (net.open_socket net.new_socket) _
          (record { result = λ s e. assumed.open_opens e })
          λ opened h.
            Ensures-bind (λ s. net.is_open s ≡ true) _ (net.set_reuse opened) _
              (record { result = λ s e. assumed.reuse_keeps e ∙ h })
              λ reusing h'.
                Ensures-bind (λ s. net.is_open s ≡ true) _ (net.bind address port reusing) _
                  (record { result = λ s e. assumed.bind_keeps address port e ∙ h' })
                  (λ bound h''. Ensures-done _ h''))

  listening_up :
      (u : UdpManager net)
      → net.is_open u.socket ≡ true
      → net.is_open (listen_udp net u).socket ≡ true
  unfolding listen_udp
  listening_up u h = rw h h

  open_tcp-IsUp : (addr : List ℕ) (port : ℕ) → Ensures IsUp (open_tcp net addr port (new_tcp net))
  unfolding open_tcp new_tcp
  open_tcp-IsUp addr port =
      Ensures-bind (λ u. net.is_open u.socket ≡ true) IsUp
        (open_udp net addr port (new_tcp net).udp) _ (open_udp-opens addr port)
        λ u h.
          Ensures-if IsUp (net.is_open net.new_socket) _ _ (Ensures-done IsUp (listening_up u h)) (
            Ensures-after IsUp (or_throw (net.make_address addr)) _ λ address.
              Ensures-after IsUp (net.open_socket net.new_socket) _ λ opened.
                Ensures-after IsUp (net.set_reuse opened) _ λ reusing.
                  Ensures-after IsUp (net.bind address port reusing) _ λ bound.
                    Ensures-after IsUp (net.start_listening bound) _
                      λ listening. Ensures-done IsUp (listening_up u h))

  starts-Holds :
      (m : TcpManager net)
      → Deserted net host m × IsUp m
      → Holds net host 1472 (start_test net host (listen_tcp net m))
  unfolding listen_tcp start_test
  starts-Holds m ((none_here, none_there, first, whole), up) = ground (arith, whole, up)

  -- From its start as the AsioCreator on, whatever completes and in whatever order, as long as
  -- nothing throws or meets undefined behaviour, the server's UDP socket is open, and its receive
  -- buffer has its 1472 bytes.
  pub serve_forever-Holds :
      (events : List (Event net)) (m : TcpManager net)
      → serve_forever net host true events ≡ done m
      → (length m.udp.buffer ≡ 1472) × (net.is_open m.udp.socket ≡ true)
  serve_forever-Holds events m e =
      (serve_forever-from net host (λ m. Deserted net host m × IsUp m) (Holds net host 1472)
          (Holds net host 1472) events
          (Ensures-both (open_tcp-Deserted net host server_addr server_port)
            (open_tcp-IsUp server_addr server_port))
          starts-Holds (run-Holds net host 1472 assumed events)).result
        m e

  run-append :
      (xs ys : List (Event net)) (m : TcpManager net)
      → run net host (xs ++ ys) m ≡ (run net host xs m >>= run net host ys)
  unfolding run
  run-append [] ys m = refl
  run-append (x ∷ xs) ys m =
      ap (λ f. step net host x m >>= f) (fun_ext (run-append xs ys))
      ∙ sym (bind_assoc (step net host x m) (run net host xs) (run net host ys))

  pub serve_forever-append :
      (xs ys : List (Event net))
      → serve_forever net host true (xs ++ ys)
        ≡ (serve_forever net host true xs >>= run net host ys)
  unfolding serve_forever
  serve_forever-append xs ys =
      ap (λ f. execute net host asio server_addr server_port >>= f) (fun_ext (run-append xs ys))
      ∙ sym (
          bind_assoc (execute net host asio server_addr server_port) (run net host xs)
            (run net host ys))

  run-arrivals :
      (ps : List Packet) (m : TcpManager net)
      → run net host (arrivals net host ps) m ≡ (
          receive_all net host (map (serialize host) ps) m.udp >>= λ udp.
          done (record m { udp = udp }))
  unfolding run step
  run-arrivals [] m = refl
  run-arrivals (p ∷ ps) m =
      let received = receive_datagram net host (serialize host p) m.udp in
      bind_assoc received (λ udp. done (record m { udp = udp }))
        (run net host (arrivals net host ps))
      ∙ (ap (λ f. received >>= f) (fun_ext (λ udp. run-arrivals ps (record m { udp = udp })))
          ∙ sym (bind_assoc received (receive_all net host (map (serialize host) ps)) _))

  -- The server that ran for these events, and what it does with datagrams then.
  module _ (events : List (Event net)) (m : TcpManager net)
      (ran : serve_forever net host true events ≡ done m) where
    pub then_arrive :
        (ps : List Packet)
        → serve_forever net host true (events ++ arrivals net host ps) ≡ (
            receive_all net host (map (serialize host) ps) m.udp >>= λ udp.
            done (record m { udp = udp }))
    then_arrive ps =
        serve_forever-append events (arrivals net host ps)
        ∙ (ap (λ x. x >>= run net host (arrivals net host ps)) ran ∙ run-arrivals ps m)

    -- From its start as the AsioCreator on, whatever completed before and in whatever order, as
    -- long as nothing threw or met undefined behaviour, the server cannot take an image whose last
    -- packet carries fewer than 1455 bytes: when the datagrams of such an image arrive, whole and
    -- in order, a handler writes outside the assembly buffer. The image has 1 to 65535 * 1472
    -- bytes, and the hosts have one byte order.
    pub serve_forever-short_end :
        (img : List ℕ)
        → 0 < length img
        → length img ≤ 65535 * 1472
        → (length img - 1) % 1472 < 1454
        → (ps : List Packet) × (packets_of 1 img ≡ done ps)
          × (serve_forever net host true (events ++ arrivals net host ps) ≡ fault)
    serve_forever-short_end img some_left small short =
        let (ps, sent, faults) =
          receive_all-short_end net assumed host img m.udp some_left small short
            (serve_forever-Holds events m ran).0 in
        (ps, sent, then_arrive ps ∙ ap (λ x. x >>= λ udp. done (record m { udp = udp })) faults)

    -- From its start as the AsioCreator on, whatever completed before and in whatever order, as
    -- long as nothing threw or met undefined behaviour, the server relays an image whose last
    -- packet carries 1455 bytes or more: when the datagrams of the image arrive, whole and in
    -- order, it sends the image, in which the last 17 of every 1472 bytes are zeros now, to each
    -- client that it knows in turn, and to nobody else; it keeps its clients, and waits for the
    -- next image. The image has at most 65535 * 1472 bytes, the hosts have one byte order, and an
    -- address can be read for every client.
    pub serve_forever-relays :
        (img addresses : List ℕ)
        → length img ≤ 65535 * 1472
        → 1454 ≤ (length img - 1) % 1472
        → Addressed net host m.udp.cl addresses
        → (ps rs : List Packet) × (m' : TcpManager net) × (packets_of 1 img ≡ done ps)
          × (packets_of 1 (cut_from 0 img) ≡ done rs)
          × (serve_forever net host true (events ++ arrivals net host ps) ≡ done m')
          × (m'.udp.sent ≡ m.udp.sent ++ all_datagrams net host rs m.udp.cl addresses)
          × (m'.cl ≡ m.cl)
          × (m'.udp.cl ≡ m.udp.cl)
          × (m'.udp.assembly ≡ idle)
          × (m'.udp.receiving ≡ true)
    serve_forever-relays img addresses small long known =
        let (whole, up) = serve_forever-Holds events m ran in
        let (rs, resent, _) =
          packets_of-Carries 1 (cut_from 0 img) (omega (arith, length-cut_from 0 img, small)) in
        let (ps, sent, b, relayed) =
          image_relayed net host assumed img small long rs addresses m.udp whole resent up known in
        (
          ps,
          rs,
          record m {
            udp = record (say net (with_number "size=" (length img)) m.udp) {
              receiving = net.is_open m.udp.socket;
              buffer = b;
              assembly = idle;
              sent = m.udp.sent ++ all_datagrams net host rs m.udp.cl addresses;
            };
          },
          sent,
          resent,
          then_arrive ps ∙ ap (λ x. x >>= λ udp. done (record m { udp = udp })) relayed,
          refl,
          refl,
          refl,
          refl,
          up,
        )
