-- ===== src/Server/Tcp.antt =====
-- Server/source/AsioTcpServer.cpp: the acceptor, the table of the TCP clients, and what connects it
-- to the sessions and to the UDP manager.
pub mod Same
pub mod Clients
pub mod Events
pub mod Room
pub mod Inside
pub mod Entering
pub mod Refinement
pub mod Visit
pub mod Remaining
pub mod Buffer
use p2p_watcher.Base.{
  ℕ, ◌+◌, ◌==◌, codes, if◌then◌else◌, Bool, true, false, not, ◌||◌, List, [], ◌∷◌, ◌++◌, Option,
  none, some, Outcome, done, fault, throws, ◌>>=◌, or_throw,
}
use p2p_watcher.Base.Maps.{find, assign, erase}
use p2p_watcher.Console.{Console, Text, literal, with_bytes, with_number, with_error, numbers}
use p2p_watcher.Network.{Asio}
use p2p_watcher.Protocol.Wire.{Endian, u32}
use p2p_watcher.Protocol.GroupData.{
  TestStruct, first_data, test_message, udp_code, serialize_first, serialize_message,
  deserialize_struct,
}
use p2p_watcher.Protocol.Packet.{Packet, parse, server_hash_value}
use p2p_watcher.Server.Logger.{LoggerMode, info, error, log}
use p2p_watcher.Server.Session.{
  Session, Signal, deleting, process, says, Completion, new_session, start_session, on_size,
  on_body, do_send, on_written,
}
use p2p_watcher.Server.Udp.{
  ClientInfo, UdpManager, open_udp, listen_udp, close_udp, broadcast_udp, create_client_udp,
  remove_client_udp,
}

-- AsioTcpTypes and AsioTcpManager. `accepting` and `timer` say that an `async_accept` and an
-- `async_wait` are pending; `next_id` is the static variable `id` of `listen`. The log is one for
-- the program and stands in `udp`.
pub record TcpManager (net : Asio) : Type 0 where
  pub acceptor : net.Socket
  pub accepting : Bool
  pub udp : UdpManager net
  pub cl : List (ℕ × Session net)
  pub next_id : ℕ
  pub timer : Bool

module _ (net : Asio) where
  abbrev pub console_of : TcpManager net → Console
  console_of m = m.udp.console

  abbrev pub with_console : TcpManager net → Console → TcpManager net
  with_console m c = record m { udp = record m.udp { console = c } }

  abbrev pub writes : LoggerMode → Text → TcpManager net → TcpManager net
  writes mode text m = with_console m (log text mode m.udp.console)

  -- `std::cout << text`
  abbrev pub print : Text → TcpManager net → TcpManager net
  print text m = writes info text m

  abbrev open_acceptor : List ℕ → ℕ → TcpManager net → Outcome (TcpManager net)
  open_acceptor addr port m = do
    address ← or_throw (net.make_address addr)
    opened ← net.open_socket m.acceptor
    reusing ← net.set_reuse opened
    bound ← net.bind address port reusing
    acceptor ← net.start_listening bound
    done (record m { acceptor = acceptor })

  unfoldable pub open_tcp : List ℕ → ℕ → TcpManager net → Outcome (TcpManager net)
  open_tcp addr port m = open_udp net addr port m.udp >>= λ udp.
      let m' : TcpManager net = record m { udp = listen_udp net udp } in
      if net.is_open m.acceptor then done m' else open_acceptor addr port m'

  unfoldable pub close_tcp : TcpManager net → TcpManager net
  close_tcp m = record m {
    acceptor = if net.is_open m.acceptor then net.close_socket m.acceptor else m.acceptor;
    udp = close_udp net m.udp;
  }

  -- The destructor.
  unfoldable pub destroy_tcp : TcpManager net → TcpManager net
  unfolding close_tcp
  destroy_tcp m = close_tcp m

  unfoldable pub listen_tcp : TcpManager net → TcpManager net
  listen_tcp m =
      if net.is_open m.acceptor
      then record (writes info (literal "listen!") m) { accepting = true }
      else m

  unfoldable pub remove_client : ℕ → TcpManager net → TcpManager net
  remove_client client_id m = elim (find client_id m.cl) [
    | none ↦ m
    | some s ↦
        writes info (with_number "AsioTcpManager->removeClient, id:" client_id)
          (record m { cl = erase client_id m.cl })
  ]

  -- AsioTcpManager::broadCast has no body.
  unfoldable pub broadcast_tcp : ℕ → List ℕ → TcpManager net → TcpManager net
  broadcast_tcp data_type buf m = m

  module _ (host : Endian) where
    -- The case `TestStruct`: what the loop prints is one text here.
    unfoldable pub print_struct : List ℕ → TcpManager net → Outcome (TcpManager net)
    print_struct buf m =
        let m' = print (literal "---TestStruct---") m in
        do
          a ← deserialize_struct host buf
          done (
              print (numbers a.d) (
                print (with_number "" a.c)
                  (print (with_number "" a.b) (print (with_bytes "" a.a) m'))))

    unfoldable pub handle_tcp : Packet → TcpManager net → Outcome (TcpManager net)
    handle_tcp pkt m =
        if not (pkt.header.server_hash == server_hash_value)
        then done (writes error (literal "!=SERVER_HASH") m)
        else if not (pkt.header.is_first == 1) || not (pkt.header.is_last == 1)
        then done (writes error (literal "!flags") m)
        else if pkt.d_type == 0
        then print_struct pkt.buffer m
        else done m

    unfoldable pub process_tcp : List ℕ → TcpManager net → Outcome (TcpManager net)
    process_tcp buf m = do pkt ← parse host buf; handle_tcp pkt m

    -- What `createClient` connects a session's signals to: `signal_deleting` to the two
    -- `removeClient`s, in this order, and `signal_process_packet` to `processPacket`.
    unfoldable pub on_signal : Signal → TcpManager net → Outcome (TcpManager net)
    on_signal (deleting client_id) m =
        done (remove_client client_id (record m { udp = remove_client_udp net client_id m.udp }))
    on_signal (process buf) m = process_tcp buf m
    on_signal (says mode text) m = done (writes mode text m)

    unfoldable pub on_signals : List Signal → TcpManager net → Outcome (TcpManager net)
    on_signals [] m = done m
    on_signals (signal ∷ signals) m = on_signal signal m >>= on_signals signals

    -- A session runs a handler: its new state is stored, and its signals are followed.
    unfoldable pub run_session :
        ℕ → (Session net → Session net × List Signal) → TcpManager net → Outcome (TcpManager net)
    run_session client_id handler m = elim (find client_id m.cl) [
      | none ↦ fault
      | some s ↦
          let (s', signals) = handler s in
          on_signals signals (record m { cl = assign client_id s' m.cl })
    ]

    -- A client that is not in the table is a null pointer.
    unfoldable pub create_client : ℕ → ClientInfo → TcpManager net → Outcome (TcpManager net)
    create_client client_id i m = do
      greeted ←
          run_session client_id
            (do_send net host first_data
              (serialize_first host (record { client_addr = i.addr; client_port = i.port })))
            m
      started ← run_session client_id (λ s. (start_session net s, [])) greeted
      done (writes info (with_number "AsioTcpManager->createClient, id:" client_id) started)

    -- The handler of `async_accept`. There is no client where `ec` is set, and none where the
    -- remote endpoint cannot be read.
    unfoldable pub on_accept :
        Option (net.Socket × Option ClientInfo) → TcpManager net → Outcome (TcpManager net)
    on_accept none m = done (listen_tcp (record m { accepting = false }))
    on_accept (some (socket, none)) m = done (listen_tcp (record m { accepting = false }))
    on_accept (some (socket, some i)) m =
        let id = m.next_id in
        let (s, signals) = new_session net socket id in
        do
          logged ← on_signals signals (record m { accepting = false })
          let known : TcpManager net = record logged {
            cl = assign id s logged.cl;
            udp = create_client_udp net id i logged.udp;
          }
          created ← create_client id i known
          done (listen_tcp (record created { next_id = u32 (id + 1) }))

    -- The handlers of a session's reads, in the program that the session runs in.
    unfoldable pub on_size_read : ℕ → Completion → TcpManager net → Outcome (TcpManager net)
    on_size_read client_id c m = run_session client_id (on_size net host c) m

    unfoldable pub on_body_read : ℕ → Completion → TcpManager net → Outcome (TcpManager net)
    on_body_read client_id c m = run_session client_id (on_body net host c) m

    -- The handler of a session's `async_write`.
    unfoldable pub on_frame_written : Option ℕ → ℕ → TcpManager net → Outcome (TcpManager net)
    on_frame_written ec n m = on_signals (on_written net host ec n) m

    unfoldable pub start_test : TcpManager net → TcpManager net
    start_test m = record m { timer = true }

    -- The handler of the timer, at an error code or at the time that `std::time` gives, in digits.
    unfoldable pub on_timer_error : ℕ → TcpManager net → TcpManager net
    on_timer_error ec m = writes error (with_error "timer err:" ec) (record m { timer = false })

    unfoldable pub on_timer : List ℕ → TcpManager net → Outcome (TcpManager net)
    on_timer time m = do
      udp ←
          broadcast_udp net host (udp_code test_message)
            (serialize_message host
              (record { message = codes "Hello from Boost.Asio! Timestamp: " ++ time }))
            m.udp
      done (start_test (record m { timer = false; udp = udp }))
