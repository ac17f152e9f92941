-- ===== src/Server/Main.antt =====
-- The server's constructors, the Creators of Server/include/Server.h, and Server/source/main.cpp.
pub mod Startup
pub mod Images
use p2p_watcher.Base.{
  ℕ, ltb, if◌then◌else◌, Bool, true, false, List, [], ◌∷◌, replicate, codes, Option, none, some,
  Outcome, done, fault, throws, ◌>>=◌,
}
use p2p_watcher.Console.{Console, literal}
use p2p_watcher.Network.{Asio}
use p2p_watcher.Protocol.Wire.{Endian}
use p2p_watcher.Protocol.Packet.{server_port, buffer_size}
use p2p_watcher.Protocol.Assembly.{idle}
use p2p_watcher.Server.Logger.{info, log}
use p2p_watcher.Server.Udp.{UdpManager}
use p2p_watcher.Server.Tcp.{TcpManager, open_tcp, listen_tcp, start_test}
use p2p_watcher.Server.Tcp.Events.{Event, run}

-- `Constants::SERVER_ADDR`
abbrev pub server_addr : List ℕ
server_addr = codes "127.0.0.1"

-- AsioCreator and UnixCreator.
pub data Creator : Type 0 where
  asio unix : Creator

module _ (net : Asio) where
  unfoldable pub new_udp : UdpManager net
  new_udp = record {
    socket = net.new_socket;
    receiving = false;
    buffer = replicate buffer_size 0;
    cl = [];
    assembly = idle;
    sent = [];
    console = log (literal "initialization AsioUdpManager...") info (record { out = []; err = [] });
  }

  -- The UDP manager is made before the text of this constructor is logged.
  unfoldable pub new_tcp : TcpManager net
  unfolding new_udp
  new_tcp = record {
    acceptor = net.new_socket;
    accepting = false;
    udp = record new_udp {
      console = log (literal "initialization AsioTcpManager...") info new_udp.console;
    };
    cl = [];
    next_id = 0;
    timer = false;
  }

  -- The factory of the UnixCreator returns a null pointer.
  unfoldable pub factory_method : Creator → Option (TcpManager net)
  factory_method asio = some new_tcp
  factory_method unix = none

  unfoldable pub execute : Endian → Creator → List ℕ → ℕ → Outcome (TcpManager net)
  execute host creator addr port = elim (factory_method creator) [
    | none ↦ fault
    | some ptr ↦
        open_tcp net addr port ptr >>= λ opened. done (start_test net host (listen_tcp net opened))
  ]

  -- The body of the `try` in `main`: `io_context.run()` handles what completes. The server is
  -- bound to the loopback address and its port.
  unfoldable pub serve_forever : Endian → Bool → List (Event net) → Outcome (TcpManager net)
  serve_forever host use_boost_asio events =
      if use_boost_asio
      then execute host asio server_addr server_port >>= run net host events
      else execute host unix server_addr server_port

  -- The exit code, of `main` with `argc` arguments the first of which is a null pointer or not.
  -- Every exception ends in the `catch`, which prints it.
  unfoldable pub main : Endian → ℕ → Bool → List (Event net) → Outcome ℕ
  main host argc has_argv0 events =
      if ltb argc 2 then done 1 else elim (serve_forever host has_argv0 events) [
        | done m ↦ done 0
        | throws ↦ done 0
        | fault ↦ fault
      ]
