-- ===== src/Server/Udp.antt =====
-- Server/source/AsioUdpServer.cpp: the server's UDP socket, the broadcast to the known clients
-- and the handling of a datagram.
pub mod Relay
pub mod Images
pub mod Messages
pub mod Faults
pub mod Overruns
pub mod Table
use p2p_watcher.Base.{
  ℕ, ◌+◌, ◌==◌, if◌then◌else◌, Bool, true, false, not, List, [], ◌∷◌, ◌++◌, length, min, Option,
  none, some, Outcome, done, fault, throws, ◌>>=◌, or_throw,
}
use p2p_watcher.Base.Maps.{find, assign, erase}
use p2p_watcher.Network.{Asio}
use p2p_watcher.Protocol.Wire.{Endian}
use p2p_watcher.Protocol.GroupData.{deserialize_message, udp_code, image}
use p2p_watcher.Protocol.Packet.{Packet, parse, server_hash_value}
use p2p_watcher.Protocol.Sender.{Datagram, datagrams, packets_of}
use p2p_watcher.Protocol.Assembly.{Assembly, assemble}
use p2p_watcher.Console.{Console, Text, literal, with_bytes, with_number, with_error}
use p2p_watcher.Server.Logger.{info, error, log}

pub record ClientInfo : Type 0 where
  pub addr : List ℕ
  pub port : ℕ

-- AsioUdpTypes and AsioUdpManager, the static variables of processPacket among them. `receiving`
-- says that an `async_receive_from` is pending; `sent` is what left through the socket.
pub record UdpManager (net : Asio) : Type 0 where
  pub socket : net.Socket
  pub receiving : Bool
  pub buffer : List ℕ
  pub cl : List (ℕ × ClientInfo)
  pub assembly : Assembly
  pub sent : List Datagram
  pub console : Console

module _ (net : Asio) where
  abbrev pub say : Text → UdpManager net → UdpManager net
  say text m = record m { console = log text info m.console }

  abbrev pub complain : Text → UdpManager net → UdpManager net
  complain text m = record m { console = log text error m.console }

  unfoldable pub open_udp : List ℕ → ℕ → UdpManager net → Outcome (UdpManager net)
  open_udp addr port m = if net.is_open m.socket then done m else do
    address ← or_throw (net.make_address addr)
    opened ← net.open_socket m.socket
    reusing ← net.set_reuse opened
    bound ← net.bind address port reusing
    done (record m { socket = bound })

  unfoldable pub listen_udp : UdpManager net → UdpManager net
  listen_udp m = if net.is_open m.socket then record m { receiving = true } else m

  unfoldable pub close_udp : UdpManager net → UdpManager net
  close_udp m = if net.is_open m.socket then record m { socket = net.close_socket m.socket } else m

  -- The body of the loop over the clients.
  unfoldable pub send_to :
      Endian → ℕ → List ℕ → ClientInfo → UdpManager net → Outcome (UdpManager net)
  send_to host data_type buf client m = do
    address ← or_throw (net.make_address client.addr)
    pkts ← packets_of data_type buf
    done (record m { sent = m.sent ++ datagrams host address client.port pkts })

  -- `for (const auto &client : cl_)`
  unfoldable pub send_all :
      Endian → ℕ → List ℕ → List (ℕ × ClientInfo) → UdpManager net → Outcome (UdpManager net)
  send_all host data_type buf [] m = done m
  send_all host data_type buf ((id, client) ∷ cl) m =
      send_to host data_type buf client m >>= send_all host data_type buf cl

  unfoldable pub broadcast_udp : Endian → ℕ → List ℕ → UdpManager net → Outcome (UdpManager net)
  broadcast_udp host data_type buf m =
      if net.is_open m.socket then send_all host data_type buf m.cl m else done m

  -- A whole image is logged and sent to every client.
  unfoldable pub relay_image : Endian → Option (List ℕ) → UdpManager net → Outcome (UdpManager net)
  relay_image host none m = done m
  relay_image host (some img) m =
      broadcast_udp host (udp_code image) img (say (with_number "size=" (length img)) m)

  -- The case `Image`.
  unfoldable pub image_packet : Endian → Packet → UdpManager net → Outcome (UdpManager net)
  unfolding relay_image
  image_packet host pkt m = do
    (s, whole) ← assemble pkt m.assembly
    relay_image host whole (record m { assembly = s })

  unfoldable pub message_packet : Endian → Packet → UdpManager net → Outcome (UdpManager net)
  message_packet host pkt m = do
    s ← deserialize_message host pkt.buffer
    done (say (with_bytes "message=" s.message) m)

  -- What follows the decoding in `processPacket`.
  unfoldable pub handle_packet : Endian → Packet → UdpManager net → Outcome (UdpManager net)
  handle_packet host pkt m =
      if not (pkt.header.server_hash == server_hash_value)
      then done (complain (literal "!=SERVER_HASH") m)
      else if pkt.d_type == 0
      then message_packet host pkt m
      else if pkt.d_type == 1
      then image_packet host pkt m
      else done m

  unfoldable pub process_packet : Endian → List ℕ → UdpManager net → Outcome (UdpManager net)
  process_packet host buf m = do pkt ← parse host buf; handle_packet host pkt m

  -- The handler of `async_receive_from`, at an error code or at a datagram that came in. It is
  -- the whole buffer that is processed, not the bytes transferred.
  unfoldable pub receive_failed : ℕ → UdpManager net → UdpManager net
  receive_failed ec m = complain (with_error "Receive error:" ec) (record m { receiving = false })

  unfoldable pub receive_datagram : Endian → List ℕ → UdpManager net → Outcome (UdpManager net)
  unfolding listen_udp
  receive_datagram host datagram m =
      let m' : UdpManager net = record m {
        receiving = false;
        buffer = net.receive datagram m.buffer;
      } in
      let bytes_transferred = min (length datagram) (length m.buffer) in
      do
        m'' ← if bytes_transferred == 0 then done m' else process_packet host m'.buffer m'
        done (if net.is_open m''.socket then listen_udp m'' else m'')

  -- The handler of `async_send_to`, at an error code or not.
  unfoldable pub on_sent : Option ℕ → UdpManager net → UdpManager net
  on_sent (some ec) m = complain (with_error "Send error:" ec) m
  on_sent none m = m

  unfoldable pub create_client_udp : ℕ → ClientInfo → UdpManager net → UdpManager net
  create_client_udp client_id i m =
      say (with_number "AsioUdpManager->createClient, id:" client_id)
        (record m { cl = assign client_id i m.cl })

  unfoldable pub remove_client_udp : ℕ → UdpManager net → UdpManager net
  remove_client_udp client_id m = elim (find client_id m.cl) [
    | none ↦ m
    | some i ↦
        say (with_number "AsioUdpManager->removeClient, id:" client_id)
          (record m { cl = erase client_id m.cl })
  ]
