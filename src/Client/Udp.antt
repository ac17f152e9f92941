-- ===== src/Client/Udp.antt =====
-- BoostUdpConnection of Client/source/connection.cpp: the client's UDP socket.
pub mod Buffer
pub mod Receiving
use p2p_watcher.Base.{
  ℕ, ◌==◌, if◌then◌else◌, Bool, true, false, not, List, [], ◌∷◌, ◌++◌, length, min, Option, none,
  some, Outcome, done, fault, throws, ◌>>=◌, or_throw,
}
use p2p_watcher.Network.{Asio}
use p2p_watcher.Console.{Console, Text, literal, with_bytes, with_number, with_error}
use p2p_watcher.Protocol.Wire.{Endian}
use p2p_watcher.Protocol.Packet.{Packet, parse}
use p2p_watcher.Protocol.Sender.{Datagram, datagrams, packets_of}
use p2p_watcher.Protocol.Assembly.{Assembly, assemble}
use p2p_watcher.Client.Headers.{server_hash_value, server_port, deserialize_message}

-- UdpVar and BoostUdpConnection, the static variables of prcsPacket among them. `images` is what
-- `signal_update_image_` was called with.
pub record UdpConnection (net : Asio) : Type 0 where
  pub socket : net.Socket
  pub receiving : Bool
  pub buffer : List ℕ
  pub assembly : Assembly
  pub images : List (List ℕ)
  pub sent : List Datagram
  pub console : Console

module _ (net : Asio) where
  abbrev pub print : Text → UdpConnection net → UdpConnection net
  print text u = record u {
    console = record { out = u.console.out ++ text ∷ []; err = u.console.err };
  }

  abbrev pub complain : Text → UdpConnection net → UdpConnection net
  complain text u = record u {
    console = record { out = u.console.out; err = u.console.err ++ text ∷ [] };
  }

  -- There is no test of `is_open` here.
  unfoldable pub open_udp : List ℕ → ℕ → UdpConnection net → Outcome (UdpConnection net)
  open_udp addr port u = do
    address ← or_throw (net.make_address addr)
    opened ← net.open_socket u.socket
    reusing ← net.set_reuse opened
    bound ← net.bind address port reusing
    done (record u { socket = bound })

  unfoldable pub listen_udp : UdpConnection net → UdpConnection net
  listen_udp u = if net.is_open u.socket then record u { receiving = true } else u

  unfoldable pub close_udp : UdpConnection net → UdpConnection net
  close_udp u = if net.is_open u.socket then record u { socket = net.close_socket u.socket } else u

  unfoldable pub send_data :
      Endian → List ℕ → ℕ → List ℕ → UdpConnection net → Outcome (UdpConnection net)
  send_data host addr data_type buf u = if not (net.is_open u.socket) then done u else do
    address ← or_throw (net.make_address addr)
    pkts ← packets_of data_type buf
    done (record u { sent = u.sent ++ datagrams host address server_port pkts })

  -- A whole image is printed, and `signal_update_image_` is called with it. The slot that the window
  -- connects to the signal runs then: see `on_datagram` of Client/Main/Events.
  unfoldable pub update_image : Option (List ℕ) → UdpConnection net → UdpConnection net
  update_image none u = u
  update_image (some img) u = record (print (with_number "size=" (length img)) u) {
    images = u.images ++ img ∷ [];
  }

  -- The case `Image`.
  unfoldable pub image_packet : Packet → UdpConnection net → Outcome (UdpConnection net)
  unfolding update_image
  image_packet pkt u = do
    (s, whole) ← assemble pkt u.assembly
    done (update_image whole (record u { assembly = s }))

  unfoldable pub message_packet : Endian → Packet → UdpConnection net → Outcome (UdpConnection net)
  message_packet host pkt u = do
    s ← deserialize_message host pkt.buffer
    done (print (with_bytes "message=" s.message) u)

  unfoldable pub handle_packet : Endian → Packet → UdpConnection net → Outcome (UdpConnection net)
  handle_packet host pkt u =
      if not (pkt.header.server_hash == server_hash_value)
      then done (complain (literal "!=SERVER_HASH") u)
      else if pkt.d_type == 0
      then message_packet host pkt u
      else if pkt.d_type == 1
      then image_packet pkt u
      else done u

  -- The handler of `async_send_to`, at an error code or not.
  unfoldable pub on_sent : Option ℕ → UdpConnection net → UdpConnection net
  on_sent (some ec) u = complain (with_error "send error:" ec) u
  on_sent none u = u

  -- `prcsPacket`, on what is in the buffer.
  unfoldable pub prcs_packet : Endian → UdpConnection net → Outcome (UdpConnection net)
  prcs_packet host u = do pkt ← parse host u.buffer; handle_packet host pkt u

  -- The handler of `async_receive_from`.
  unfoldable pub receive_failed : ℕ → UdpConnection net → UdpConnection net
  receive_failed ec u = complain (with_error "Receive error: " ec) (record u { receiving = false })

  unfoldable pub receive_datagram :
      Endian → List ℕ → UdpConnection net → Outcome (UdpConnection net)
  receive_datagram host datagram u =
      let u' : UdpConnection net = record u {
        receiving = false;
        buffer = net.receive datagram u.buffer;
      } in
      let bytes_transferred = min (length datagram) (length u.buffer) in
      do
        u'' ← if bytes_transferred == 0 then done u' else prcs_packet host u'
        done (if net.is_open u''.socket then listen_udp u'' else u'')
