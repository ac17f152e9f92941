-- ===== src/Tests/OnServer.antt =====
-- The server's theorems on a server with one client.
use p2p_watcher.Base.{
  ◌>>=◌, fault, ℕ, ◌-◌, ◌==◌, ◌≡◌, refl, true, false, List, [], ◌∷◌, ◌++◌, if◌then◌else◌, length,
  take, map, done, throws, ◌⊎◌, ◌<◌, ◌^◌, ◌>>=◌, replicate, arith,
}
use p2p_watcher.Base.Maps.{find, assign, erase}
use p2p_watcher.Console.{with_bytes, literal, with_number, with_error}
use p2p_watcher.Network.Loopback.{loopback, loopback-IsAsio}
use p2p_watcher.Protocol.Wire.{little}
use p2p_watcher.Protocol.Packet.{Packet, serialize}
use p2p_watcher.Protocol.Sender.{packets_of, packets_from, packet_count, packet_at, chunk_size}
use p2p_watcher.Protocol.Sender.Chunks.{expected_packet}
use p2p_watcher.Protocol.Assembly.{idle}
use p2p_watcher.Server.Session.{end_of_stream, process, reading_size, on_size}
use p2p_watcher.Server.Session.Framing.{serve, frames, serve-frames_in_order}
use p2p_watcher.Server.Udp.{
  say, broadcast_udp, receive_datagram, open_udp, listen_udp, remove_client_udp,
}
use p2p_watcher.Server.Udp.Relay.{
  process_all, all_datagrams, process_all-packets_of, broadcast_udp-sent,
}
use p2p_watcher.Server.Udp.Messages.{receive_datagram-message, receive_datagram-long_message}
use p2p_watcher.Server.Udp.Faults.{receive_datagram-cut_image}
use p2p_watcher.Server.Logger.{log}
use p2p_watcher.Server.Tcp.{
  TcpManager, open_tcp, listen_tcp, start_test, on_timer_error, on_size_read, run_session,
  on_signals, on_signal, remove_client,
}
use p2p_watcher.Server.Tcp.Clients.{has}
use p2p_watcher.Server.Tcp.Events.{size_read, timer_failed, step, run, end_of_stream-removes}
use p2p_watcher.Server.Main.{new_udp, new_tcp, factory_method, execute, serve_forever}
use p2p_watcher.Server.Main.Startup
use p2p_watcher.Server.Crc.{table, calc_crc, calc_func, crc_bits, crc_bit}
use p2p_watcher.Server.Crc.Bounds.{calc_crc-Word}
use p2p_watcher.Protocol.GroupData.{serialize_message}
use p2p_watcher.Tests.{
  three_bytes, short_text, long_text, two_chunks, one_chunk, udp_server, tcp_server,
  waiting_session,
}

process_all-packets_of_example :
    (ps : List Packet) × (packets_of 1 two_chunks ≡ done ps)
    × (process_all loopback little (map (serialize little) ps) udp_server
        ≡ broadcast_udp loopback little 1 two_chunks (
            say loopback
              (with_number "size=" (length two_chunks))
              (record udp_server { assembly = idle })))
process_all-packets_of_example =
    process_all-packets_of loopback little two_chunks udp_server (omega arith) (omega arith)

abbrev sent_packet : Packet
sent_packet = expected_packet 0 3 1 0 three_bytes

sent_packet_lem : packets_of 0 three_bytes ≡ done (sent_packet ∷ [])
unfolding packets_of packets_from packet_count packet_at chunk_size
sent_packet_lem = refl

broadcast_udp-sent_example :
    broadcast_udp loopback little 0 three_bytes udp_server
    ≡ done (record udp_server {
      sent =
          udp_server.sent
          ++ all_datagrams loopback little (sent_packet ∷ []) udp_server.cl (127 ∷ []);
    })
broadcast_udp-sent_example =
    broadcast_udp-sent loopback little 0 three_bytes (sent_packet ∷ []) (127 ∷ []) udp_server refl
      sent_packet_lem (refl, tt)

receive_datagram-cut_image_example :
    (p : Packet) × (packets_of 1 one_chunk ≡ done (p ∷ []))
    × (receive_datagram loopback little (serialize little p) udp_server ≡ (
        broadcast_udp loopback little 1
          (take 1455 one_chunk ++ replicate (length one_chunk - 1455) 0)
          (say loopback (with_number "size=" (length one_chunk)) (record udp_server {
            receiving = false;
            buffer = loopback.receive (serialize little p) udp_server.buffer;
            assembly = idle;
          }))
        >>= λ m'. done (if loopback.is_open m'.socket then listen_udp loopback m' else m')))
receive_datagram-cut_image_example =
    receive_datagram-cut_image loopback loopback-IsAsio little one_chunk udp_server (omega arith)
      (omega arith) refl

serve-frames_in_order_example :
    let packets = three_bytes ∷ [] ∷ [] in
    let (s', signals, left) =
      serve loopback little 4 waiting_session (frames loopback little packets ++ (1 ∷ [])) in
    (signals ≡ map process packets)
    × (left ≡ 1 ∷ [])
    × (s'.phase ≡ reading_size)
    × (s'.cur_client_id ≡ waiting_session.cur_client_id)
serve-frames_in_order_example =
    serve-frames_in_order loopback little (three_bytes ∷ [] ∷ []) (1 ∷ []) waiting_session refl
      (omega arith, (omega arith, tt))

-- The server when its client has left and the timer has failed.
abbrev deserted : TcpManager loopback
deserted = record tcp_server {
  udp = record udp_server {
    cl = [];
    console = record {
      out =
          with_number "AsioUdpManager->removeClient, id:" 0
          ∷ with_number "AsioTcpManager->removeClient, id:" 0
          ∷ [];
      err = literal "!disconnected!" ∷ with_error "timer err:" 995 ∷ [];
    };
  };
  cl = [];
  timer = false;
}

deserted_lem :
    run loopback little (size_read 0 (end_of_stream []) ∷ timer_failed 995 ∷ []) tcp_server
    ≡ done deserted
unfolding run step on_timer_error on_size_read run_session on_signals on_signal on_size
    remove_client remove_client_udp find assign erase log
deserted_lem = refl

end_of_stream-removes_example :
    (m' : TcpManager loopback) × (step loopback little (size_read 0 (end_of_stream [])) tcp_server
      ≡ done m')
    × ((k : ℕ) → has k m'.cl ≡ (if 0 == k then false else has k tcp_server.cl))
    × ((k : ℕ) → has k m'.udp.cl ≡ (if 0 == k then false else has k tcp_server.udp.cl))
unfolding find
end_of_stream-removes_example =
    end_of_stream-removes loopback little 0 waiting_session [] tcp_server refl refl

-- The server that has started and whose timer has failed.
abbrev started : TcpManager loopback
started = record (new_tcp loopback) {
  acceptor = true;
  accepting = true;
  udp = record ((new_tcp loopback).udp) {
    socket = true;
    receiving = true;
    console = record {
      out =
          literal "initialization AsioUdpManager..."
          ∷ literal "initialization AsioTcpManager..."
          ∷ literal "listen!"
          ∷ [];
      err = with_error "timer err:" 995 ∷ [];
    };
  };
}

started_lem : serve_forever loopback little true (timer_failed 995 ∷ []) ≡ done started
unfolding serve_forever execute factory_method new_tcp new_udp open_tcp open_udp listen_udp
    listen_tcp start_test run step on_timer_error log
started_lem = refl

-- The table that the file would have for a polynomial of zeros, as the digits of its lines.
abbrev zero_lines : List (List ℕ)
zero_lines = replicate 256 (48 ∷ [])

calc_crc-Word_example :
    (calc_crc zero_lines table three_bytes ≡ throws)
    ⊎ ((crc : ℕ) × (calc_crc zero_lines table three_bytes ≡ done crc) × (crc < 2 ^ 16))
calc_crc-Word_example = calc_crc-Word zero_lines table three_bytes

-- The value that a comment of Server/source/main.cpp gives for the bytes A590006C...
residue : calc_func 0 (165 ∷ 144 ∷ 0 ∷ 108 ∷ 0 ∷ 0 ∷ 0 ∷ 0 ∷ 0 ∷ 0 ∷ 4 ∷ 0 ∷ 0 ∷ 0 ∷ []) ≡ 0x38f6
unfolding calc_func crc_bits crc_bit
residue = refl

receive_datagram-message_example :
    (p : Packet) × (packets_of 0 (serialize_message little short_text) ≡ done (p ∷ []))
    × (receive_datagram loopback little (serialize little p) udp_server
        ≡ done (
            say loopback (with_bytes "message=" short_text.message) (record udp_server {
              receiving = true;
              buffer = loopback.receive (serialize little p) udp_server.buffer;
            })))
receive_datagram-message_example =
    receive_datagram-message loopback little loopback-IsAsio short_text udp_server (omega arith)
      (omega arith)

receive_datagram-long_message_example :
    (p : Packet) × (ps : List Packet) × (packets_of 0 (serialize_message little long_text)
      ≡ done (p ∷ ps))
    × (receive_datagram loopback little (serialize little p) udp_server ≡ fault)
receive_datagram-long_message_example =
    receive_datagram-long_message loopback little loopback-IsAsio long_text udp_server (omega arith)
      (omega arith) (omega arith)
