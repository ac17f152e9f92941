-- ===== src/Tests/OnVisits.antt =====
-- Visits of clients, from the accept to the end of the connection.
use p2p_watcher.Base.{
  ◌+◌, ◌*◌, length, fault, map, done, ℕ, ◌≡◌, refl, true, List, [], ◌∷◌, ◌++◌, map, some, Outcome,
  done, throws, fault, arith,
}
use p2p_watcher.Base.Maps.{find, assign, erase}
use p2p_watcher.Console.{end_of_file}
use p2p_watcher.Network.Loopback.{loopback, loopback-IsAsio}
use p2p_watcher.Protocol.Wire.{little, bytes_of, u32}
use p2p_watcher.Protocol.GroupData.{test_struct, serialize_first}
use p2p_watcher.Protocol.Packet.{Packet, serialize}
use p2p_watcher.Client.Headers.{serilize}
use p2p_watcher.Client.Tcp.{write_packet}
use p2p_watcher.Client.Tcp.Sending.{shown, process_tcp-struct, length-packet}
use p2p_watcher.Server.Logger.{error, log}
use p2p_watcher.Server.Session.{
  process, says, end_of_stream, stopped, on_size, new_session, do_send, start_session,
  session_packet, frame,
}
use p2p_watcher.Server.Session.Framing.{serve, frames}
use p2p_watcher.Server.Session.Ending.{goodbye, serve-stops, serve-closed, serve-cut_off}
use p2p_watcher.Server.Udp.{open_udp, listen_udp, create_client_udp, remove_client_udp}
use p2p_watcher.Server.Tcp.{
  TcpManager, open_tcp, listen_tcp, start_test, on_accept, create_client, on_size_read, run_session,
  on_signals, on_signal, remove_client,
}
use p2p_watcher.Server.Tcp.Visit.{deliver, Leaves, IsProcessable, visit_ends}
use p2p_watcher.Server.Tcp.Remaining.{Remains, visit_stays}
use p2p_watcher.Server.Tcp.Events.{Event, accepted, size_read, step, run}
use p2p_watcher.Server.Tcp.Room.{empty_room, run_room}
use p2p_watcher.Server.Tcp.Inside.{IsIn}
use p2p_watcher.Server.Main.{new_tcp, new_udp, factory_method, execute, serve_forever}
use p2p_watcher.Server.Main.Startup.{serve_forever-refines}
use p2p_watcher.Protocol.Sender.{packets_of}
use p2p_watcher.Protocol.Assembly.Cutting.{cut_from}
use p2p_watcher.Protocol.Assembly.{idle}
use p2p_watcher.Server.Udp.Relay.{Addressed, all_datagrams}
use p2p_watcher.Server.Main.Images.{arrivals, serve_forever-short_end, serve_forever-relays}
use p2p_watcher.Tests.{
  three_bytes, two_packets, sample_struct, local_client, tcp_server, waiting_session,
}

serve-stops_example :
    (serve loopback little 4 waiting_session (1 ∷ 2 ∷ three_bytes)).0.phase ≡ stopped
serve-stops_example =
    serve-stops loopback little 4 waiting_session (1 ∷ 2 ∷ three_bytes) (omega arith)

serve-closed_example :
    let (s', signals, left) =
      serve loopback little 5 waiting_session
        (frames loopback little (three_bytes ∷ [] ∷ []) ++ (1 ∷ [])) in
    (signals ≡ map process (three_bytes ∷ [] ∷ []) ++ goodbye loopback little 0)
    × (left ≡ [])
    × (s'.phase ≡ stopped)
serve-closed_example =
    serve-closed loopback little (three_bytes ∷ [] ∷ []) (1 ∷ []) waiting_session refl
      (omega arith, (omega arith, tt)) (omega arith)

serve-cut_off_example :
    let (s', signals, left) =
      serve loopback little 4 waiting_session
        (frames loopback little (three_bytes ∷ []) ++ (bytes_of little 4 (u32 7) ++ three_bytes)) in
    (signals ≡ map process (three_bytes ∷ []) ++ says error (end_of_file "") ∷ [])
    × (left ≡ [])
    × (s'.phase ≡ stopped)
serve-cut_off_example =
    serve-cut_off loopback little (three_bytes ∷ []) 7 three_bytes waiting_session refl
      (omega arith, tt) (omega arith) (omega arith)

-- The packet of a struct that the client writes.
abbrev struct_packet : List ℕ
struct_packet =
    serialize little (write_packet loopback little test_struct (serilize little sample_struct))

struct_packet-IsProcessable : IsProcessable loopback little struct_packet
struct_packet-IsProcessable m = (
  shown loopback little sample_struct m,
  process_tcp-struct loopback little sample_struct m (omega arith) (omega arith) (omega arith)
      (omega arith),
)

visit_ends_example :
    (m' : TcpManager loopback) × (deliver loopback little 3 0
        (frames loopback little (struct_packet ∷ []) ++ [])
        tcp_server
      ≡ done m')
    × Leaves loopback little 0 tcp_server m'
unfolding find
visit_ends_example =
    visit_ends loopback little (struct_packet ∷ []) [] 0 waiting_session tcp_server refl refl refl
      (omega (arith, length-packet loopback little sample_struct), tt)
      (struct_packet-IsProcessable, tt) (omega arith)

abbrev pub result_of : Outcome (TcpManager loopback) → TcpManager loopback → TcpManager loopback
result_of (done m) other = m
result_of throws other = other
result_of fault other = other

-- A client comes, another one comes, and the first one leaves.
abbrev pub visits : List (Event loopback)
visits =
    accepted (some (true, some local_client))
    ∷ accepted (some (true, some local_client))
    ∷ size_read 0 (end_of_stream [])
    ∷ []

abbrev pub served : TcpManager loopback
served = result_of (serve_forever loopback little true visits) (new_tcp loopback)

pub served_lem : serve_forever loopback little true visits ≡ done served
unfolding serve_forever execute factory_method new_tcp new_udp open_tcp open_udp listen_udp
    listen_tcp start_test run step on_accept create_client create_client_udp new_session do_send
    start_session session_packet serialize_first frame on_size_read run_session on_signals on_signal
    on_size remove_client remove_client_udp find assign erase log
served_lem = refl

pub served_addresses : Addressed loopback little served.udp.cl (127 ∷ [])
unfolding serve_forever execute factory_method new_tcp new_udp open_tcp open_udp listen_udp
    listen_tcp start_test run step on_accept create_client create_client_udp new_session do_send
    start_session session_packet serialize_first frame on_size_read run_session on_signals on_signal
    on_size remove_client remove_client_udp find assign erase log
served_addresses = (refl, tt)

serve_forever-refines_example : IsIn (run_room visits empty_room) served
serve_forever-refines_example = serve_forever-refines loopback little visits served served_lem

serve_forever-short_end_example :
    (ps : List Packet) × (packets_of 1 three_bytes ≡ done ps)
    × (serve_forever loopback little true (visits ++ arrivals loopback little ps) ≡ fault)
serve_forever-short_end_example =
    serve_forever-short_end loopback loopback-IsAsio little visits served served_lem three_bytes
      (omega arith) (omega arith) (omega arith)

-- The client that is left gets the image.
serve_forever-relays_example :
    (ps rs : List Packet) × (m' : TcpManager loopback) × (packets_of 1 two_packets ≡ done ps)
    × (packets_of 1 (cut_from 0 two_packets) ≡ done rs)
    × (serve_forever loopback little true (visits ++ arrivals loopback little ps) ≡ done m')
    × (m'.udp.sent ≡ served.udp.sent ++ all_datagrams loopback little rs served.udp.cl (127 ∷ []))
    × (m'.cl ≡ served.cl)
    × (m'.udp.cl ≡ served.udp.cl)
    × (m'.udp.assembly ≡ idle)
    × (m'.udp.receiving ≡ true)
serve_forever-relays_example =
    serve_forever-relays loopback loopback-IsAsio little visits served served_lem two_packets
      (127 ∷ []) (omega arith) (omega arith) served_addresses

-- Seven bytes are announced and three come.
visit_stays_example :
    (m' : TcpManager loopback) × (deliver loopback little
        (2 * length (struct_packet ∷ []) + 2 + 9)
        0
        (frames loopback little (struct_packet ∷ []) ++ (bytes_of little 4 (u32 7) ++ three_bytes))
        tcp_server
      ≡ done m')
    × Remains loopback little 0 tcp_server m'
unfolding find
visit_stays_example =
    visit_stays loopback little (struct_packet ∷ []) 9 0 7 three_bytes waiting_session tcp_server
      refl refl refl (omega (arith, length-packet loopback little sample_struct), tt)
      (struct_packet-IsProcessable, tt) (omega arith) (omega arith)
