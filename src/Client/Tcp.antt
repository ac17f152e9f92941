-- ===== src/Client/Tcp.antt =====
-- BoostTcpConnection of Client/source/connection.cpp: the client's TCP connection.
pub mod Greeting
pub mod Sending
pub mod Buffer
use p2p_watcher.Base.{
  ℕ, ◌+◌, ◌==◌, if◌then◌else◌, Bool, true, false, not, ◌||◌, List, [], ◌∷◌, ◌++◌, length, Option,
  none, some, Outcome, done, fault, throws, ◌>>=◌,
}
use p2p_watcher.Network.{Asio}
use p2p_watcher.Console.{
  Text, literal, with_bytes, with_number, with_error, numbers, end_of_file, number_between,
}
use p2p_watcher.Protocol.Wire.{Endian, bytes_of, value_of, u16, u32}
use p2p_watcher.Protocol.GroupData.{TcpType, tcp_code}
use p2p_watcher.Protocol.Packet.{Packet, parse, serialize, fresh_header, header_size, type_size}
use p2p_watcher.Server.Session.{
  Phase, reading_size, reading_body, stopped, Completion, filled, end_of_stream, failed, resize,
  overlay,
}
use p2p_watcher.Client.Headers.{server_hash_value, deserialize_first, deserialize_struct}
use p2p_watcher.Client.Udp
use p2p_watcher.Client.Udp.{UdpConnection, open_udp, listen_udp, close_udp}

-- TcpVar and BoostTcpConnection. `resolving` and `connecting` say that an `async_resolve` and an
-- `async_connect` are pending, and `phase` which read is. The console stands in `udp`.
pub record TcpConnection (net : Asio) : Type 0 where
  pub server_addr : List ℕ
  pub socket : net.Socket
  pub resolving : Bool
  pub connecting : Bool
  pub size : ℕ
  pub buffer : List ℕ
  pub phase : Phase
  pub written : List ℕ
  pub udp : UdpConnection net

module _ (net : Asio) where
  abbrev pub print : Text → TcpConnection net → TcpConnection net
  print text c = record c { udp = Udp.print net text c.udp }

  abbrev pub complain : Text → TcpConnection net → TcpConnection net
  complain text c = record c { udp = Udp.complain net text c.udp }

  unfoldable pub async_read : TcpConnection net → TcpConnection net
  async_read c = record c { phase = reading_size }

  unfoldable pub do_disconnect : TcpConnection net → TcpConnection net
  do_disconnect c = print (literal "Connection`s disconnect") (record c {
    socket = if net.is_open c.socket then net.close_socket (net.shut_down c.socket) else c.socket;
    udp = close_udp net c.udp;
  })

  unfoldable pub do_connect : List ℕ → ℕ → TcpConnection net → TcpConnection net
  do_connect addr port c = record c { server_addr = addr; resolving = true }

  -- The handler of `async_resolve`, at an error code or not.
  unfoldable pub on_resolved : Option ℕ → TcpConnection net → TcpConnection net
  on_resolved (some ec) c = do_disconnect (record c { resolving = false })
  on_resolved none c = record c { resolving = false; connecting = true }

  -- The handler of `async_connect`, at an error code or not, and the socket that the call leaves.
  unfoldable pub on_connected : Option ℕ → net.Socket → TcpConnection net → TcpConnection net
  on_connected (some ec) socket c = do_disconnect (record c { socket = socket; connecting = false })
  on_connected none socket c =
      async_read
        (print (literal "Connected to server!") (record c { socket = socket; connecting = false }))

  module _ (host : Endian) where
    -- The case `TestStruct`: what the loop prints is one text here.
    unfoldable pub print_struct : List ℕ → TcpConnection net → Outcome (TcpConnection net)
    print_struct buf c = do
      a ← deserialize_struct host buf
      done (
          print (numbers a.d) (
            print (with_number "" a.c) (
              print (with_number "" a.b)
                (print (with_bytes "" a.a) (print (literal "---TestStruct---") c)))))

    -- The case `FirstData`.
    unfoldable pub greeted : List ℕ → TcpConnection net → Outcome (TcpConnection net)
    greeted buf c = do
      a ← deserialize_first host buf
      let c' =
          print (with_number "port=" a.client_port) (print (with_bytes "addr=" a.client_addr) c)
      udp ← open_udp net a.client_addr a.client_port c'.udp
      done (record c' { udp = listen_udp net udp })

    unfoldable pub handle_tcp : Packet → TcpConnection net → Outcome (TcpConnection net)
    handle_tcp pkt c =
        if not (pkt.header.server_hash == server_hash_value)
        then done (complain (literal "ERROR -> != kServerHash") c)
        else if not (pkt.header.is_first == 1) || not (pkt.header.is_last == 1)
        then done (complain (literal "ERROR -> !flags") c)
        else if pkt.d_type == 0
        then print_struct pkt.buffer c
        else if pkt.d_type == 1
        then greeted pkt.buffer c
        else done c

    unfoldable pub prcs_packet : TcpConnection net → Outcome (TcpConnection net)
    prcs_packet c = do pkt ← parse host c.buffer; handle_tcp pkt c

    -- Both a success and an error that is not eof go on to the body.
    unfoldable pub read_body : List ℕ → TcpConnection net → TcpConnection net
    read_body bytes c =
        let n = value_of host (overlay bytes (bytes_of host 4 c.size)) in
        record c { size = n; buffer = resize n c.buffer; phase = reading_body }

    -- The outer handler of `asyncRead`. At the end of the stream nothing is closed.
    unfoldable pub on_size : Completion → TcpConnection net → TcpConnection net
    unfolding read_body
    on_size (filled bytes) c = read_body bytes c
    on_size (failed ec bytes) c = read_body bytes c
    on_size (end_of_stream bytes) c = complain (end_of_file "Server disconnect: ") (record c {
      size = value_of host (overlay bytes (bytes_of host 4 c.size));
      phase = stopped;
    })

    -- The inner handler of `asyncRead`.
    unfoldable pub on_body : Completion → TcpConnection net → Outcome (TcpConnection net)
    on_body (filled bytes) c = do
      c' ← prcs_packet (record c { buffer = bytes; phase = stopped })
      done (async_read c')
    on_body (end_of_stream bytes) c = done (
        complain (end_of_file "Body read error: ")
          (record c { buffer = overlay bytes c.buffer; phase = stopped }))
    on_body (failed ec bytes) c = done (
        complain (with_error "Body read error: " ec)
          (record c { buffer = overlay bytes c.buffer; phase = stopped }))

    -- The packet of `asyncWrite`.
    unfoldable pub write_packet : TcpType → List ℕ → Packet
    write_packet data_type buffer = record {
      header = record fresh_header {
        server_hash = server_hash_value;
        total_data_size = u32 (length buffer);
        total_cnt_packets = 1;
        cur_packet_number = 1;
        cur_packet_size = u16 (length buffer + type_size + header_size);
        is_first = 1;
        is_last = 1;
        is_compressed = 0;
      };
      d_type = tcp_code data_type;
      buffer = buffer;
    }

    unfoldable pub async_write : TcpType → List ℕ → TcpConnection net → TcpConnection net
    async_write data_type buffer c =
        if not (net.is_open c.socket)
        then complain (literal "Connect to server for send!") c
        else let full_packet = serialize host (write_packet data_type buffer) in
          let packet_size = u32 (length full_packet) in
          print (literal "Отправлен пакет #1/1, размер: 2 байт") (
            print (with_number "p_size=" packet_size)
              (record c { written = c.written ++ (bytes_of host 4 packet_size ++ full_packet) }))

    -- The handler of `async_write`: an error code, or the number of bytes sent.
    unfoldable pub on_written : Option ℕ → ℕ → TcpConnection net → TcpConnection net
    on_written (some ec) n c = do_disconnect c
    on_written none n c = print (number_between "Отправлено " n " байт") c

    unfoldable pub send_udp_data : ℕ → List ℕ → TcpConnection net → Outcome (TcpConnection net)
    send_udp_data data_type buf c = do
      udp ← Udp.send_data net host c.server_addr data_type buf c.udp
      done (record c { udp = udp })
