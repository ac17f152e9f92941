-- ===== src/Server/Session.antt =====
-- AsioTcpClientSession of Server/source/ClientSession.cpp: the framing of packets on a TCP stream.
-- A frame is the size of a packet in four bytes and the packet. The two signals are results of
-- the handlers; Server/Tcp is connected to them.
pub mod Framing
pub mod Ending
use p2p_watcher.Base.{
  ℕ, ◌+◌, ◌-◌, ◌%◌, ◌^◌, if◌then◌else◌, List, [], ◌∷◌, ◌++◌, length, take, drop, replicate, Option,
  none, some,
}
use p2p_watcher.Network.{Asio}
use p2p_watcher.Console.{Text, literal, with_error, number_between, end_of_file}
use p2p_watcher.Server.Logger.{LoggerMode, info, error}
use p2p_watcher.Protocol.Wire.{Endian, bytes_of, value_of, u16, u32}
use p2p_watcher.Protocol.GroupData.{TcpType, tcp_code}
use p2p_watcher.Protocol.Packet.{
  Packet, serialize, server_hash_value, fresh_header, header_size, type_size,
}

-- The `async_read` that is pending, if any.
pub data Phase : Type 0 where
  reading_size reading_body stopped : Phase

pub record Session (net : Asio) : Type 0 where
  pub socket : net.Socket
  pub size : ℕ
  pub buffer : List ℕ
  pub cur_client_id : ℕ
  pub phase : Phase
  pub written : List ℕ

-- How an `async_read` ended: with its buffer full, at the end of the stream, or with another error
-- code and the bytes that had come in before it.
pub data Completion : Type 0 where
  filled : List ℕ → Completion
  end_of_stream : List ℕ → Completion
  failed : ℕ → List ℕ → Completion

-- What a handler makes others do, in its order.
pub data Signal : Type 0 where
  deleting : ℕ → Signal
  process : List ℕ → Signal
  says : LoggerMode → Text → Signal

-- `buffer_.resize(n)`
abbrev pub resize : ℕ → List ℕ → List ℕ
resize n buf = take n buf ++ replicate (n - length buf) 0

-- The bytes that came in lie over those that were there.
abbrev pub overlay : List ℕ → List ℕ → List ℕ
overlay bytes old = bytes ++ drop (length bytes) old

module _ (net : Asio) where
  unfoldable pub new_session : net.Socket → ℕ → Session net × List Signal
  new_session socket client_id = (
    record {
      socket = socket;
      size = 0;
      buffer = [];
      cur_client_id = client_id;
      phase = stopped;
      written = [];
    },
    says info (literal "!...!") ∷ [],
  )

  unfoldable pub do_read : Session net → Session net
  do_read s = record s { phase = reading_size }

  unfoldable pub start_session : Session net → Session net
  unfolding do_read
  start_session s = do_read s

  module _ (host : Endian) where
    -- Both a success and an error that is not eof go on to the body.
    unfoldable pub read_body : List ℕ → Session net → Session net × List Signal
    read_body bytes s =
        let n = value_of host (overlay bytes (bytes_of host 4 s.size)) in
        (record s { size = n; buffer = resize n s.buffer; phase = reading_body }, [])

    -- The outer handler of `doRead`.
    unfoldable pub on_size : Completion → Session net → Session net × List Signal
    unfolding read_body
    on_size (filled bytes) s = read_body bytes s
    on_size (failed ec bytes) s = read_body bytes s
    on_size (end_of_stream bytes) s = (
      record s { size = value_of host (overlay bytes (bytes_of host 4 s.size)); phase = stopped },
      deleting s.cur_client_id ∷ says error (literal "!disconnected!") ∷ [],
    )

    -- The inner handler of `doRead`; here every error ends the session, with no signal.
    unfoldable pub on_body : Completion → Session net → Session net × List Signal
    unfolding do_read
    on_body (filled bytes) s = (do_read (record s { buffer = bytes }), process bytes ∷ [])
    on_body (end_of_stream bytes) s = (
      record s { buffer = overlay bytes s.buffer; phase = stopped },
      says error (end_of_file "") ∷ [],
    )
    on_body (failed ec bytes) s = (
      record s { buffer = overlay bytes s.buffer; phase = stopped },
      says error (with_error "" ec) ∷ [],
    )

    -- The packet of `doSend`, whose number stays 0.
    unfoldable pub session_packet : TcpType → List ℕ → Packet
    session_packet dtype buffer = record {
      header = record fresh_header {
        server_hash = server_hash_value;
        total_cnt_packets = 1;
        total_data_size = u32 (length buffer);
        cur_packet_size = u16 (length buffer + header_size + type_size);
        is_first = 1;
        is_last = 1;
        is_compressed = 0;
      };
      d_type = tcp_code dtype;
      buffer = buffer;
    }

    -- The two buffers that `async_write` sends.
    unfoldable pub frame : List ℕ → List ℕ
    frame full_packet = bytes_of host 4 (u32 (length full_packet)) ++ full_packet

    unfoldable pub do_send : TcpType → List ℕ → Session net → Session net × List Signal
    unfolding session_packet frame
    do_send dtype buffer s =
        if net.is_open s.socket
        then (
          record s { written = s.written ++ frame (serialize host (session_packet dtype buffer)) },
          [],
        )
        else (s, says error (literal "socket`s not connected!") ∷ [])

    -- The handler of `async_write`: an error code, or the number of bytes sent.
    unfoldable pub on_written : Option ℕ → ℕ → List Signal
    on_written (some ec) n = says error (literal "socket send err!") ∷ []
    on_written none n = says info (number_between "sended..." n "bytes") ∷ []
