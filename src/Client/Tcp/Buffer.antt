-- ===== src/Client/Tcp/Buffer.antt =====
-- What the TCP connection does leaves the size of the UDP receive buffer as it is.
use p2p_watcher.Base.{
  ℕ, List, Option, none, some, done, ◌==◌, ◌||◌, not, Ensures, Ensures-bind, Ensures-after,
  Ensures-if, Ensures-done, arith,
}
use p2p_watcher.Network.{Asio}
use p2p_watcher.Console.{literal}
use p2p_watcher.Protocol.Wire.{Endian}
use p2p_watcher.Protocol.GroupData.{TcpType}
use p2p_watcher.Protocol.Packet.{Packet, parse}
use p2p_watcher.Server.Session.{Completion, filled, end_of_stream, failed, stopped}
use p2p_watcher.Client.Headers.{server_hash_value, deserialize_first, deserialize_struct}
use p2p_watcher.Client.Udp
use p2p_watcher.Client.Udp.{open_udp}
use p2p_watcher.Client.Udp.Buffer.{
  Holds, open_udp-Holds, listen_udp-Holds, close_udp-Holds, send_data-Holds,
}
use p2p_watcher.Client.Tcp.{
  TcpConnection, complain, do_disconnect, on_resolved, on_connected, async_read, print_struct,
  greeted, handle_tcp, prcs_packet, on_size, on_body, async_write, on_written, send_udp_data,
}

module _ (net : Asio) (host : Endian) (size : ℕ) where
  abbrev pub Keeps : TcpConnection net → Type 0
  Keeps c = Holds net host size c.udp

  pub do_disconnect-Keeps : (c : TcpConnection net) → Keeps c → Keeps (do_disconnect net c)
  unfolding do_disconnect
  do_disconnect-Keeps c h = close_udp-Holds net host size c.udp h

  pub on_resolved-Keeps :
      (ec : Option ℕ) (c : TcpConnection net) → Keeps c → Keeps (on_resolved net ec c)
  unfolding on_resolved
  on_resolved-Keeps none c h = h
  on_resolved-Keeps (some ec) c h = do_disconnect-Keeps _ h

  pub on_connected-Keeps :
      (ec : Option ℕ) (socket : net.Socket) (c : TcpConnection net)
      → Keeps c
      → Keeps (on_connected net ec socket c)
  unfolding on_connected async_read
  on_connected-Keeps none socket c h = h
  on_connected-Keeps (some ec) socket c h = do_disconnect-Keeps _ h

  pub on_size-Keeps :
      (r : Completion) (c : TcpConnection net) → Keeps c → Keeps (on_size net host r c)
  unfolding on_size
  on_size-Keeps (filled bytes) c h = h
  on_size-Keeps (failed ec bytes) c h = h
  on_size-Keeps (end_of_stream bytes) c h = h

  greeted-Keeps :
      (buf : List ℕ) (c : TcpConnection net) → Keeps c → Ensures Keeps (greeted net host buf c)
  unfolding greeted
  greeted-Keeps buf c h = Ensures-after Keeps (deserialize_first host buf) _ λ a.
      Ensures-bind (Holds net host size) Keeps (open_udp net a.client_addr a.client_port _) _
        (open_udp-Holds net host size a.client_addr a.client_port _ h)
        (λ udp h'.
          Ensures-done Keeps {a = record c { udp = Udp.listen_udp net udp }}
            (listen_udp-Holds net host size udp h'))

  handle_tcp-Keeps :
      (pkt : Packet) (c : TcpConnection net) → Keeps c → Ensures Keeps (handle_tcp net host pkt c)
  unfolding handle_tcp print_struct
  handle_tcp-Keeps pkt c h =
      Ensures-if Keeps (not (pkt.header.server_hash == server_hash_value)) _ _
        (Ensures-done Keeps {a = complain net (literal "ERROR -> != kServerHash") c} h)
        (Ensures-if Keeps (not (pkt.header.is_first == 1) || not (pkt.header.is_last == 1)) _ _
          (Ensures-done Keeps {a = complain net (literal "ERROR -> !flags") c} h)
          (Ensures-if Keeps (pkt.d_type == 0) _ _
            (Ensures-after Keeps (deserialize_struct host pkt.buffer) _ (λ a. Ensures-done Keeps h))
            (Ensures-if Keeps (pkt.d_type == 1) _ _ (greeted-Keeps pkt.buffer c h)
              (Ensures-done Keeps {a = c} h))))

  prcs_packet-Keeps : (c : TcpConnection net) → Keeps c → Ensures Keeps (prcs_packet net host c)
  unfolding prcs_packet
  prcs_packet-Keeps c h =
      Ensures-after Keeps (parse host c.buffer) _ (λ pkt. handle_tcp-Keeps pkt c h)

  pub on_body-Keeps :
      (r : Completion) (c : TcpConnection net) → Keeps c → Ensures Keeps (on_body net host r c)
  unfolding on_body async_read
  on_body-Keeps (filled bytes) c h =
      Ensures-bind Keeps Keeps _ (λ c'. done (async_read net c'))
        (prcs_packet-Keeps (record c { buffer = bytes; phase = stopped }) h)
        (λ c' h'. Ensures-done Keeps {a = async_read net c'} h')
  on_body-Keeps (failed ec bytes) c h = Ensures-done Keeps h
  on_body-Keeps (end_of_stream bytes) c h = Ensures-done Keeps h

  pub async_write-Keeps :
      (kind : TcpType) (buf : List ℕ) (c : TcpConnection net)
      → Keeps c
      → Keeps (async_write net host kind buf c)
  unfolding async_write
  async_write-Keeps kind buf c h = ground (arith, h)

  pub on_written-Keeps :
      (ec : Option ℕ) (n : ℕ) (c : TcpConnection net) → Keeps c → Keeps (on_written net host ec n c)
  unfolding on_written
  on_written-Keeps none n c h = h
  on_written-Keeps (some ec) n c h = do_disconnect-Keeps c h

  pub send_udp_data-Keeps :
      (data_type : ℕ) (buf : List ℕ) (c : TcpConnection net)
      → Keeps c
      → Ensures Keeps (send_udp_data net host data_type buf c)
  unfolding send_udp_data
  send_udp_data-Keeps data_type buf c h =
      Ensures-bind (Holds net host size) Keeps _ _
        (send_data-Holds net host size c.server_addr data_type buf c.udp h)
        (λ udp h'. Ensures-done Keeps {a = record c { udp = udp }} h')
