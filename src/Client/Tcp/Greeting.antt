-- ===== src/Client/Tcp/Greeting.antt =====
-- What the client does with the FirstData packet that the server sends to a new client.
use p2p_watcher.Base.{
  ℕ, ◌+◌, ◌^◌, ◌<◌, ◌≡◌, refl, subst, true, List, [], length, none, Option, some, done, throws,
  ◌>>=◌, or_throw, arith, append-nil, ◌∙◌, bind-cong,
}
use p2p_watcher.Console.{with_number, with_bytes}
use p2p_watcher.Network.{Asio, IsAsio}
use p2p_watcher.Protocol.Wire.{Endian}
use p2p_watcher.Protocol.GroupData.{FirstData, serialize_first, first_data, TcpType}
use p2p_watcher.Protocol.GroupData.RoundTrip.{deserialize_first-serialize}
use p2p_watcher.Protocol.Packet.{IsPacket, serialize}
use p2p_watcher.Protocol.Packet.RoundTrip.{parse-serialize}
use p2p_watcher.Server.Session.{session_packet, stopped, end_of_stream, filled}
use p2p_watcher.Client.Headers.{deserialize_first}
use p2p_watcher.Client.Udp.{UdpConnection, open_udp, listen_udp}
use p2p_watcher.Client.Tcp.{
  TcpConnection, print, greeted, handle_tcp, prcs_packet, do_connect, on_resolved, on_connected,
  on_size, on_body, async_read,
}

session_packet-IsPacket :
    (net : Asio) (host : Endian) (kind : TcpType) (buffer : List ℕ)
    → IsPacket (session_packet net host kind buffer)
unfolding session_packet
session_packet-IsPacket net host kind buffer = record {
  hash_word = omega arith;
  size_word = omega arith;
  count_word = omega arith;
  number_word = omega arith;
  packet_size_word = omega arith;
  first_byte = omega arith;
  last_byte = omega arith;
  compressed_byte = omega arith;
  type_word = code_small kind;
}
  where
    code_small : (k : TcpType) → (session_packet net host k buffer).d_type < 2 ^ 16
    code_small TcpType.test_struct = omega arith
    code_small TcpType.first_data = omega arith

module _ (net : Asio) (host : Endian) where
  -- The packet in which the server sends `f`.
  abbrev pub greeting : FirstData → List ℕ
  greeting f = serialize host (session_packet net host first_data (serialize_first host f))

  -- The texts that `f` makes the client print.
  abbrev pub announced : FirstData → TcpConnection net → TcpConnection net
  announced f c =
      print net (with_number "port=" f.client_port) (print net (with_bytes "addr=" f.client_addr) c)

  -- What the handler makes of the greeting, by its own calls.
  prcs_packet-decoded :
      (f : FirstData) (c : TcpConnection net)
      → f.client_port < 2 ^ 16
      → 6 + length f.client_addr < 2 ^ 32
      → c.buffer ≡ greeting f
      → prcs_packet net host c ≡ (
          open_udp net f.client_addr f.client_port (announced f c).udp >>= λ udp.
          done (record (announced f c) { udp = listen_udp net udp }))
  unfolding prcs_packet handle_tcp greeted deserialize_first session_packet
  prcs_packet-decoded f c port short e =
      let payload : List ℕ = serialize_first host f in
      let decoded =
        subst (λ xs. deserialize_first host xs ≡ done f) (append-nil payload)
          (deserialize_first-serialize host f [] port short) in
      rw
        (
          e,
          parse-serialize host (session_packet net host first_data payload)
              (session_packet-IsPacket net host first_data payload),
          decoded,
        )
        refl

  -- A client that has opened its UDP socket listens on it.
  opens_and_listens :
      IsAsio net
      → (addr : List ℕ) (port : ℕ) (c : TcpConnection net)
      → (open_udp net addr port c.udp >>= λ udp. done (record c { udp = listen_udp net udp })) ≡ (
          or_throw (net.make_address addr) >>= λ address. net.open_socket c.udp.socket >>= λ opened.
          net.set_reuse opened >>= λ reusing. net.bind address port reusing >>= λ bound.
          done (record c { udp = record c.udp { socket = bound; receiving = true } }))
  unfolding open_udp listen_udp
  opens_and_listens assumed addr port c =
      bind-cong (or_throw (net.make_address addr)) _ _ _ λ address _.
        bind-cong (net.open_socket c.udp.socket) _ _ _ λ opened opens.
          bind-cong (net.set_reuse opened) _ _ _ λ reusing reuses.
            bind-cong (net.bind address port reusing) _ _ _ λ bound binds.
              let up : net.is_open bound ≡ true =
                assumed.bind_keeps address port binds
                ∙ (assumed.reuse_keeps reuses ∙ assumed.open_opens opens) in
              rw up refl

  -- The packet in which the server greets a client makes the client print the address and the port
  -- in it, open its UDP socket, allow it to reuse its address, and bind it to the numeric address
  -- and the port, in this order; it throws where one of these does. Then the socket that was bound
  -- is the client's, a receive is pending on it, and nothing else has changed. The hosts have the
  -- same byte order, the port fits 16 bits, and the address is shorter than 2 ^ 32 - 6 bytes.
  pub prcs_packet-greeting :
      IsAsio net
      → (f : FirstData) (c : TcpConnection net) → f.client_port < 2 ^ 16
      → 6 + length f.client_addr < 2 ^ 32
      → c.buffer ≡ greeting f
      → prcs_packet net host c ≡ (
          or_throw (net.make_address f.client_addr) >>= λ address.
          net.open_socket c.udp.socket >>= λ opened. net.set_reuse opened >>= λ reusing.
          net.bind address f.client_port reusing >>= λ bound. done (record (announced f c) {
            udp = record (announced f c).udp { socket = bound; receiving = true };
          }))
  prcs_packet-greeting assumed f c port short e =
      prcs_packet-decoded f c port short e
      ∙ opens_and_listens assumed f.client_addr f.client_port (announced f c)

  open_udp-again :
      IsAsio net
      → (addr : List ℕ) (port : ℕ) (u : UdpConnection net) → net.is_open u.socket ≡ true
      → open_udp net addr port u ≡ throws
  unfolding open_udp
  open_udp-again assumed addr port u opened = parsed (net.make_address addr)
    where
      parsed :
          (address : Option ℕ)
          → (or_throw address >>= λ a. net.open_socket u.socket >>= λ s. net.set_reuse s >>= λ s'.
              net.bind a port s' >>= λ s''. done (record u { socket = s'' }))
            ≡ throws
      parsed none = refl
      parsed (some address) = rw (assumed.open_again opened) refl

  -- The client when the server closed its end and the user connected again.
  abbrev pub reconnected : List ℕ → List ℕ → ℕ → net.Socket → TcpConnection net → TcpConnection net
  reconnected left addr port socket c =
      on_connected net none socket
        (on_resolved net none (do_connect net addr port (on_size net host (end_of_stream left) c)))

  -- A client whose UDP socket is open, as it is after a greeting, does not close it when the server
  -- ends the connection between two frames. After it connects again, the next greeting makes it
  -- throw out of the handler, since `open` of a socket that is open is an error. The hosts have the
  -- same byte order, the port fits 16 bits, and the address is shorter than 2 ^ 32 - 6 bytes.
  pub regreeting_throws :
      IsAsio net
      → (left addr : List ℕ) (port : ℕ) (socket : net.Socket) (f : FirstData)
        (c : TcpConnection net)
      → net.is_open c.udp.socket ≡ true
      → f.client_port < 2 ^ 16
      → 6 + length f.client_addr < 2 ^ 32
      → on_body net host (filled (greeting f)) (reconnected left addr port socket c) ≡ throws
  unfolding on_body on_connected on_resolved do_connect on_size async_read
  regreeting_throws assumed left addr port socket f c opened port_word short =
      let c' : TcpConnection net = record (reconnected left addr port socket c) {
        buffer = greeting f;
        phase = stopped;
      } in
      rw
        (
          prcs_packet-decoded f c' port_word short refl,
          open_udp-again assumed f.client_addr f.client_port (announced f c').udp opened,
        )
        refl
