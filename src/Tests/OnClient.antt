-- ===== src/Tests/OnClient.antt =====
-- The client's theorems on a client that is connected and was greeted.
use p2p_watcher.Base.{
  or_throw, false, ℕ, ◌≡◌, refl, true, List, [], ◌∷◌, ◌++◌, done, throws, ◌>>=◌, arith,
}
use p2p_watcher.Network.Loopback.{loopback, loopback-IsAsio}
use p2p_watcher.Protocol.Wire.{little}
use p2p_watcher.Protocol.GroupData.{test_struct}
use p2p_watcher.Server.Session.{reading_size, filled}
use p2p_watcher.Server.Session.Framing.{serve}
use p2p_watcher.Server.Tcp.{on_signals}
use p2p_watcher.Client.Headers.{serilize}
use p2p_watcher.Client.Tcp.{TcpConnection, prcs_packet, on_body, async_write}
use p2p_watcher.Client.Tcp.Greeting.{
  greeting, announced, reconnected, prcs_packet-greeting, regreeting_throws,
}
use p2p_watcher.Client.Tcp.Sending.{shown, async_write-served}
use p2p_watcher.Tests.{
  local_info, sample_struct, udp_client, tcp_client, waiting_session, tcp_server,
}

regreeting_throws_example :
    on_body loopback little
      (filled (greeting loopback little local_info))
      (reconnected loopback little [] (127 ∷ []) 1122 true tcp_client)
    ≡ throws
regreeting_throws_example =
    regreeting_throws loopback little loopback-IsAsio [] (127 ∷ []) 1122 true local_info tcp_client
      refl (omega arith) (omega arith)

async_write-served_example :
    (bytes : List ℕ) × ((async_write loopback little test_struct
        (serilize little sample_struct)
        tcp_client).written
      ≡ tcp_client.written ++ bytes)
    × (let (session', signals, left) =
          serve loopback little 2 waiting_session (bytes ++ (1 ∷ [])) in
        (left ≡ 1 ∷ [])
        × (session'.phase ≡ reading_size)
        × (on_signals loopback little signals tcp_server
            ≡ done (shown loopback little sample_struct tcp_server)))
async_write-served_example =
    async_write-served loopback little sample_struct tcp_client waiting_session (1 ∷ []) tcp_server
      refl refl (omega arith) (omega arith)
      (omega arith, (omega arith, (omega arith, (omega arith, tt)))) (omega arith)

-- The client that got the greeting.
abbrev waiting_client : TcpConnection loopback
waiting_client = record tcp_client {
  buffer = greeting loopback little local_info;
  udp = record udp_client { socket = false; receiving = false };
}

prcs_packet-greeting_example : prcs_packet loopback little waiting_client ≡ (
    or_throw (loopback.make_address local_info.client_addr) >>= λ address.
    loopback.open_socket waiting_client.udp.socket >>= λ opened.
    loopback.set_reuse opened >>= λ reusing.
    loopback.bind address local_info.client_port reusing >>= λ bound.
    done (record (announced loopback little local_info waiting_client) {
      udp = record (announced loopback little local_info waiting_client).udp {
        socket = bound;
        receiving = true;
      };
    }))
prcs_packet-greeting_example =
    prcs_packet-greeting loopback little loopback-IsAsio local_info waiting_client (omega arith)
      (omega arith) refl
