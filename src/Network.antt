-- ===== src/Network.antt =====
-- What the programs use of boost::asio, which is not part of the repository. `Asio` is the
-- operations, and `IsAsio` their documented behaviour as far as the code relies on it.
pub mod Loopback
pub mod Receiving
use p2p_watcher.Base.{
  ℕ, ◌≡◌, Bool, true, false, List, ◌++◌, length, take, drop, Option, Outcome, done, throws,
}

pub record Asio : Type 1 where
  -- A udp or tcp socket, or an acceptor.
  pub Socket : Type 0
  -- `socket(ctx)`, as the constructors make it.
  pub new_socket : Socket
  pub is_open : Socket → Bool
  -- `socket.open(endpoint.protocol())`
  pub open_socket : Socket → Outcome Socket
  -- `socket.set_option(reuse_address(true))`
  pub set_reuse : Socket → Outcome Socket
  -- `socket.bind(endpoint)`, at an address and a port.
  pub bind : ℕ → ℕ → Socket → Outcome Socket
  -- `acceptor.listen(max_listen_connections)`
  pub start_listening : Socket → Outcome Socket
  -- `socket.shutdown(shutdown_both, ec)` and `socket.close(ec)`
  pub shut_down : Socket → Socket
  pub close_socket : Socket → Socket
  -- `asio::ip::make_address`, which throws where there is none.
  pub make_address : List ℕ → Option ℕ
  -- What a datagram leaves in the buffer that `async_receive_from` was given.
  pub receive : List ℕ → List ℕ → List ℕ

pub record IsAsio (net : Asio) : Type 0 where
  pub new_closed : net.is_open net.new_socket ≡ false
  pub open_opens : {s s' : net.Socket} → net.open_socket s ≡ done s' → net.is_open s' ≡ true
  pub open_again : {s : net.Socket} → net.is_open s ≡ true → net.open_socket s ≡ throws
  pub reuse_keeps : {s s' : net.Socket} → net.set_reuse s ≡ done s' → net.is_open s' ≡ net.is_open s
  pub bind_keeps :
      {s s' : net.Socket} (address port : ℕ)
      → net.bind address port s ≡ done s'
      → net.is_open s' ≡ net.is_open s
  pub listening_keeps :
      {s s' : net.Socket} → net.start_listening s ≡ done s' → net.is_open s' ≡ net.is_open s
  pub close_closes : (s : net.Socket) → net.is_open (net.close_socket s) ≡ false
  -- A datagram longer than the buffer is cut off, and a shorter one leaves the rest as it was.
  pub receive_fills :
      (datagram buffer : List ℕ)
      → net.receive datagram buffer ≡ take (length buffer) datagram ++ drop (length datagram) buffer
