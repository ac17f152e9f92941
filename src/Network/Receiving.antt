-- ===== src/Network/Receiving.antt =====
-- A receive buffer keeps its size.
use p2p_watcher.Base.{
  ℕ, ◌≡◌, ap, ◌∙◌, List, length, take, drop, arith, length-append, length-take, length-drop,
}
use p2p_watcher.Network.{Asio, IsAsio}

pub length-receive :
    (net : Asio)
    → IsAsio net
    → (datagram buffer : List ℕ) → length (net.receive datagram buffer) ≡ length buffer
length-receive net assumed datagram buffer =
    ap length (assumed.receive_fills datagram buffer)
    ∙ omega (
      arith,
      length-append (take (length buffer) datagram) (drop (length datagram) buffer),
      length-take (length buffer) datagram,
      length-drop (length datagram) buffer,
    )
