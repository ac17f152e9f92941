-- ===== src/Server/Udp/Overruns.antt =====
-- The images that the server cannot take from its socket.
use p2p_watcher.Base.{ℕ, ◌-◌, ◌*◌, ◌%◌, ◌<◌, ◌≤◌, ◌≡◌, List, length, map, done, fault}
use p2p_watcher.Network.{Asio, IsAsio}
use p2p_watcher.Protocol.Wire.{Endian}
use p2p_watcher.Protocol.Packet.{Packet, serialize}
use p2p_watcher.Protocol.Sender.{packets_of}
use p2p_watcher.Protocol.Receiving.Overruns.{receive_each-short_end}
use p2p_watcher.Server.Udp.Images.{receive_all, receiver}
use p2p_watcher.Server.Udp.{UdpManager}

module _ (net : Asio) (assumed : IsAsio net) (host : Endian) where
  -- An image whose last packet carries fewer than 1455 bytes cannot be taken from the socket: of
  -- its datagrams, received whole and in order in the buffer of 1472 bytes, one makes the handler
  -- write outside the assembly buffer, in every state. The image has 1 to 65535 * 1472 bytes.
  pub receive_all-short_end :
      (image : List ℕ) (m : UdpManager net)
      → 0 < length image
      → length image ≤ 65535 * 1472
      → (length image - 1) % 1472 < 1454
      → length m.buffer ≡ 1472
      → (ps : List Packet) × (packets_of 1 image ≡ done ps)
        × (receive_all net host (map (serialize host) ps) m ≡ fault)
  receive_all-short_end = receive_each-short_end net assumed host (receiver net host assumed)
