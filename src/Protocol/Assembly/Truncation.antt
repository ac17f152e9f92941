-- ===== src/Protocol/Assembly/Truncation.antt =====
-- What the 1472 bytes of the receive buffer do to a packet, whose header and payload take up to
-- 1489 bytes. AsioUdpTypes and the client's UdpVar have the same buffer and hand all of it on.
use p2p_watcher.Base.{
  ℕ, ◌+◌, ◌≡◌, refl, List, ◌++◌, length, take, drop, length-append, length-take, length-drop,
  take-append, append_assoc, done, arith,
}
use p2p_watcher.Network.{Asio, IsAsio}
use p2p_watcher.Protocol.Wire.{Endian}
use p2p_watcher.Protocol.Packet.{Packet, IsPacket, front, serialize, parse}
use p2p_watcher.Protocol.Packet.RoundTrip.{length-front, length-serialize, parse-front}

-- The payload that is seen: cut at 1455 bytes, and filled up with what lay in the buffer.
abbrev pub seen_payload : Packet → List ℕ → List ℕ
seen_payload p buffer = take 1455 p.buffer ++ drop (17 + length p.buffer) buffer

pub length-seen_payload :
    (p : Packet) (buffer : List ℕ) → length buffer ≡ 1472 → length (seen_payload p buffer) ≡ 1455
length-seen_payload p buffer h = omega (
  arith,
  length-append (take 1455 p.buffer) (drop (17 + length p.buffer) buffer),
  length-take 1455 p.buffer,
  length-drop (17 + length p.buffer) buffer,
)

module _ (net : Asio) (assumed : IsAsio net) (host : Endian) where
  -- Through a receive buffer of 1472 bytes the header of a packet whose fields fit their types comes
  -- in whole, and 1455 bytes behind it: those of the payload, cut or filled up from the buffer.
  pub parse-receive :
      (p : Packet) (buffer : List ℕ)
      → IsPacket p
      → length buffer ≡ 1472
      → parse host (net.receive (serialize host p) buffer)
        ≡ done (record p { buffer = seen_payload p buffer })
  unfolding serialize
  parse-receive p buffer v h =
      let start : List ℕ = front host p.header p.d_type in
      let whole : length buffer ≡ length start + 1455 =
        omega (arith, h, length-front host p.header p.d_type) in
      rw
        (
          assumed.receive_fills (start ++ p.buffer) buffer,
          whole,
          take-append start p.buffer 1455,
          append_assoc start (take 1455 p.buffer) (drop (length (start ++ p.buffer)) buffer),
          parse-front host p (take 1455 p.buffer ++ drop (length (start ++ p.buffer)) buffer) v,
          length-serialize host p,
        )
        refl
