-- ===== src/Tests/OnProtocol.antt =====
-- The protocol's theorems on concrete payloads.
use p2p_watcher.Base.{
  ◌+◌, ◌*◌, ◌/◌, ◌%◌, ◌≡◌, ◌≢◌, refl, List, [], ◌∷◌, ◌++◌, length, done, fault, arith,
}
use p2p_watcher.Network.Loopback.{loopback, loopback-IsAsio}
use p2p_watcher.Protocol.Wire.{little, big}
use p2p_watcher.Protocol.GroupData.{
  net, serialize_message, deserialize_message, serialize_first, deserialize_first,
  deserialize_struct, serilize,
}
use p2p_watcher.Protocol.GroupData.RoundTrip.{
  deserialize_struct-serilize, deserialize_first-serialize, deserialize_message-serialize,
  first_port_swapped, deserialize_message_overrun,
}
use p2p_watcher.Protocol.Packet.{Packet, serialize, parse}
use p2p_watcher.Protocol.Packet.RoundTrip.{parse-serialize}
use p2p_watcher.Protocol.Sender.{packets_of}
use p2p_watcher.Protocol.Sender.Chunks.{Carries, packets_of-Carries}
use p2p_watcher.Protocol.Assembly.{idle, assemble_all}
use p2p_watcher.Protocol.Assembly.Images.{assemble_all-packets_of}
use p2p_watcher.Protocol.Assembly.Truncation.{seen_payload, parse-receive}
use p2p_watcher.Tests.{
  three_bytes, two_chunks, interrupted, hello, local_info, sample_struct, sample_packet,
  sample_packet-IsPacket, udp_server,
}

assemble_all-packets_of_example :
    (ps : List Packet) × (packets_of 1 two_chunks ≡ done ps)
    × (assemble_all ps interrupted ≡ done (idle, two_chunks ∷ []))
assemble_all-packets_of_example =
    assemble_all-packets_of 1 two_chunks interrupted (omega arith) (omega arith)

packets_of-Carries_example :
    (ps : List Packet) × (packets_of 1 two_chunks ≡ done ps)
    × Carries 1 (length two_chunks) ((length two_chunks + 1471) / 1472) 0 two_chunks ps
packets_of-Carries_example = packets_of-Carries 1 two_chunks (omega arith)

parse-serialize_example : parse big (serialize big sample_packet) ≡ done sample_packet
parse-serialize_example = parse-serialize big sample_packet sample_packet-IsPacket

parse-receive_example :
    parse little (loopback.receive (serialize little sample_packet) udp_server.buffer)
    ≡ done (record sample_packet { buffer = seen_payload sample_packet udp_server.buffer })
parse-receive_example =
    parse-receive loopback loopback-IsAsio little sample_packet udp_server.buffer
      sample_packet-IsPacket refl

deserialize_struct-serilize_example :
    deserialize_struct little (serilize little sample_struct ++ three_bytes) ≡ done sample_struct
deserialize_struct-serilize_example =
    deserialize_struct-serilize little sample_struct three_bytes (omega arith) (omega arith)
      (omega arith, (omega arith, (omega arith, (omega arith, tt)))) (omega arith)

deserialize_first-serialize_example :
    deserialize_first little (serialize_first little local_info ++ []) ≡ done local_info
deserialize_first-serialize_example =
    deserialize_first-serialize little local_info [] (omega arith) (omega arith)

deserialize_message-serialize_example :
    deserialize_message little (serialize_message big hello ++ three_bytes) ≡ done hello
deserialize_message-serialize_example =
    deserialize_message-serialize big little hello three_bytes (omega arith)

little-≢-big : little ≢ big
little-≢-big e = cc

first_port_swapped_example :
    deserialize_first big (serialize_first little local_info ++ [])
    ≡ done (record local_info {
      client_port = local_info.client_port % 256 * 256 + local_info.client_port / 256;
    })
first_port_swapped_example =
    first_port_swapped little big local_info [] little-≢-big (omega arith) (omega arith)

deserialize_message_overrun_example :
    deserialize_message little (net little 4 ++ three_bytes) ≡ fault
deserialize_message_overrun_example =
    deserialize_message_overrun little little 4 three_bytes (omega arith) (omega arith)
