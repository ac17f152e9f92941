-- ===== src/Tests/OnOrder.antt =====
-- The packets of an image of four, in other orders, with losses and with those of another image.
use mathlib.Core.List.Perm
use p2p_watcher.Base.{
  if◌then◌else◌, leb, ℕ, ◌+◌, ◌*◌, ◌/◌, ◌≡◌, refl, List, [], ◌∷◌, ◌++◌, All, length, take, drop,
  replicate, done, fault, arith,
}
use p2p_watcher.Protocol.Wire.{little, big}
use p2p_watcher.Protocol.Packet.{Packet, IsPacket, parse}
use p2p_watcher.Protocol.Packet.Layout.{packet_in, parse_layout}
use p2p_watcher.Protocol.Sender.{
  packets_of, packets_from, packet_count, packet_at, chunk_size, datagrams,
}
use p2p_watcher.Protocol.Sender.Chunks.{expected_packet}
use p2p_watcher.Protocol.Sender.Datagrams.{IsDatagram, packets_of-IsDatagram}
use p2p_watcher.Protocol.Assembly.{idle, assemble_all}
use p2p_watcher.Protocol.Assembly.Images.{zeros}
use p2p_watcher.Protocol.Assembly.Order.{assemble_all-reordered}
use p2p_watcher.Protocol.Assembly.Loss.{assemble_all-interleaved, assemble_all-ends_only}
use p2p_watcher.Tests.{three_bytes, interrupted}

abbrev four_chunks : List ℕ
four_chunks = replicate 4500 5

abbrev chunk : ℕ → List ℕ → Packet
chunk idx piece = expected_packet 1 4500 4 idx piece

abbrev full : ℕ → Packet
full idx = chunk idx (replicate 1472 5)

abbrev last : Packet
last = chunk 3 (replicate 84 5)

four_chunks_lem : packets_of 1 four_chunks ≡ done (full 0 ∷ full 1 ∷ full 2 ∷ last ∷ [])
unfolding packets_of packets_from packet_count packet_at chunk_size
four_chunks_lem = refl

abbrev three : Packet
three = expected_packet 1 3 1 0 three_bytes

three_bytes_lem : packets_of 1 three_bytes ≡ done (three ∷ [])
unfolding packets_of packets_from packet_count packet_at chunk_size
three_bytes_lem = refl

assemble_all-reordered_example :
    assemble_all (full 0 ∷ ((full 2 ∷ full 1 ∷ []) ++ last ∷ [])) interrupted
    ≡ done (idle, four_chunks ∷ [])
assemble_all-reordered_example =
    assemble_all-reordered 1 four_chunks interrupted (full 0) last (full 1 ∷ full 2 ∷ [])
      (full 2 ∷ full 1 ∷ []) (omega arith) four_chunks_lem (Perm.swap (full 2) (full 1) [])

assemble_all-interleaved_example :
    assemble_all (full 0 ∷ ((three ∷ []) ++ full 1 ∷ [])) interrupted ≡ fault
assemble_all-interleaved_example =
    assemble_all-interleaved 1 four_chunks three_bytes interrupted (full 0) (full 1)
      (full 2 ∷ last ∷ []) (three ∷ []) (omega arith) four_chunks_lem (omega arith) (omega arith)
      three_bytes_lem

assemble_all-ends_only_example :
    assemble_all (full 0 ∷ last ∷ []) interrupted
    ≡ done (
      idle,
      ((take 1472 four_chunks ++ zeros (1472 * 2)) ++ drop (1472 * (2 + 1)) four_chunks) ∷ [],
    )
assemble_all-ends_only_example =
    assemble_all-ends_only 1 four_chunks interrupted (full 0) last (full 1 ∷ full 2 ∷ [])
      (omega arith) four_chunks_lem

packets_of-IsDatagram_example :
    (ps : List Packet) × (packets_of 1 three_bytes ≡ done ps)
    × All IsPacket ps
    × All (IsDatagram little 127 1122) (datagrams little 127 1122 ps)
    × (length (datagrams little 127 1122 ps) ≡ (length three_bytes + 1471) / 1472)
packets_of-IsDatagram_example =
    packets_of-IsDatagram little 127 1122 1 three_bytes (omega arith) (omega arith)

abbrev twenty : List ℕ
twenty = replicate 17 1 ++ three_bytes

parse_layout_example :
    parse big twenty ≡ (if leb 17 (length twenty) then done (packet_in big twenty) else fault)
parse_layout_example = parse_layout big twenty
