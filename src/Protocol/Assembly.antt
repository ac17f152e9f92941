-- ===== src/Protocol/Assembly.antt =====
-- How an image is put together again: the case `udp_data::DataTypes::Image` of
-- AsioUdpManager::processPacket, of which BoostUdpConnection::prcsPacket has a copy. Its static
-- variables are the record; what is done with a whole image is the caller's.
pub mod Images
pub mod Truncation
pub mod Cutting
pub mod Copies
pub mod Swap
pub mod Order
pub mod Loss
use p2p_watcher.Base.{
  ℕ, ◌+◌, ◌-◌, ◌*◌, ◌%◌, ◌^◌, ◌==◌, leb, if◌then◌else◌, List, [], ◌∷◌, ◌++◌, length, take, drop,
  replicate, Outcome, done, fault, ◌>>=◌, Option, none, some,
}
use p2p_watcher.Protocol.Wire.{u32}
use p2p_watcher.Protocol.Packet.{Packet, max_size_udp}

pub record Assembly : Type 0 where
  pub assembly_buffer : List ℕ
  pub assembly_total_size : ℕ

abbrev pub idle : Assembly
idle = record { assembly_buffer = []; assembly_total_size = 0 }

-- `std::memcpy(buf.data() + offset, xs.data(), xs.size())`; outside the buffer it is undefined.
unfoldable pub copy_into : List ℕ → ℕ → List ℕ → Outcome (List ℕ)
copy_into buf offset xs =
    if leb (offset + length xs) (length buf)
    then done (take offset buf ++ (xs ++ drop (offset + length xs) buf))
    else fault

-- `if (pkt.header.isFirst == 1) { ... }`
unfoldable pub begin_image : Packet → Assembly → Assembly
begin_image pkt s =
    if pkt.header.is_first == 1
    then record {
      assembly_buffer = replicate pkt.header.total_data_size 0;
      assembly_total_size = pkt.header.total_data_size;
    }
    else s

-- `(pkt.header.cur_packet_number - 1) * MAX_SIZE_UDP` is an int, converted to u32.
unfoldable pub chunk_offset : ℕ → ℕ
chunk_offset cur_packet_number = u32 ((cur_packet_number + 2 ^ 32 - 1) * max_size_udp)

-- `if (pkt.header.isLast == 1) { ... }`, with the image that is passed on.
unfoldable pub end_image : Packet → Assembly → Assembly × Option (List ℕ)
end_image pkt s = if pkt.header.is_last == 1 then (idle, some s.assembly_buffer) else (s, none)

unfoldable pub assemble : Packet → Assembly → Outcome (Assembly × Option (List ℕ))
assemble pkt s =
    let s' = begin_image pkt s in
    do
      buffer ← copy_into s'.assembly_buffer (chunk_offset pkt.header.cur_packet_number) pkt.buffer
      done (end_image pkt (record s' { assembly_buffer = buffer }))

abbrev pub cons_some : Option (List ℕ) → List (List ℕ) → List (List ℕ)
cons_some none xs = xs
cons_some (some x) xs = x ∷ xs

-- A sequence of packets, and the images that it completes.
unfoldable pub assemble_all : List Packet → Assembly → Outcome (Assembly × List (List ℕ))
assemble_all [] s = done (s, [])
assemble_all (pkt ∷ pkts) s = do
  (s', image) ← assemble pkt s
  (s'', images) ← assemble_all pkts s'
  done (s'', cons_some image images)
