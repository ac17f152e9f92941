-- ===== src/Protocol/Sender.antt =====
-- How a payload is cut into datagrams: the body of the loop over the clients in
-- AsioUdpManager::broadCast, of which BoostUdpConnection::sendData has a copy.
pub mod Chunks
pub mod Datagrams
pub mod Single
use p2p_watcher.Base.{
  ℕ, zero, suc, ◌+◌, ◌-◌, ◌*◌, ◌/◌, ◌%◌, ◌^◌, ◌==◌, ltb, leb, if◌then◌else◌, Bool, true, false,
  ◌&&◌, not, List, [], ◌∷◌, length, take, drop, Outcome, done, fault, ◌>>=◌,
}
use p2p_watcher.Protocol.Wire.{Endian, u16, u32}
use p2p_watcher.Protocol.Packet.{
  PacketHeader, Packet, serialize, server_hash_value, header_size, type_size, max_size_udp,
}

-- The lambda `makeHeader`; the assignments to the u16 fields cut the numbers.
unfoldable pub make_header : ℕ → ℕ → ℕ → ℕ → Bool → Bool → Bool → PacketHeader
make_header all_send_data_size cur_packet_number count_all_packets cur_packet_full_size is_f is_e
      is_c =
    record {
      server_hash = server_hash_value;
      total_data_size = all_send_data_size;
      total_cnt_packets = u16 count_all_packets;
      cur_packet_number = u16 (u32 (cur_packet_number + 1));
      cur_packet_size = u16 cur_packet_full_size;
      is_first = if is_f then 1 else 0;
      is_last = if is_e then 1 else 0;
      is_compressed = if is_c then 1 else 0;
    }

-- The lambda `compressData`, whose body is commented out but for `return {}`.
unfoldable pub compress_data : List ℕ → List ℕ
compress_data input = []

abbrev pub is_empty : List ℕ → Bool
is_empty [] = true
is_empty (x ∷ xs) = false

unfoldable pub use_compression : List ℕ → List ℕ → Bool
use_compression compressed buf = not (is_empty compressed) && ltb (length compressed) (length buf)

-- `(sendTotalSize + MAX_SIZE_UDP - 1) / MAX_SIZE_UDP`, in unsigned arithmetic.
unfoldable pub packet_count : ℕ → ℕ
packet_count send_total_size =
    u32 (u32 (send_total_size + max_size_udp) + 2 ^ 32 - 1) / max_size_udp

module _ (data_type : ℕ) (data_to_send : List ℕ) (send_total_size cnt : ℕ) (compressed : Bool) where
  -- `last ? sendTotalSize - MAX_SIZE_UDP * idx : MAX_SIZE_UDP`
  unfoldable pub chunk_size : ℕ → ℕ
  chunk_size idx =
      if idx + 1 == cnt
      then u32 (send_total_size + 2 ^ 32 - u32 (max_size_udp * idx))
      else max_size_udp

  -- One round of the loop. `idx * MAX_SIZE_UDP` is an int, whose overflow is undefined, and so is
  -- an iterator behind the end of the data.
  unfoldable pub packet_at : ℕ → Outcome Packet
  unfolding make_header
  packet_at idx =
      let chunk = chunk_size idx in
      let offset = idx * max_size_udp in
      let pkt : Packet = record {
        header =
            make_header send_total_size idx cnt (header_size + type_size + chunk) (idx == 0)
              (idx + 1 == cnt) compressed;
        d_type = u16 data_type;
        buffer = take chunk (drop offset data_to_send);
      } in
      if ltb offset (2 ^ 31) && leb (offset + chunk) (length data_to_send) then done pkt else fault

  -- `for (auto idx{0}; idx < cnt; ++idx)`, with the rounds that are left.
  unfoldable pub packets_from : ℕ → ℕ → Outcome (List Packet)
  packets_from zero idx = done []
  packets_from (suc left) idx = do
    pkt ← packet_at idx
    rest ← packets_from left (idx + 1)
    done (pkt ∷ rest)

-- The packets of one payload.
unfoldable pub packets_of : ℕ → List ℕ → Outcome (List Packet)
unfolding compress_data use_compression
packets_of data_type buf =
    let compressed_data = compress_data buf in
    let compressed = use_compression compressed_data buf in
    let data_to_send = if compressed then compressed_data else buf in
    let send_total_size = u32 (length data_to_send) in
    let cnt = packet_count send_total_size in
    packets_from data_type data_to_send send_total_size cnt compressed cnt 0

-- A datagram that was handed to `async_send_to`.
pub record Datagram : Type 0 where
  pub address : ℕ
  pub port : ℕ
  pub bytes : List ℕ

abbrev pub datagrams : Endian → ℕ → ℕ → List Packet → List Datagram
datagrams host address port [] = []
datagrams host address port (pkt ∷ pkts) =
    record { address = address; port = port; bytes = serialize host pkt }
    ∷ datagrams host address port pkts
