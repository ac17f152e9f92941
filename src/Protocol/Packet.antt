-- ===== src/Protocol/Packet.antt =====
-- proto_project of Server/include/ClientSession.h: the packet and its encoding, and the decoding
-- that every processPacket starts with.
pub mod RoundTrip
pub mod Layout
use p2p_watcher.Base.{ℕ, ◌+◌, ◌^◌, ◌<◌, List, [], ◌++◌, Outcome}
use p2p_watcher.Protocol.Wire.{Endian, bytes_of}
use p2p_watcher.Protocol.Reader.{Reader, pure, ◌>>=◌, run, remaining, next_number}

abbrev pub server_hash_value : ℕ
server_hash_value = 1337

abbrev pub server_port : ℕ
server_port = 1122

abbrev pub buffer_size : ℕ
buffer_size = 1472

abbrev pub max_size_udp : ℕ
max_size_udp = 1472

pub record PacketHeader : Type 0 where
  pub server_hash : ℕ
  pub total_data_size : ℕ
  pub total_cnt_packets : ℕ
  pub cur_packet_number : ℕ
  pub cur_packet_size : ℕ
  pub is_first : ℕ
  pub is_last : ℕ
  pub is_compressed : ℕ

-- `PacketHeader{}`, by the initializers of the fields.
abbrev pub fresh_header : PacketHeader
fresh_header = record {
  server_hash = server_hash_value;
  total_data_size = 0;
  total_cnt_packets = 0;
  cur_packet_number = 0;
  cur_packet_size = 0;
  is_first = 0;
  is_last = 0;
  is_compressed = 0;
}

-- sizeof(PacketHeader) under `#pragma pack(1)`, and sizeof(u16) for the type behind it.
abbrev pub header_size : ℕ
header_size = 2 + 4 + 2 + 2 + 2 + 1 + 1 + 1

abbrev pub type_size : ℕ
type_size = 2

pub record Packet : Type 0 where
  pub header : PacketHeader
  pub d_type : ℕ
  pub buffer : List ℕ

module _ (host : Endian) where
  unfoldable pub front : PacketHeader → ℕ → List ℕ
  front h d_type =
      bytes_of host 2 h.server_hash
      ++ (bytes_of host 4 h.total_data_size
          ++ (bytes_of host 2 h.total_cnt_packets
              ++ (bytes_of host 2 h.cur_packet_number
                  ++ (bytes_of host 2 h.cur_packet_size
                      ++ (bytes_of host 1 h.is_first
                          ++ (bytes_of host 1 h.is_last
                              ++ (bytes_of host 1 h.is_compressed ++ bytes_of host 2 d_type)))))))

  unfoldable pub serialize : Packet → List ℕ
  unfolding front
  serialize pkt = front pkt.header pkt.d_type ++ pkt.buffer

  unfoldable pub read_front : Reader (PacketHeader × ℕ)
  unfolding next_number
  read_front = do
    server_hash ← next_number (2 ^ 32) host 2
    total_data_size ← next_number (2 ^ 32) host 4
    total_cnt_packets ← next_number (2 ^ 32) host 2
    cur_packet_number ← next_number (2 ^ 32) host 2
    cur_packet_size ← next_number (2 ^ 32) host 2
    is_first ← next_number (2 ^ 32) host 1
    is_last ← next_number (2 ^ 32) host 1
    is_compressed ← next_number (2 ^ 32) host 1
    d_type ← next_number (2 ^ 32) host 2
    pure (
      record {
        server_hash = server_hash;
        total_data_size = total_data_size;
        total_cnt_packets = total_cnt_packets;
        cur_packet_number = cur_packet_number;
        cur_packet_size = cur_packet_size;
        is_first = is_first;
        is_last = is_last;
        is_compressed = is_compressed;
      },
      d_type,
    )

  -- The memcpy calls of processPacket, then `pkt.buffer.assign(buf.begin() + offset, buf.end())`.
  unfoldable pub parse : List ℕ → Outcome Packet
  unfolding read_front remaining
  parse = run do
    fields ← read_front
    buffer ← remaining
    pure (record { header = fields.0; d_type = fields.1; buffer = buffer })

-- The fields fit their C++ types.
pub record IsPacket (p : Packet) : Type 0 where
  pub hash_word : p.header.server_hash < 2 ^ 16
  pub size_word : p.header.total_data_size < 2 ^ 32
  pub count_word : p.header.total_cnt_packets < 2 ^ 16
  pub number_word : p.header.cur_packet_number < 2 ^ 16
  pub packet_size_word : p.header.cur_packet_size < 2 ^ 16
  pub first_byte : p.header.is_first < 2 ^ 8
  pub last_byte : p.header.is_last < 2 ^ 8
  pub compressed_byte : p.header.is_compressed < 2 ^ 8
  pub type_word : p.d_type < 2 ^ 16
