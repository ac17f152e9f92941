-- ===== src/Tests.antt =====
-- Concrete inputs: small payloads, and a server and a client with open sockets of the loopback
-- network. The modules below run the theorems on them.
pub mod OnProtocol
pub mod OnServer
pub mod OnClient
pub mod OnCrc
pub mod OnOrder
pub mod OnVisits
pub mod OnWindow
pub mod OnSystem
use p2p_watcher.Base.{codes, ℕ, true, false, List, [], ◌∷◌, replicate, arith}
use p2p_watcher.Console.{Console}
use p2p_watcher.Network.Loopback.{loopback}
use p2p_watcher.Protocol.GroupData.{TestMessage, FirstData, TestStruct}
use p2p_watcher.Protocol.Packet.{Packet, IsPacket, fresh_header}
use p2p_watcher.Protocol.Assembly.{Assembly, idle}
use p2p_watcher.Server.Session.{Session, reading_size}
use p2p_watcher.Server.Udp.{ClientInfo, UdpManager}
use p2p_watcher.Server.Tcp.{TcpManager}
use p2p_watcher.Client.Udp.{UdpConnection}
use p2p_watcher.Client.Tcp.{TcpConnection}

abbrev pub three_bytes : List ℕ
three_bytes = 7 ∷ 8 ∷ 9 ∷ []

-- An image of 1500 bytes takes two packets, one of 1460 bytes takes one.
abbrev pub two_chunks : List ℕ
two_chunks = replicate 1500 5

abbrev pub one_chunk : List ℕ
one_chunk = replicate 1460 5

-- What an earlier image left behind.
abbrev pub interrupted : Assembly
interrupted = record { assembly_buffer = three_bytes; assembly_total_size = 3 }

abbrev pub hello : TestMessage
hello = record { message = 104 ∷ 105 ∷ [] }

abbrev pub local_info : FirstData
local_info = record { client_addr = 127 ∷ 1 ∷ []; client_port = 1122 }

abbrev pub sample_struct : TestStruct
sample_struct = record {
  a = 116 ∷ 101 ∷ [];
  b = 1;
  c = 4604930618986332160;
  d = 0 ∷ 2 ∷ 6 ∷ 12 ∷ [];
}

abbrev pub sample_packet : Packet
sample_packet = record {
  header = record fresh_header {
    total_data_size = 3;
    cur_packet_number = 1;
    is_first = 1;
    is_last = 1;
  };
  d_type = 1;
  buffer = three_bytes;
}

abbrev pub no_console : Console
no_console = record { out = []; err = [] }

abbrev pub local_client : ClientInfo
local_client = record { addr = 127 ∷ 1 ∷ []; port = 5000 }

abbrev pub udp_server : UdpManager loopback
udp_server = record {
  socket = true;
  receiving = true;
  buffer = replicate 1472 0;
  cl = (0, local_client) ∷ [];
  assembly = interrupted;
  sent = [];
  console = no_console;
}

abbrev pub waiting_session : Session loopback
waiting_session = record {
  socket = true;
  size = 0;
  buffer = [];
  cur_client_id = 0;
  phase = reading_size;
  written = [];
}

abbrev pub tcp_server : TcpManager loopback
tcp_server = record {
  acceptor = true;
  accepting = true;
  udp = udp_server;
  cl = (0, waiting_session) ∷ [];
  next_id = 1;
  timer = true;
}

abbrev pub udp_client : UdpConnection loopback
udp_client = record {
  socket = true;
  receiving = true;
  buffer = [];
  assembly = idle;
  images = [];
  sent = [];
  console = no_console;
}

abbrev pub tcp_client : TcpConnection loopback
tcp_client = record {
  server_addr = 127 ∷ [];
  socket = true;
  resolving = false;
  connecting = false;
  size = 0;
  buffer = [];
  phase = reading_size;
  written = [];
  udp = udp_client;
}

pub sample_packet-IsPacket : IsPacket sample_packet
sample_packet-IsPacket = record {
  hash_word = omega arith;
  size_word = omega arith;
  count_word = omega arith;
  number_word = omega arith;
  packet_size_word = omega arith;
  first_byte = omega arith;
  last_byte = omega arith;
  compressed_byte = omega arith;
  type_word = omega arith;
}

-- An image of two whole packets.
abbrev pub two_packets : List ℕ
two_packets = replicate 2944 7

abbrev pub short_text : TestMessage
short_text = record { message = codes "hi" }

abbrev pub long_text : TestMessage
long_text = record { message = replicate 1452 65 }
