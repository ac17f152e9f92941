-- ===== src/Client/Headers.antt =====
-- Client/include/GroupData.h and the packet of Client/include/connection.h, the client's copies of
-- the protocol headers. The text is that of the server's, modelled in Protocol, but for the type
-- of the offset in `TestStruct::deserialize`, a size_t here.
use p2p_watcher.Base.{ℕ, ◌^◌, List, Outcome}
use p2p_watcher.Protocol.Wire.{Endian}
use p2p_watcher.Protocol.Reader.{run}
use p2p_watcher.Protocol.GroupData
use p2p_watcher.Protocol.GroupData.{TestMessage, FirstData, TestStruct, read_struct}
use p2p_watcher.Protocol.Packet
use p2p_watcher.Protocol.Packet.{Packet}

-- The constants of namespace Constants.
abbrev pub server_hash_value : ℕ
server_hash_value = 1337

abbrev pub server_port : ℕ
server_port = 1122

abbrev pub buffer_size : ℕ
buffer_size = 1472

module _ (host : Endian) where
  unfoldable pub serialize_message : TestMessage → List ℕ
  serialize_message = GroupData.serialize_message host

  unfoldable pub deserialize_message : List ℕ → Outcome TestMessage
  deserialize_message = GroupData.deserialize_message host

  unfoldable pub serialize_first : FirstData → List ℕ
  serialize_first = GroupData.serialize_first host

  unfoldable pub deserialize_first : List ℕ → Outcome FirstData
  deserialize_first = GroupData.deserialize_first host

  unfoldable pub serilize : TestStruct → List ℕ
  serilize = GroupData.serilize host

  unfoldable pub deserialize_struct : List ℕ → Outcome TestStruct
  deserialize_struct buf = run (read_struct host (2 ^ 64)) buf

  unfoldable pub serialize_packet : Packet → List ℕ
  serialize_packet = Packet.serialize host
