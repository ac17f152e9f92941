-- ===== src/Protocol/Packet/RoundTrip.antt =====
-- Decoding what was encoded, and packets too short to hold a header.
use native.Mathlib.Nat.{mod-eq_of_lt, zero-add}
use p2p_watcher.Base.{
  ℕ, ◌+◌, ◌^◌, ◌≤◌, ◌<◌, ◌≡◌, refl, ap, ◌∙◌, subst, List, [], ◌++◌, length, length-append, done,
  fault, arith, drop-length-append, le→leb,
}
use p2p_watcher.Protocol.Wire.{Endian, bytes_of}
use p2p_watcher.Protocol.Wire.Laws.{length-bytes_of, length-bytes_of-append, value_of-bytes_of}
use p2p_watcher.Protocol.Reader.{◌>>=◌, next_number, next}
use p2p_watcher.Protocol.Reader.Laws.{Reads, Reads-bind, Reads-map, Reads-number}
use p2p_watcher.Protocol.Packet.{
  Packet, PacketHeader, IsPacket, front, serialize, read_front, parse,
}

module _ (host : Endian) where
  Reads-field :
      (n x : ℕ) → x < 256 ^ n → Reads (2 ^ 32) (next_number (2 ^ 32) host n) (bytes_of host n x) x
  Reads-field n x h =
      subst (Reads (2 ^ 32) (next_number (2 ^ 32) host n) (bytes_of host n x))
        (value_of-bytes_of host n x ∙ mod-eq_of_lt h) (Reads-number (2 ^ 32) host n x host)

  Reads-front :
      (p : Packet)
      → IsPacket p
      → Reads (2 ^ 32) (read_front host) (front host p.header p.d_type) (p.header, p.d_type)
  unfolding read_front front
  Reads-front p v = Reads-bind (2 ^ 32) _ (Reads-field 2 p.header.server_hash v.hash_word) (
      Reads-bind (2 ^ 32) _ (Reads-field 4 p.header.total_data_size v.size_word) (
        Reads-bind (2 ^ 32) _ (Reads-field 2 p.header.total_cnt_packets v.count_word) (
          Reads-bind (2 ^ 32) _ (Reads-field 2 p.header.cur_packet_number v.number_word) (
            Reads-bind (2 ^ 32) _ (Reads-field 2 p.header.cur_packet_size v.packet_size_word) (
              Reads-bind (2 ^ 32) _ (Reads-field 1 p.header.is_first v.first_byte) (
                Reads-bind (2 ^ 32) _ (Reads-field 1 p.header.is_last v.last_byte) (
                  Reads-bind (2 ^ 32) _ (Reads-field 1 p.header.is_compressed v.compressed_byte)
                    (Reads-map (2 ^ 32) _ (Reads-field 2 p.d_type v.type_word)))))))))

  pub length-front : (h : PacketHeader) (d_type : ℕ) → length (front host h d_type) ≡ 17
  unfolding front
  length-front h d_type =
      rw
        (
          length-bytes_of-append host 2,
          length-bytes_of-append host 4,
          length-bytes_of-append host 2,
          length-bytes_of-append host 2,
          length-bytes_of-append host 2,
          length-bytes_of-append host 1,
          length-bytes_of-append host 1,
          length-bytes_of-append host 1,
        )
        (omega (arith, length-bytes_of host 2 d_type))

  pub length-serialize : (p : Packet) → length (serialize host p) ≡ 17 + length p.buffer
  unfolding serialize
  length-serialize p =
      length-append (front host p.header p.d_type) p.buffer
      ∙ ap (λ n. n + length p.buffer) (length-front p.header p.d_type)

  parse-append :
      {h : PacketHeader} {d_type : ℕ} (bytes rest : List ℕ)
      → Reads (2 ^ 32) (read_front host) bytes (h, d_type)
      → length bytes ≡ 17
      → parse host (bytes ++ rest) ≡ done (record { header = h; d_type = d_type; buffer = rest })
  unfolding parse
  parse-append bytes rest r e =
      let fits : length bytes ≤ length (bytes ++ rest) = omega (arith, length-append bytes rest) in
      rw
        (
          ◌>>=◌,
          r.apply [] rest (omega arith),
          ◌>>=◌,
          zero-add (length bytes),
          le→leb (length bytes) (length (bytes ++ rest)) fits,
          drop-length-append bytes rest,
        )
        refl

  -- The front of a packet is decoded in any buffer that begins with it.
  pub parse-front :
      (p : Packet) (rest : List ℕ)
      → IsPacket p
      → parse host (front host p.header p.d_type ++ rest) ≡ done (record p { buffer = rest })
  parse-front p rest v =
      parse-append (front host p.header p.d_type) rest (Reads-front p v)
        (length-front p.header p.d_type)

  -- A packet whose fields fit their types is decoded to itself, by a host of the same byte order.
  pub parse-serialize : (p : Packet) → IsPacket p → parse host (serialize host p) ≡ done p
  unfolding serialize
  parse-serialize p v = parse-front p p.buffer v

  -- A packet of fewer than 17 bytes is read beyond its end.
  pub parse-short : (buf : List ℕ) → length buf < 17 → parse host buf ≡ fault
  unfolding parse next
  parse-short buf h = ground arith
