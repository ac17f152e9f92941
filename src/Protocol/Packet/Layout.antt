-- ===== src/Protocol/Packet/Layout.antt =====
-- Where the fields of a packet lie in a buffer.
use p2p_watcher.Base.{
  if◌then◌else◌, leb, leb→le, Bool-cases, inl, inr, false, fault, ◌<◌, ℕ, ◌≤◌, ◌≡◌, refl, List,
  length, take, drop, done, arith, le→leb,
}
use p2p_watcher.Protocol.Wire.{Endian, value_of}
use p2p_watcher.Protocol.Reader.{◌>>=◌, next_number, next, remaining}
use p2p_watcher.Protocol.Packet.RoundTrip.{parse-short}
use p2p_watcher.Protocol.Packet.{Packet, read_front, parse}

module _ (host : Endian) where
  -- The number in the `n` bytes from `offset` on.
  abbrev pub field_at : ℕ → ℕ → List ℕ → ℕ
  field_at offset n buf = value_of host (take n (drop offset buf))

  abbrev pub packet_in : List ℕ → Packet
  packet_in buf = record {
    header = record {
      server_hash = field_at 0 2 buf;
      total_data_size = field_at 2 4 buf;
      total_cnt_packets = field_at 6 2 buf;
      cur_packet_number = field_at 8 2 buf;
      cur_packet_size = field_at 10 2 buf;
      is_first = field_at 12 1 buf;
      is_last = field_at 13 1 buf;
      is_compressed = field_at 14 1 buf;
    };
    d_type = field_at 15 2 buf;
    buffer = drop 17 buf;
  }

  pub parse-long : (buf : List ℕ) → 17 ≤ length buf → parse host buf ≡ done (packet_in buf)
  unfolding parse read_front next_number next remaining
  parse-long buf h =
      let fits = λ (k : ℕ) (small : k ≤ 17). le→leb k (length buf) (le_trans small h) in
      rw
        (
          ◌>>=◌,
          fits 2 (omega arith),
          fits 6 (omega arith),
          fits 8 (omega arith),
          fits 10 (omega arith),
          fits 12 (omega arith),
          fits 13 (omega arith),
          fits 14 (omega arith),
          fits 15 (omega arith),
          fits 17 (omega arith),
          ◌>>=◌,
          remaining,
          fits 17 (omega arith),
        )
        refl
    where
      le_trans : {a b c : ℕ} → a ≤ b → b ≤ c → a ≤ c
      le_trans p q = omega arith

  -- A buffer of at least 17 bytes is decoded without a read outside it: the fields lie one behind
  -- the other, in 2, 4, 2, 2, 2, 1, 1, 1 and 2 bytes, and the rest is the payload. A shorter buffer
  -- is read beyond its end.
  pub parse_layout :
      (buf : List ℕ)
      → parse host buf ≡ (if leb 17 (length buf) then done (packet_in buf) else fault)
  parse_layout buf = elim (Bool-cases (leb 17 (length buf))) [
    | inl e ↦ rw e (parse-long buf (leb→le 17 (length buf) e))
    | inr e ↦ rw e (parse-short host buf (short buf e))
  ]
    where
      short : (buf : List ℕ) → leb 17 (length buf) ≡ false → length buf < 17
      short buf e = ground (arith, e)
