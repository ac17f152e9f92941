-- ===== src/Protocol/Sender/Chunks.antt =====
-- The packets of a payload are its consecutive pieces of at most 1472 bytes.
use native.Mathlib.Nat.{mod-eq_of_lt}
use native.Mathlib.Decide.{dec_le}
use p2p_watcher.Base.{
  All, ◌≤◌, ℕ, zero, suc, ◌+◌, ◌*◌, ◌/◌, ◌%◌, ◌^◌, ◌<◌, ◌≡◌, refl, ap, ◌∙◌, sym, ◌⊎◌, inl, inr,
  false, List, [], ◌∷◌, ◌++◌, length, take, drop, done, arith, lt→ltb, le→leb, take-append-drop,
  append_assoc, length-append, length-drop, length-take, ◌==◌, leb, min, if◌then◌else◌,
  drop-length-append,
}
use p2p_watcher.Protocol.Wire.{u16, u32}
use p2p_watcher.Protocol.Packet.{Packet, IsPacket}
use p2p_watcher.Protocol.Sender.{packet_count, chunk_size, packet_at, packets_from, packets_of}

-- The packet of number `idx`, counted from 0, out of `cnt`, that carries `piece` of `total` bytes.
abbrev pub expected_packet : ℕ → ℕ → ℕ → ℕ → List ℕ → Packet
expected_packet data_type total cnt idx piece = record {
  header = record {
    server_hash = 1337;
    total_data_size = total;
    total_cnt_packets = u16 cnt;
    cur_packet_number = u16 (idx + 1);
    cur_packet_size = 17 + length piece;
    is_first = if idx == 0 then 1 else 0;
    is_last = if idx + 1 == cnt then 1 else 0;
    is_compressed = 0;
  };
  d_type = u16 data_type;
  buffer = piece;
}

-- The packets from number `idx` on, if `rest` is what the packets before have not carried.
abbrev pub Carries : ℕ → ℕ → ℕ → ℕ → List ℕ → List Packet → Type 0
Carries data_type total cnt idx rest [] = (rest ≡ []) × (idx ≡ cnt)
Carries data_type total cnt idx rest (p ∷ ps) =
    (0 < length rest)
    × (p ≡ expected_packet data_type total cnt idx (take 1472 rest))
    × Carries data_type total cnt (idx + 1) (drop 1472 rest) ps

packet_count_lem : (n : ℕ) → n + 1471 < 2 ^ 32 → packet_count n ≡ (n + 1471) / 1472
unfolding packet_count
packet_count_lem n h = omega arith

take-min : (k : ℕ) (xs : List ℕ) → take (min k (length xs)) xs ≡ take k xs
take-min zero xs = let e : min 0 (length xs) ≡ 0 = omega arith in rw e refl
take-min (suc k) [] = let e : min (suc k) 0 ≡ 0 = omega arith in rw e refl
take-min (suc k) (x ∷ xs) =
    let e : min (suc k) (suc (length xs)) ≡ suc (min k (length xs)) = omega arith in
    rw e (ap (◌∷◌ x) (take-min k xs))

-- `pre` is carried by the packets before number `idx`, and `rest` is not carried yet.
record IsCut (whole : List ℕ) (cnt idx : ℕ) (pre rest : List ℕ) : Type 0 where
  split : whole ≡ pre ++ rest
  carried : (length pre ≡ 1472 * idx) ⊎ (length rest ≡ 0)
  small : length whole < 2 ^ 31
  count : cnt ≡ (length whole + 1471) / 1472

length_whole :
    {whole pre rest : List ℕ} {cnt idx : ℕ}
    → IsCut whole cnt idx pre rest
    → length whole ≡ length pre + length rest
length_whole {pre} {rest} cut = ap length cut.split ∙ length-append pre rest

IsCut-next :
    {whole pre rest : List ℕ} {cnt idx : ℕ}
    → IsCut whole cnt idx pre rest
    → IsCut whole cnt (idx + 1) (pre ++ take 1472 rest) (drop 1472 rest)
IsCut-next {pre} {rest} {idx} cut = record {
  split =
      cut.split
      ∙ (ap (◌++◌ pre) (sym (take-append-drop 1472 rest))
          ∙ sym (append_assoc pre (take 1472 rest) (drop 1472 rest)));
  carried = carried_next;
  small = cut.small;
  count = cut.count;
}
  where
    carried_next :
        (length (pre ++ take 1472 rest) ≡ 1472 * (idx + 1)) ⊎ (length (drop 1472 rest) ≡ 0)
    carried_next = elim (dec_le (length rest) 1472) [
      | yes all ↦ inr (omega (arith, length-drop 1472 rest))
      | no more ↦
          inl
            (omega (arith, cut.carried, length-append pre (take 1472 rest), length-take 1472 rest))
    ]

module _ (data_type : ℕ) (whole pre rest : List ℕ) (idx cnt : ℕ)
    (cut : IsCut whole cnt idx pre rest) (some_left : 0 < length rest) where
  last_iff : (idx + 1 == cnt) ≡ leb (length rest) 1472
  last_iff = ground (arith, length_whole cut, cut.carried, cut.count)

  chunk_size_lem : chunk_size data_type whole (length whole) cnt false idx ≡ min 1472 (length rest)
  unfolding chunk_size
  chunk_size_lem = ground (arith, length_whole cut, cut.carried, cut.count, cut.small)

  drop_pre : drop (idx * 1472) whole ≡ rest
  drop_pre =
      let e : idx * 1472 ≡ length pre = omega (arith, cut.carried) in
      rw (e, cut.split) (drop-length-append pre rest)

  packet_at_lem :
      packet_at data_type whole (length whole) cnt false idx
      ≡ done (expected_packet data_type (length whole) cnt idx (take 1472 rest))
  unfolding packet_at
  packet_at_lem =
      let total : length whole ≡ 1472 * idx + length rest =
        omega (arith, length_whole cut, cut.carried) in
      let number : u16 (u32 (idx + 1)) ≡ u16 (idx + 1) = omega (arith, total, cut.small) in
      let size : (17 + min 1472 (length rest)) % 2 ^ 16 ≡ 17 + length (take 1472 rest) =
        omega (arith, length-take 1472 rest) in
      rw
        (
          chunk_size_lem,
          drop_pre,
          take-min 1472 rest,
          lt→ltb (idx * 1472) (2 ^ 31) (omega (arith, total, cut.small)),
          le→leb (idx * 1472 + min 1472 (length rest)) (length whole) (omega (arith, total)),
          number,
          size,
        )
        refl

eq-nil : (xs : List ℕ) → length xs ≡ 0 → xs ≡ []
eq-nil [] h = refl
eq-nil (x ∷ xs) h = absurd (omega arith)

-- The packets that one run of the loop makes, from number `idx` on.
abbrev Sent : ℕ → List ℕ → ℕ → ℕ → ℕ → List ℕ → Type 0
Sent data_type whole cnt left idx rest =
    (ps : List Packet) × (packets_from data_type whole (length whole) cnt false left idx ≡ done ps)
    × Carries data_type (length whole) cnt idx rest ps

Sent-next :
    (data_type : ℕ) (whole pre rest : List ℕ) (cnt left idx : ℕ)
    → IsCut whole cnt idx pre rest
    → 0 < length rest
    → Sent data_type whole cnt left (idx + 1) (drop 1472 rest)
    → Sent data_type whole cnt (suc left) idx rest
unfolding packets_from
Sent-next data_type whole pre rest cnt left idx cut some_left (ps, runs, carried) = (
  expected_packet data_type (length whole) cnt idx (take 1472 rest) ∷ ps,
  rw (packet_at_lem data_type whole pre rest idx cnt cut some_left, runs) refl,
  (some_left, refl, carried),
)

packets_from-Sent :
    (data_type : ℕ) (whole pre rest : List ℕ) (cnt left idx : ℕ)
    → IsCut whole cnt idx pre rest
    → idx + left ≡ cnt
    → (length rest + 1471) / 1472 ≡ left
    → Sent data_type whole cnt left idx rest
unfolding packets_from
packets_from-Sent data_type whole pre rest cnt zero idx cut total rounds =
    ([], refl, (eq-nil rest (omega arith), omega arith))
packets_from-Sent data_type whole pre rest cnt (suc left) idx cut total rounds =
    Sent-next data_type whole pre rest cnt left idx cut (omega arith) (
      packets_from-Sent data_type whole (pre ++ take 1472 rest) (drop 1472 rest) cnt left (idx + 1)
        (IsCut-next cut) (omega arith) (omega (arith, length-drop 1472 rest)))

-- A payload of fewer than 2 ^ 31 bytes is cut into packets that carry its consecutive pieces of
-- 1472 bytes, the last one what is left: none for the empty payload, each with the header that
-- numbers it from 1, gives the whole size and marks the first and the last.
pub packets_of-Carries :
    (data_type : ℕ) (buf : List ℕ)
    → length buf < 2 ^ 31
    → (ps : List Packet) × (packets_of data_type buf ≡ done ps)
      × Carries data_type (length buf) ((length buf + 1471) / 1472) 0 buf ps
unfolding packets_of
packets_of-Carries data_type buf h =
    let cnt : ℕ = (length buf + 1471) / 1472 in
    let whole : IsCut buf cnt 0 [] buf = record {
      split = refl;
      carried = inl refl;
      small = h;
      count = refl;
    } in
    rw
      (
        mod-eq_of_lt {n = length buf} {m = 2 ^ 32} (omega arith),
        packet_count_lem (length buf) (omega arith),
      )
      (packets_from-Sent data_type buf [] buf cnt cnt 0 whole (omega arith) refl)

-- What a receiver checks of each packet of a payload, and that its fields fit their types.
pub record IsOwn (data_type : ℕ) (p : Packet) : Type 0 where
  pub fits : IsPacket p
  pub hash : p.header.server_hash ≡ 1337
  pub kind : p.d_type ≡ u16 data_type

pub expected_packet-IsOwn :
    (data_type total cnt idx : ℕ) (piece : List ℕ)
    → total < 2 ^ 32
    → length piece ≤ 1472
    → IsOwn data_type (expected_packet data_type total cnt idx piece)
expected_packet-IsOwn data_type total cnt idx piece small short = record {
  fits = record {
    hash_word = omega arith;
    size_word = omega arith;
    count_word = omega arith;
    number_word = omega arith;
    packet_size_word = omega arith;
    first_byte = ground arith;
    last_byte = ground arith;
    compressed_byte = omega arith;
    type_word = omega arith;
  };
  hash = refl;
  kind = refl;
}

pub Carries-IsOwn :
    (data_type total cnt idx : ℕ) (rest : List ℕ) (ps : List Packet)
    → total < 2 ^ 32
    → Carries data_type total cnt idx rest ps
    → All (IsOwn data_type) ps
Carries-IsOwn data_type total cnt idx rest [] small c = tt
Carries-IsOwn data_type total cnt idx rest (p ∷ ps) small (some_left, e, c) = (
  rw e (
      expected_packet-IsOwn data_type total cnt idx (take 1472 rest) small
        (omega (arith, length-take 1472 rest))),
  Carries-IsOwn data_type total cnt (idx + 1) (drop 1472 rest) ps small c,
)
