-- ===== src/Server/Crc/Bounds.antt =====
-- The table is never read outside, and a CRC has 16 bits.
use Prim.Native.Nat.{bit_xor}
use p2p_watcher.Base.{
  ℕ, zero, suc, ◌-◌, ◌%◌, Option, none, some, ◌*◌, ◌/◌, ◌^◌, ◌<◌, ◌≤◌, ◌≡◌, ◌≢◌, refl, Bool, true,
  false, inl, inr, ◌⊎◌, List, [], ◌∷◌, length, ltb, if◌then◌else◌, Outcome, done, throws, fault,
  arith,
}
use p2p_watcher.Protocol.Wire.{u8, u16}
use p2p_watcher.Server.Crc.{
  ModeCrc, func, table, crc_bit, crc_bits, calc_func, get_elem, calc_table, signed, stoul,
  load_table, calc_crc,
}

crc_bit-Word : (crc : ℕ) → crc_bit crc < 2 ^ 16
unfolding crc_bit
crc_bit-Word crc = omega arith

pub crc_bits-Word : (left crc : ℕ) → crc_bits (suc left) crc < 2 ^ 16
unfolding crc_bits
crc_bits-Word zero crc = crc_bit-Word crc
crc_bits-Word (suc left) crc = crc_bits-Word left (crc_bit crc)

pub calc_func-Word : (crc : ℕ) (bytes : List ℕ) → crc < 2 ^ 16 → calc_func crc bytes < 2 ^ 16
unfolding calc_func
calc_func-Word crc [] h = h
calc_func-Word crc (byte ∷ bytes) h =
    calc_func-Word (crc_bits 8 (bit_xor crc (byte * 2 ^ 8))) bytes
      (crc_bits-Word 7 (bit_xor crc (byte * 2 ^ 8)))

get_elem-done : (xs : List ℕ) (i : ℕ) → i < length xs → (x : ℕ) × (get_elem xs i ≡ done x)
get_elem-done [] i h = absurd (omega (arith, h))
get_elem-done (x ∷ xs) zero h = (x, refl)
get_elem-done (x ∷ xs) (suc i) h = get_elem-done xs i (omega (arith, h))

calc_table-Word :
    (tbl : List ℕ) (crc : ℕ) (bytes : List ℕ)
    → 256 ≤ length tbl
    → crc < 2 ^ 16
    → (res : ℕ) × (calc_table tbl crc bytes ≡ done res) × (res < 2 ^ 16)
unfolding calc_table
calc_table-Word tbl crc [] full h = (crc, refl, h)
calc_table-Word tbl crc (byte ∷ bytes) full h =
    let (entry, found) =
      get_elem-done tbl (u8 (bit_xor (crc / 2 ^ 8) byte)) (omega (arith, full)) in
    rw found (calc_table-Word tbl (u16 (bit_xor (crc * 2 ^ 8) entry)) bytes full (omega arith))

-- What does not fault throws or returns.
abbrev Returns : {A : Type 0} → (A → Type 0) → Outcome A → Type 0
Returns {A} P m = (m ≡ throws) ⊎ ((a : A) × (m ≡ done a) × P a)

not_fault :
    (r : Bool × Option ℕ)
    → fault ≢ (
        let (negative, number) = r in
        elim number [
          | none ↦ throws
          | some n ↦
              if ltb n (2 ^ 64)
              then done (if negative then (2 ^ 64 - n) % 2 ^ 64 else n)
              else throws
        ])
not_fault (negative, none) e = cc
not_fault (negative, some n) e = ground (arith, e)

stoul-Returns : (s : List ℕ) → Returns (λ n. Unit) (stoul s)
stoul-Returns s = number_of (stoul s) refl
  where
    number_of : (r : Outcome ℕ) → r ≡ stoul s → Returns (λ n. Unit) r
    number_of throws e = inl refl
    number_of (done n) e = inr (n, refl, tt)
    number_of fault e = absurd (not_fault (signed s) e)

load_table-Returns : (lines : List (List ℕ)) → Returns (λ tbl. Unit) (load_table lines)
unfolding load_table
load_table-Returns [] = inr ([], refl, tt)
load_table-Returns ([] ∷ lines) = load_table-Returns lines
load_table-Returns ((c ∷ s) ∷ lines) = elim (stoul-Returns (c ∷ s)) [
  | inl e ↦ inl (rw e refl)
  | inr (num, e, _) ↦ elim (load_table-Returns lines) [
    | inl e' ↦ inl (rw (e, e') refl)
    | inr (tbl, e', _) ↦ inr (u16 num ∷ tbl, rw (e, e') refl, tt)
  ]
]

checked :
    (tbl bytes : List ℕ) (small : Bool)
    → small ≡ ltb (length tbl) 256
    → Returns (λ crc. crc < 2 ^ 16) (if small then throws else calc_table tbl 0 bytes)
checked tbl bytes true e = inl refl
checked tbl bytes false e = inr (calc_table-Word tbl 0 bytes (ground arith) (omega arith))

-- In both modes, whatever the file holds, the CRC of any bytes is computed without a read outside
-- the table: it throws, or returns a number of 16 bits.
pub calc_crc-Word :
    (lines : List (List ℕ)) (mode : ModeCrc) (bytes : List ℕ)
    → (calc_crc lines mode bytes ≡ throws)
      ⊎ ((crc : ℕ) × (calc_crc lines mode bytes ≡ done crc) × (crc < 2 ^ 16))
unfolding calc_crc
calc_crc-Word lines func bytes = inr (calc_func 0 bytes, refl, calc_func-Word 0 bytes (omega arith))
calc_crc-Word lines table bytes = elim (load_table-Returns lines) [
  | inl e ↦ inl (rw e refl)
  | inr (tbl, e, _) ↦ rw e (checked tbl bytes (ltb (length tbl) 256) refl)
]
