-- ===== src/Server/Crc/Modes.antt =====
-- The two modes of CalcCrc agree, and what the CRC of a message detects.
use Prim.Native.Nat.{bit_xor}
use native.Mathlib.Nat.{mod-eq_of_lt}
use p2p_watcher.Base.{
  ℕ, ◌*◌, ◌/◌, ◌%◌, ◌^◌, ◌<◌, ◌≤◌, ◌≡◌, refl, ◌∙◌, sym, List, [], ◌∷◌, ◌++◌, length, All, done,
  arith,
}
use p2p_watcher.Base.Xor.{xor-zero, xor_self, xor-mod_word, xor-mod_byte}
use p2p_watcher.Protocol.Wire.{u16, u8}
use p2p_watcher.Server.Crc.{
  func, table, crc_bits, calc_func, get_elem, calc_table, load_table, calc_crc,
}
use p2p_watcher.Server.Crc.Bounds.{crc_bits-Word, calc_func-Word}
use p2p_watcher.Server.Crc.Linear.{crc_bits-low_byte, crc_bits-byte}

-- Entry `i` is the register after the byte `i`.
abbrev pub IsTable : List ℕ → Type 0
IsTable tbl = (i : ℕ) → i < 2 ^ 8 → get_elem tbl i ≡ done (crc_bits 8 (i * 2 ^ 8))

xor-IsByte : (a b : ℕ) → a < 2 ^ 8 → b < 2 ^ 8 → bit_xor a b < 2 ^ 8
xor-IsByte a b h k =
    let e : bit_xor a b % 2 ^ 8 ≡ bit_xor a b =
      rw (xor-mod_byte a b, mod-eq_of_lt h, mod-eq_of_lt k) refl in
    omega (arith, e)

calc_table-eq-calc_func :
    (tbl : List ℕ) (crc : ℕ) (bytes : List ℕ)
    → IsTable tbl
    → crc < 2 ^ 16
    → All (λ b. b < 2 ^ 8) bytes
    → calc_table tbl crc bytes ≡ done (calc_func crc bytes)
unfolding calc_table calc_func
calc_table-eq-calc_func tbl crc [] right h bs = refl
calc_table-eq-calc_func tbl crc (byte ∷ bytes) right h (b, bs) =
    let hi : ℕ = crc / 2 ^ 8 in
    let small = xor-IsByte hi byte (omega arith) b in
    let entry : ℕ = crc_bits 8 (bit_xor hi byte * 2 ^ 8) in
    let index : u8 (bit_xor hi byte) ≡ bit_xor hi byte = mod-eq_of_lt small in
    let kept : u16 (crc * 2 ^ 8) ≡ crc % 2 ^ 8 * 2 ^ 8 = omega arith in
    let next : u16 (bit_xor (crc * 2 ^ 8) entry) ≡ crc_bits 8 (bit_xor crc (byte * 2 ^ 8)) =
      xor-mod_word (crc * 2 ^ 8) entry
      ∙ ((rw (kept, mod-eq_of_lt (crc_bits-Word 7 (bit_xor hi byte * 2 ^ 8))) refl)
          ∙ sym (crc_bits-byte crc byte)) in
    rw (index, right (bit_xor hi byte) small, next)
      (calc_table-eq-calc_func tbl (crc_bits 8 (bit_xor crc (byte * 2 ^ 8))) bytes right
        (crc_bits-Word 7 (bit_xor crc (byte * 2 ^ 8))) bs)

-- With a file that holds the table of the polynomial, of at least 256 entries, the mode `table`
-- gives every message of bytes the CRC that the mode `func` gives it.
pub calc_crc-table-eq-func :
    (lines : List (List ℕ)) (tbl bytes : List ℕ)
    → load_table lines ≡ done tbl
    → 256 ≤ length tbl
    → IsTable tbl
    → All (λ b. b < 2 ^ 8) bytes
    → calc_crc lines table bytes ≡ calc_crc lines func bytes
unfolding calc_crc
calc_crc-table-eq-func lines tbl bytes loaded full right bs =
    rw loaded (ground (arith, calc_table-eq-calc_func tbl 0 bytes right (omega arith) bs))

pub calc_func-append :
    (crc : ℕ) (xs ys : List ℕ) → calc_func crc (xs ++ ys) ≡ calc_func (calc_func crc xs) ys
unfolding calc_func
calc_func-append crc [] ys = refl
calc_func-append crc (x ∷ xs) ys = calc_func-append (crc_bits 8 (bit_xor crc (x * 2 ^ 8))) xs ys

crc_bits-zero : crc_bits 8 0 ≡ 0
crc_bits-zero = crc_bits-low_byte 0 (omega arith)

residue_from : (crc : ℕ) → crc < 2 ^ 16 → calc_func crc (crc / 2 ^ 8 ∷ crc % 2 ^ 8 ∷ []) ≡ 0
unfolding calc_func
residue_from crc h =
    let first : crc_bits 8 (bit_xor crc (crc / 2 ^ 8 * 2 ^ 8)) ≡ crc % 2 ^ 8 * 2 ^ 8 =
      crc_bits-byte crc (crc / 2 ^ 8)
      ∙ (rw (xor_self (crc / 2 ^ 8), crc_bits-zero) (xor-zero (crc % 2 ^ 8 * 2 ^ 8))) in
    rw (first, xor_self (crc % 2 ^ 8 * 2 ^ 8)) crc_bits-zero

-- A message with its own CRC behind it, the high byte first, has the CRC 0.
pub calc_func_residue :
    (bytes : List ℕ)
    → calc_func 0 (bytes ++ (calc_func 0 bytes / 2 ^ 8 ∷ calc_func 0 bytes % 2 ^ 8 ∷ [])) ≡ 0
calc_func_residue bytes =
    calc_func-append 0 bytes _
    ∙ residue_from (calc_func 0 bytes) (calc_func-Word 0 bytes (omega arith))
