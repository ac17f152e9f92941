-- ===== src/Server/Crc/Linear.antt =====
-- The bitwise CRC is linear over exclusive or, and what that makes of one byte.
use Prim.Native.Nat.{bit_xor}
use p2p_watcher.Base.{
  ℕ, zero, suc, ◌*◌, ◌/◌, ◌%◌, ◌^◌, ◌<◌, ◌≡◌, refl, ◌∙◌, ap, sym, Bool, true, ◌&&◌, ◌==◌, ==_iff,
  if◌then◌else◌, ◌⊎◌, inl, inr, arith,
}
use p2p_watcher.Base.Xor.{
  xor_comm, xor_assoc, xor_cancel, xor_swap, xor_double, xor-mod_word, xor-top_bit, xor_bytes,
  xor_shifted,
}
use p2p_watcher.Protocol.Wire.{u16}
use p2p_watcher.Server.Crc.{crc_bit, crc_bits}

-- The register before it is cut to 16 bits.
abbrev shifted : ℕ → ℕ
shifted crc = if crc / 2 ^ 15 % 2 == 1 then bit_xor (crc * 2) 0x1021 else crc * 2

shifted-one : (crc : ℕ) → crc / 2 ^ 15 % 2 ≡ 1 → shifted crc ≡ bit_xor (crc * 2) 0x1021
shifted-one crc e = rw e refl

shifted-zero : (crc : ℕ) → crc / 2 ^ 15 % 2 ≡ 0 → shifted crc ≡ crc * 2
shifted-zero crc e = rw e refl

parity_cases : (x : ℕ) → (x % 2 ≡ 0) ⊎ (x % 2 ≡ 1)
parity_cases x = ground arith

shifted-xor : (a b : ℕ) → shifted (bit_xor a b) ≡ bit_xor (shifted a) (shifted b)
shifted-xor a b = elim (parity_cases (a / 2 ^ 15)) [
  | inl ea ↦ elim (parity_cases (b / 2 ^ 15)) [
    | inl eb ↦
        rw
          (
            shifted-zero (bit_xor a b) (omega (arith, xor-top_bit a b)),
            shifted-zero a ea,
            shifted-zero b eb,
          )
          (sym (xor_double a b))
    | inr eb ↦
        rw
          (
            shifted-one (bit_xor a b) (omega (arith, xor-top_bit a b)),
            shifted-zero a ea,
            shifted-one b eb,
            ← xor_double a b,
          )
          (xor_assoc (a * 2) (b * 2) 0x1021)
  ]
  | inr ea ↦ elim (parity_cases (b / 2 ^ 15)) [
    | inl eb ↦
        rw
          (
            shifted-one (bit_xor a b) (omega (arith, xor-top_bit a b)),
            shifted-one a ea,
            shifted-zero b eb,
            ← xor_double a b,
          )
          (xor_swap (a * 2) (b * 2) 0x1021)
    | inr eb ↦
        rw
          (
            shifted-zero (bit_xor a b) (omega (arith, xor-top_bit a b)),
            shifted-one a ea,
            shifted-one b eb,
            ← xor_double a b,
          )
          (sym (xor_cancel (a * 2) (b * 2) 0x1021))
  ]
]

crc_bit-xor : (a b : ℕ) → crc_bit (bit_xor a b) ≡ bit_xor (crc_bit a) (crc_bit b)
unfolding crc_bit
crc_bit-xor a b = ap u16 (shifted-xor a b) ∙ xor-mod_word (shifted a) (shifted b)

pub crc_bits-xor : (n a b : ℕ) → crc_bits n (bit_xor a b) ≡ bit_xor (crc_bits n a) (crc_bits n b)
unfolding crc_bits
crc_bits-xor zero a b = refl
crc_bits-xor (suc n) a b =
    ap (crc_bits n) (crc_bit-xor a b) ∙ crc_bits-xor n (crc_bit a) (crc_bit b)

all_below : ℕ → (ℕ → Bool) → Bool
all_below zero p = true
all_below (suc n) p = p n && all_below n p

all_below_lem : (n : ℕ) (p : ℕ → Bool) (x : ℕ) → all_below n p ≡ true → x < n → p x ≡ true
unfolding all_below
all_below_lem zero p x h lt = absurd (omega arith)
all_below_lem (suc n) p x h lt = ground (arith, all_below_lem n p x)

low_bytes_checked : all_below 256 (λ x. crc_bits 8 x == x * 256) ≡ true
unfolding all_below crc_bits crc_bit
low_bytes_checked = refl

-- The eight rounds only shift what stands in the low byte.
pub crc_bits-low_byte : (x : ℕ) → x < 2 ^ 8 → crc_bits 8 x ≡ x * 2 ^ 8
crc_bits-low_byte x h =
    (==_iff (crc_bits 8 x) (x * 2 ^ 8)).0
      (all_below_lem 256 (λ x. crc_bits 8 x == x * 256) x low_bytes_checked h)

-- The register after a byte, by its high byte, which meets the byte, and its low byte.
pub crc_bits-byte :
    (crc byte : ℕ)
    → crc_bits 8 (bit_xor crc (byte * 2 ^ 8))
      ≡ bit_xor (crc % 2 ^ 8 * 2 ^ 8) (crc_bits 8 (bit_xor (crc / 2 ^ 8) byte * 2 ^ 8))
crc_bits-byte crc byte =
    let hi : ℕ = crc / 2 ^ 8 in
    let lo : ℕ = crc % 2 ^ 8 in
    let split : crc ≡ bit_xor (hi * 2 ^ 8) lo = omega (arith, xor_bytes hi crc) in
    let apart : bit_xor crc (byte * 2 ^ 8) ≡ bit_xor lo (bit_xor hi byte * 2 ^ 8) =
      ap (λ c. bit_xor c (byte * 2 ^ 8)) split
      ∙ (xor_swap (hi * 2 ^ 8) lo (byte * 2 ^ 8)
          ∙ (xor_comm (bit_xor (hi * 2 ^ 8) (byte * 2 ^ 8)) lo
              ∙ ap (bit_xor lo) (xor_shifted hi byte))) in
    ap (crc_bits 8) apart
    ∙ (crc_bits-xor 8 lo (bit_xor hi byte * 2 ^ 8)
        ∙ ap (λ x. bit_xor x (crc_bits 8 (bit_xor hi byte * 2 ^ 8)))
            (crc_bits-low_byte lo (omega arith)))
