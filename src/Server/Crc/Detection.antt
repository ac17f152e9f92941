-- ===== src/Server/Crc/Detection.antt =====
-- Which errors the CRC detects.
use Prim.Native.Nat.{bit_xor}
use p2p_watcher.Base.{
  ℕ, zero, suc, ◌*◌, ◌%◌, ◌^◌, ◌<◌, ◌≡◌, ◌≢◌, refl, ◌∙◌, ap, sym, List, [], ◌∷◌, ◌++◌, arith,
}
use p2p_watcher.Base.Xor.{
  xor_comm, xor-zero, xor_self, xor_assoc, xor_cancel, xor_swap, xor-mod_word, xor-parity,
}
use native.Mathlib.Nat.{mod-eq_of_lt}
use p2p_watcher.Server.Crc.{crc_bit, crc_bits, calc_func}
use p2p_watcher.Server.Crc.Bounds.{crc_bits-Word}
use p2p_watcher.Server.Crc.Linear.{crc_bits-xor}
use p2p_watcher.Server.Crc.Modes.{calc_func-append}

-- The polynomial is odd, so a round loses nothing.
crc_bit-eq-zero : (x : ℕ) → x < 2 ^ 16 → crc_bit x ≡ 0 → x ≡ 0
unfolding crc_bit
crc_bit-eq-zero x h e = ground (arith, xor-parity (x * 2) 0x1021)

crc_bit-Word : (x : ℕ) → crc_bit x < 2 ^ 16
unfolding crc_bit
crc_bit-Word x = omega arith

crc_bits-eq-zero : (n x : ℕ) → x < 2 ^ 16 → crc_bits n x ≡ 0 → x ≡ 0
unfolding crc_bits
crc_bits-eq-zero zero x h e = e
crc_bits-eq-zero (suc n) x h e =
    crc_bit-eq-zero x h (crc_bits-eq-zero n (crc_bit x) (crc_bit-Word x) e)

-- What a difference of the registers has become after `bytes`.
abbrev later : List ℕ → ℕ → ℕ
later [] d = d
later (byte ∷ bytes) d = later bytes (crc_bits 8 d)

later-eq-zero : (bytes : List ℕ) (d : ℕ) → d < 2 ^ 16 → later bytes d ≡ 0 → d ≡ 0
later-eq-zero [] d h e = e
later-eq-zero (byte ∷ bytes) d h e =
    crc_bits-eq-zero 8 d h (later-eq-zero bytes (crc_bits 8 d) (crc_bits-Word 7 d) e)

calc_func-later :
    (crc d : ℕ) (bytes : List ℕ)
    → calc_func (bit_xor crc d) bytes ≡ bit_xor (calc_func crc bytes) (later bytes d)
unfolding calc_func
calc_func-later crc d [] = refl
calc_func-later crc d (byte ∷ bytes) =
    let step : crc_bits 8 (bit_xor (bit_xor crc d) (byte * 2 ^ 8))
        ≡ bit_xor (crc_bits 8 (bit_xor crc (byte * 2 ^ 8))) (crc_bits 8 d) =
      ap (crc_bits 8) (xor_swap crc d (byte * 2 ^ 8))
      ∙ crc_bits-xor 8 (bit_xor crc (byte * 2 ^ 8)) d in
    rw step (calc_func-later (crc_bits 8 (bit_xor crc (byte * 2 ^ 8))) (crc_bits 8 d) bytes)

-- Where an exclusive or changes nothing it was with zero.
xor-eq-left : (a b : ℕ) → bit_xor a b ≡ a → b ≡ 0
xor-eq-left a b e = sym (xor-zero b) ∙ (xor_comm b 0 ∙ (rw (← xor_self a, xor_assoc a a b, e) refl))

xor-eq-zero : (a b : ℕ) → bit_xor a b ≡ 0 → a ≡ b
xor-eq-zero a b e =
    sym (xor-zero a) ∙ (rw (← xor_self b, ← xor_assoc a b b, e) (xor_comm 0 b ∙ xor-zero b))

-- Registers that meet again under the same bytes were the same.
calc_func-injective :
    (a b : ℕ) (bytes : List ℕ)
    → bit_xor b a < 2 ^ 16
    → calc_func a bytes ≡ calc_func b bytes
    → b ≡ a
calc_func-injective a b bytes small e =
    let moved : bit_xor a (bit_xor b a) ≡ b =
      xor_comm a (bit_xor b a) ∙ (xor_assoc b a a ∙ (rw (xor_self a) (xor-zero b))) in
    let gone : later bytes (bit_xor b a) ≡ 0 =
      xor-eq-left (calc_func a bytes) (later bytes (bit_xor b a))
        (sym (calc_func-later a (bit_xor b a) bytes) ∙ ((rw moved refl) ∙ sym e)) in
    xor-eq-zero b a (later-eq-zero bytes (bit_xor b a) small gone)

xor-IsWord : (a b : ℕ) → a < 2 ^ 16 → b < 2 ^ 16 → bit_xor a b < 2 ^ 16
xor-IsWord a b h k =
    let e : bit_xor a b % 2 ^ 16 ≡ bit_xor a b =
      rw (xor-mod_word a b, mod-eq_of_lt h, mod-eq_of_lt k) refl in
    omega (arith, e)

-- A byte is determined by the register before it and the one after it.
byte_determined :
    (crc x y : ℕ)
    → x < 2 ^ 8
    → y < 2 ^ 8
    → crc_bits 8 (bit_xor crc (y * 2 ^ 8)) ≡ crc_bits 8 (bit_xor crc (x * 2 ^ 8))
    → x ≡ y
byte_determined crc x y hx hy e =
    let apart : bit_xor (bit_xor crc (x * 2 ^ 8)) (bit_xor crc (y * 2 ^ 8))
        ≡ bit_xor (x * 2 ^ 8) (y * 2 ^ 8) =
      rw (xor_comm crc (x * 2 ^ 8), xor_comm crc (y * 2 ^ 8))
        (xor_cancel (x * 2 ^ 8) (y * 2 ^ 8) crc) in
    let gone : crc_bits 8 (bit_xor (x * 2 ^ 8) (y * 2 ^ 8)) ≡ 0 =
      ap (crc_bits 8) (sym apart)
      ∙ (crc_bits-xor 8 (bit_xor crc (x * 2 ^ 8)) (bit_xor crc (y * 2 ^ 8))
          ∙ (rw e (xor_self (crc_bits 8 (bit_xor crc (x * 2 ^ 8)))))) in
    let same = xor-eq-zero (x * 2 ^ 8) (y * 2 ^ 8) (
      crc_bits-eq-zero 8 (bit_xor (x * 2 ^ 8) (y * 2 ^ 8))
        (xor-IsWord (x * 2 ^ 8) (y * 2 ^ 8) (omega arith) (omega arith)) gone) in
    omega (arith, same)

-- The CRC detects every error in one byte: messages that differ in one byte only, wherever it
-- stands, have different CRCs.
pub calc_func_one_byte :
    (before after : List ℕ) (x y : ℕ)
    → x < 2 ^ 8
    → y < 2 ^ 8
    → x ≢ y
    → calc_func 0 (before ++ (x ∷ after)) ≢ calc_func 0 (before ++ (y ∷ after))
calc_func_one_byte before after x y hx hy other e =
    let c : ℕ = calc_func 0 before in
    let a : ℕ = crc_bits 8 (bit_xor c (x * 2 ^ 8)) in
    let b : ℕ = crc_bits 8 (bit_xor c (y * 2 ^ 8)) in
    other (
      byte_determined c x y hx hy (
        calc_func-injective a b after
          (xor-IsWord b a (crc_bits-Word 7 (bit_xor c (y * 2 ^ 8)))
            (crc_bits-Word 7 (bit_xor c (x * 2 ^ 8))))
          (unfold calc_func in
            (sym (calc_func-append 0 before (x ∷ after))
              ∙ (e ∙ calc_func-append 0 before (y ∷ after))))))
