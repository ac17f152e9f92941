-- ===== src/Base/Xor.antt =====
-- Laws of `bit_xor`, from the recursion on binary digits that it stands for.
use Prim.Native.Nat.{
  ℕ, zero, suc, ◌+◌, ◌*◌, ◌/◌, ◌%◌, ◌≤◌, ◌<◌, ◌^◌, bit_xor, digits, differ, bit_xor-bitwise,
}
use mathlib.Core.Path.{◌≡◌, refl, ap, ◌∙◌}
use native.Mathlib.Omega.{arith}

abbrev xor_digits : ℕ → ℕ → ℕ → ℕ
xor_digits n a b = digits (λ b. b) differ n a b

xor_digits-enough : (n m a b : ℕ) → a ≤ n → a ≤ m → xor_digits n a b ≡ xor_digits m a b
xor_digits-enough zero zero a b p q = refl
xor_digits-enough zero (suc m) zero b p q = refl
xor_digits-enough zero (suc m) (suc a) b p q = absurd (omega arith)
xor_digits-enough (suc n) zero zero b p q = refl
xor_digits-enough (suc n) zero (suc a) b p q = absurd (omega arith)
xor_digits-enough (suc n) (suc m) zero b p q = refl
xor_digits-enough (suc n) (suc m) (suc a) b p q =
    rw (xor_digits-enough n m (suc a / 2) (b / 2) (omega arith) (omega arith))

zero-xor : (b : ℕ) → bit_xor 0 b ≡ b
zero-xor b = bit_xor-bitwise 0 b

-- Two digits differ as their sum is odd.
differ-parity : (x y : ℕ) → x < 2 → y < 2 → differ x y ≡ (x + y) % 2
differ-parity zero y h k = omega arith
differ-parity (suc zero) zero h k = refl
differ-parity (suc zero) (suc zero) h k = refl
differ-parity (suc zero) (suc (suc y)) h k = absurd (omega arith)
differ-parity (suc (suc x)) y h k = absurd (omega arith)

pub xor_step : (a b : ℕ) → bit_xor a b ≡ bit_xor (a / 2) (b / 2) * 2 + (a + b) % 2
xor_step zero b = omega (arith, zero-xor b, zero-xor (b / 2))
xor_step (suc a) b = omega (
  arith,
  bit_xor-bitwise (suc a) b,
  bit_xor-bitwise (suc a / 2) (b / 2),
  xor_digits-enough a (suc a / 2) (suc a / 2) (b / 2) (omega arith) (omega arith),
  differ-parity (suc a % 2) (b % 2) (omega arith) (omega arith),
)

pub xor-half : (a b : ℕ) → bit_xor a b / 2 ≡ bit_xor (a / 2) (b / 2)
xor-half a b = omega (arith, xor_step a b)

pub xor-parity : (a b : ℕ) → bit_xor a b % 2 ≡ (a + b) % 2
xor-parity a b = omega (arith, xor_step a b)

-- The lowest digit put apart.
pub xor_digit :
    (a b x y : ℕ) → x < 2 → y < 2 → bit_xor (a * 2 + x) (b * 2 + y) ≡ bit_xor a b * 2 + (x + y) % 2
xor_digit a b x y h k =
    let ea : (a * 2 + x) / 2 ≡ a = omega arith in
    let eb : (b * 2 + y) / 2 ≡ b = omega arith in
    omega (arith, (rw (ea, eb) at (xor_step (a * 2 + x) (b * 2 + y))))

-- Two numbers with the same halves and parities are the same.
by_digit : (m n : ℕ) → m / 2 ≡ n / 2 → m % 2 ≡ n % 2 → m ≡ n
by_digit m n h k = omega arith

xor_comm_below : (n a b : ℕ) → a + b ≤ n → bit_xor a b ≡ bit_xor b a
xor_comm_below zero a b h =
    let ea : a ≡ 0 = omega arith in let eb : b ≡ 0 = omega arith in rw (ea, eb) refl
xor_comm_below (suc n) zero zero h = refl
xor_comm_below (suc n) zero (suc b) h = omega (
  arith,
  xor_step 0 (suc b),
  xor_step (suc b) 0,
  xor_comm_below n (0 / 2) (suc b / 2) (omega arith),
)
xor_comm_below (suc n) (suc a) b h = omega (
  arith,
  xor_step (suc a) b,
  xor_step b (suc a),
  xor_comm_below n (suc a / 2) (b / 2) (omega arith),
)

pub xor_comm : (a b : ℕ) → bit_xor a b ≡ bit_xor b a
xor_comm a b = xor_comm_below (a + b) a b (omega arith)

pub xor-zero : (a : ℕ) → bit_xor a 0 ≡ a
xor-zero a = xor_comm a 0 ∙ zero-xor a

xor_self_below : (n a : ℕ) → a ≤ n → bit_xor a a ≡ 0
xor_self_below zero a h = let e : a ≡ 0 = omega arith in rw e refl
xor_self_below (suc n) a h = omega (arith, xor_step a a, xor_self_below n (a / 2) (omega arith))

pub xor_self : (a : ℕ) → bit_xor a a ≡ 0
xor_self a = xor_self_below a a (omega arith)

xor_assoc_below : (n a b c : ℕ) → a + b + c ≤ n → bit_xor (bit_xor a b) c ≡ bit_xor a (bit_xor b c)
xor_assoc_below zero a b c h =
    let ea : a ≡ 0 = omega arith in
    let eb : b ≡ 0 = omega arith in let ec : c ≡ 0 = omega arith in rw (ea, eb, ec) refl
xor_assoc_below (suc n) a b c h =
    by_digit (bit_xor (bit_xor a b) c) (bit_xor a (bit_xor b c))
      (rw (xor-half (bit_xor a b) c, xor-half a b, xor-half a (bit_xor b c), xor-half b c)
        (xor_assoc_below n (a / 2) (b / 2) (c / 2) (omega arith)))
      (omega (
        arith,
        xor-parity (bit_xor a b) c,
        xor-parity a b,
        xor-parity a (bit_xor b c),
        xor-parity b c,
      ))

pub xor_assoc : (a b c : ℕ) → bit_xor (bit_xor a b) c ≡ bit_xor a (bit_xor b c)
xor_assoc a b c = xor_assoc_below (a + b + c) a b c (omega arith)

-- What is applied twice is gone.
pub xor_cancel : (a b c : ℕ) → bit_xor (bit_xor a c) (bit_xor b c) ≡ bit_xor a b
xor_cancel a b c =
    rw (xor_assoc a c (bit_xor b c), xor_comm b c, ← xor_assoc c c b, xor_self c, zero-xor b) refl

pub xor_swap : (a b c : ℕ) → bit_xor (bit_xor a b) c ≡ bit_xor (bit_xor a c) b
xor_swap a b c = rw (xor_assoc a b c, xor_comm b c, ← xor_assoc a c b) refl

pub xor_double : (a b : ℕ) → bit_xor (a * 2) (b * 2) ≡ bit_xor a b * 2
xor_double a b =
    let ea : a * 2 / 2 ≡ a = omega arith in
    let eb : b * 2 / 2 ≡ b = omega arith in
    omega (arith, (rw (ea, eb) at (xor_step (a * 2) (b * 2))))

-- `x % 2 ^ k` and `x / 2 ^ k`, one digit at a time.
pub low : ℕ → ℕ → ℕ
low zero x = 0
low (suc k) x = low k (x / 2) * 2 + x % 2

pub high : ℕ → ℕ → ℕ
high zero x = x
high (suc k) x = high k (x / 2)

pub xor-low : (k a b : ℕ) → low k (bit_xor a b) ≡ bit_xor (low k a) (low k b)
unfolding low
xor-low zero a b = refl
xor-low (suc k) a b =
    rw (xor-half a b, xor-parity a b, xor-low k (a / 2) (b / 2))
      (omega (
        arith,
        xor_digit (low k (a / 2)) (low k (b / 2)) (a % 2) (b % 2) (omega arith) (omega arith),
      ))

pub xor-high : (k a b : ℕ) → high k (bit_xor a b) ≡ bit_xor (high k a) (high k b)
unfolding high
xor-high zero a b = refl
xor-high (suc k) a b = rw (xor-half a b) (xor-high k (a / 2) (b / 2))

pub shift : ℕ → ℕ → ℕ
shift zero x = x
shift (suc k) x = shift k x * 2

xor-shift : (k a b : ℕ) → bit_xor (shift k a) (shift k b) ≡ shift k (bit_xor a b)
unfolding shift
xor-shift zero a b = refl
xor-shift (suc k) a b = xor_double (shift k a) (shift k b) ∙ ap (λ x. x * 2) (xor-shift k a b)

-- Fields that do not overlap are added.
xor_fields : (k h x : ℕ) → bit_xor (shift k h) (low k x) ≡ shift k h + low k x
unfolding shift low
xor_fields zero h x = rw (xor-zero h) (omega arith)
xor_fields (suc k) h x =
    let digit = xor_digit (shift k h) (low k (x / 2)) 0 (x % 2) (omega arith) (omega arith) in
    let even : shift k h * 2 + 0 ≡ shift k h * 2 = omega arith in
    omega (arith, (rw even at digit), xor_fields k h (x / 2))

low_byte : (x : ℕ) → low 8 x ≡ x % 2 ^ 8
unfolding low
low_byte x = omega arith

low_word : (x : ℕ) → low 16 x ≡ x % 2 ^ 16
unfolding low
low_word x = omega arith

high_byte : (x : ℕ) → high 8 x ≡ x / 2 ^ 8
unfolding high
high_byte x = omega arith

high_bit : (x : ℕ) → high 15 x ≡ x / 2 ^ 15
unfolding high
high_bit x = omega arith

shift_byte : (x : ℕ) → shift 8 x ≡ x * 2 ^ 8
unfolding shift
shift_byte x = omega arith

-- The widths that programs use.
pub xor-mod_word : (a b : ℕ) → bit_xor a b % 2 ^ 16 ≡ bit_xor (a % 2 ^ 16) (b % 2 ^ 16)
xor-mod_word a b = rw (← low_word (bit_xor a b), ← low_word a, ← low_word b) (xor-low 16 a b)

pub xor-mod_byte : (a b : ℕ) → bit_xor a b % 2 ^ 8 ≡ bit_xor (a % 2 ^ 8) (b % 2 ^ 8)
xor-mod_byte a b = rw (← low_byte (bit_xor a b), ← low_byte a, ← low_byte b) (xor-low 8 a b)

pub xor-div_byte : (a b : ℕ) → bit_xor a b / 2 ^ 8 ≡ bit_xor (a / 2 ^ 8) (b / 2 ^ 8)
xor-div_byte a b = rw (← high_byte (bit_xor a b), ← high_byte a, ← high_byte b) (xor-high 8 a b)

pub xor-top_bit : (a b : ℕ) → bit_xor a b / 2 ^ 15 % 2 ≡ (a / 2 ^ 15 + b / 2 ^ 15) % 2
xor-top_bit a b =
    rw (← high_bit (bit_xor a b), ← high_bit a, ← high_bit b, xor-high 15 a b)
      (xor-parity (high 15 a) (high 15 b))

pub xor_bytes : (h x : ℕ) → bit_xor (h * 2 ^ 8) (x % 2 ^ 8) ≡ h * 2 ^ 8 + x % 2 ^ 8
xor_bytes h x = rw (← shift_byte h, ← low_byte x) (xor_fields 8 h x)

pub xor_shifted : (a b : ℕ) → bit_xor (a * 2 ^ 8) (b * 2 ^ 8) ≡ bit_xor a b * 2 ^ 8
xor_shifted a b = rw (← shift_byte a, ← shift_byte b, ← shift_byte (bit_xor a b)) (xor-shift 8 a b)
