-- ===== src/Server/Crc.antt =====
-- Server/source/crc.cpp: the CRC-16 of the polynomial 0x1021, bit by bit and with a table. The
-- lines of the file crc.dat are a parameter.
pub mod Bounds
pub mod Linear
pub mod Modes
pub mod Dat
pub mod Shipped
pub mod Detection
use Prim.Native.Nat.{bit_xor}
use p2p_watcher.Base.{
  ℕ, zero, suc, ◌+◌, ◌-◌, ◌*◌, ◌/◌, ◌%◌, ◌^◌, ◌==◌, ltb, leb, if◌then◌else◌, Bool, true, false,
  ◌&&◌, ◌||◌, not, List, [], ◌∷◌, length, Option, none, some, Outcome, done, throws, fault, ◌>>=◌,
}
use p2p_watcher.Protocol.Wire.{u8, u16}

pub data ModeCrc : Type 0 where
  func table : ModeCrc

-- One round of the inner loop of the mode `func`. The bit tested is 0x8000.
unfoldable pub crc_bit : ℕ → ℕ
crc_bit crc = u16 (if crc / 2 ^ 15 % 2 == 1 then bit_xor (crc * 2) 0x1021 else crc * 2)

unfoldable pub crc_bits : ℕ → ℕ → ℕ
crc_bits zero crc = crc
crc_bits (suc left) crc = crc_bits left (crc_bit crc)

-- The loops of the mode `func`.
unfoldable pub calc_func : ℕ → List ℕ → ℕ
calc_func crc [] = crc
calc_func crc (byte ∷ bytes) = calc_func (crc_bits 8 (bit_xor crc (byte * 2 ^ 8))) bytes

-- `tbl[index]`, undefined behind the end.
abbrev pub get_elem : List ℕ → ℕ → Outcome ℕ
get_elem [] i = fault
get_elem (x ∷ xs) zero = done x
get_elem (x ∷ xs) (suc i) = get_elem xs i

-- The loop of the mode `table`.
unfoldable pub calc_table : List ℕ → ℕ → List ℕ → Outcome ℕ
calc_table tbl crc [] = done crc
calc_table tbl crc (byte ∷ bytes) = get_elem tbl (u8 (bit_xor (crc / 2 ^ 8) byte)) >>= λ entry.
    calc_table tbl (u16 (bit_xor (crc * 2 ^ 8) entry)) bytes

-- std::strtoul and std::strtol at base 16: white space, a sign, a prefix 0x that a digit follows,
-- and the digits. The result is the sign and the number, `none` where there is no digit.
abbrev pub hex_digit : ℕ → Option ℕ
hex_digit c =
    if leb 48 c && leb c 57
    then some (c - 48)
    else if leb 97 c && leb c 102
    then some (c - 87)
    else if leb 65 c && leb c 70
    then some (c - 55)
    else none

abbrev pub digits_from : ℕ → List ℕ → ℕ
digits_from n [] = n
digits_from n (c ∷ cs) = elim (hex_digit c) [ none ↦ n | some v ↦ digits_from (16 * n + v) cs ]

abbrev pub unsigned_digits : List ℕ → Option ℕ
unsigned_digits [] = none
unsigned_digits (c ∷ cs) = elim (hex_digit c) [ none ↦ none | some v ↦ some (digits_from v cs) ]

abbrev pub prefixed : List ℕ → Option ℕ
prefixed (c ∷ x ∷ d ∷ cs) =
    if (c == 48) && ((x == 120) || (x == 88))
    then elim (hex_digit d) [ none ↦ some 0 | some v ↦ some (digits_from v cs) ]
    else unsigned_digits (c ∷ x ∷ d ∷ cs)
prefixed cs = unsigned_digits cs

abbrev pub is_space : ℕ → Bool
is_space c = (c == 32) || (leb 9 c && leb c 13)

abbrev pub signed : List ℕ → Bool × Option ℕ
signed [] = (false, none)
signed (c ∷ cs) =
    if is_space c
    then signed cs
    else if c == 45
    then (true, prefixed cs)
    else if c == 43
    then (false, prefixed cs)
    else (false, prefixed (c ∷ cs))

-- A negative number is taken modulo 2 ^ 64.
abbrev pub stoul : List ℕ → Outcome ℕ
stoul s =
    let (negative, number) = signed s in
    elim number [
      | none ↦ throws
      | some n ↦
          if ltb n (2 ^ 64) then done (if negative then (2 ^ 64 - n) % 2 ^ 64 else n) else throws
    ]

-- The int as its bit pattern.
abbrev pub stoi : List ℕ → Outcome ℕ
stoi s =
    let (negative, number) = signed s in
    elim number [
      | none ↦ throws
      | some n ↦
          if ltb n (if negative then 2 ^ 31 + 1 else 2 ^ 31)
          then done (if negative then (2 ^ 32 - n) % 2 ^ 32 else n)
          else throws
    ]

-- The loop over the lines of the file.
unfoldable pub load_table : List (List ℕ) → Outcome (List ℕ)
load_table [] = done []
load_table ([] ∷ lines) = load_table lines
load_table ((c ∷ s) ∷ lines) = do num ← stoul (c ∷ s); tbl ← load_table lines; done (u16 num ∷ tbl)

unfoldable pub calc_crc : List (List ℕ) → ModeCrc → List ℕ → Outcome ℕ
calc_crc lines func bytes = done (calc_func 0 bytes)
calc_crc lines table bytes =
    load_table lines >>= λ tbl. if ltb (length tbl) 256 then throws else calc_table tbl 0 bytes

unfoldable pub hex_to_bytes : List ℕ → Outcome (List ℕ)
hex_to_bytes [] = done []
hex_to_bytes (c ∷ []) = do byte ← stoi (c ∷ []); done (u8 byte ∷ [])
hex_to_bytes (c ∷ c' ∷ hex) = do
  byte ← stoi (c ∷ c' ∷ [])
  bytes ← hex_to_bytes hex
  done (u8 byte ∷ bytes)

-- The numbers that testCrc prints before the end or the first exception, which it catches.
unfoldable pub test_crc : List (List ℕ) → List ℕ → Outcome (List ℕ)
test_crc lines hex = elim (hex_to_bytes hex) [
  | fault ↦ fault
  | throws ↦ done []
  | done bytes ↦ elim (calc_crc lines table bytes) [
    | fault ↦ fault
    | throws ↦ done (calc_func 0 bytes ∷ [])
    | done crc ↦ done (calc_func 0 bytes ∷ crc ∷ [])
  ]
]
