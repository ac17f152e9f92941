-- ===== src/Server/Crc/Shipped.antt =====
-- The file crc.dat holds the table of the polynomial.
use p2p_watcher.Base.{
  ℕ, zero, suc, ◌+◌, ◌*◌, ◌^◌, ◌<◌, ◌≡◌, refl, ap, List, [], ◌∷◌, length, All, done, arith,
}
use p2p_watcher.Server.Crc.{func, table, crc_bit, crc_bits, get_elem, load_table, calc_crc}
use p2p_watcher.Server.Crc.Dat.{crc_dat}
use p2p_watcher.Server.Crc.Modes.{IsTable, calc_crc-table-eq-func}

-- The registers after the bytes from `i` on.
abbrev registers : ℕ → ℕ → List ℕ
registers zero i = []
registers (suc n) i = crc_bits 8 (i * 2 ^ 8) ∷ registers n (i + 1)

length-registers : (n i : ℕ) → length (registers n i) ≡ n
length-registers zero i = refl
length-registers (suc n) i = ap suc (length-registers n (i + 1))

get_elem-registers :
    (n i k : ℕ) → k < n → get_elem (registers n i) k ≡ done (crc_bits 8 ((i + k) * 2 ^ 8))
get_elem-registers zero i k h = absurd (omega arith)
get_elem-registers (suc n) i zero h = ap (λ j. done (crc_bits 8 (j * 2 ^ 8))) (omega arith)
get_elem-registers (suc n) i (suc k) h =
    let shifted : i + suc k ≡ i + 1 + k = omega arith in
    rw shifted (get_elem-registers n (i + 1) k (omega arith))

registers-IsTable : IsTable (registers 256 0)
registers-IsTable i h = let e : 0 + i ≡ i = omega arith in rw e at (get_elem-registers 256 0 i h)

load_table-crc_dat : load_table crc_dat ≡ done (registers 256 0)
unfolding load_table crc_bits crc_bit
load_table-crc_dat = refl

-- With the file crc.dat as it is in the repository, the mode `table` gives every message of bytes
-- the CRC that the mode `func` gives it.
pub calc_crc-modes_agree :
    (bytes : List ℕ)
    → All (λ b. b < 2 ^ 8) bytes
    → calc_crc crc_dat table bytes ≡ calc_crc crc_dat func bytes
calc_crc-modes_agree bytes h =
    calc_crc-table-eq-func crc_dat (registers 256 0) bytes load_table-crc_dat
      (omega (arith, length-registers 256 0)) registers-IsTable h
