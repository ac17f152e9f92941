-- ===== src/Tests/OnCrc.antt =====
-- The theorems on the CRC, at short messages.
use p2p_watcher.Base.{◌/◌, ◌%◌, ◌^◌, ◌≡◌, ◌≢◌, [], ◌∷◌, ◌++◌, arith}
use p2p_watcher.Server.Crc.{func, table, calc_crc, calc_func}
use p2p_watcher.Server.Crc.Dat.{crc_dat}
use p2p_watcher.Server.Crc.Shipped.{calc_crc-modes_agree}
use p2p_watcher.Server.Crc.Modes.{calc_func_residue}
use p2p_watcher.Server.Crc.Detection.{calc_func_one_byte}
use p2p_watcher.Tests.{three_bytes}

calc_crc-modes_agree_example :
    calc_crc crc_dat table three_bytes ≡ calc_crc crc_dat func three_bytes
calc_crc-modes_agree_example = calc_crc-modes_agree three_bytes (omega arith)

calc_func_residue_example :
    calc_func 0
      (three_bytes ++ (calc_func 0 three_bytes / 2 ^ 8 ∷ calc_func 0 three_bytes % 2 ^ 8 ∷ []))
    ≡ 0
calc_func_residue_example = calc_func_residue three_bytes

calc_func_one_byte_example :
    calc_func 0 (three_bytes ++ (1 ∷ three_bytes)) ≢ calc_func 0 (three_bytes ++ (2 ∷ three_bytes))
calc_func_one_byte_example =
    calc_func_one_byte three_bytes three_bytes 1 2 (omega arith) (omega arith) (omega arith)
