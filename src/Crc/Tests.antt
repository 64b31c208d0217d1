-- ===== src/Crc/Tests.antt =====
-- The theorems on the check sequence at concrete buffers.
use ka9q_unix.Base.{ℕ, ◌≡◌, refl, List, [], ◌∷◌, get_or, arith, true, false, some}
use ka9q_unix.Crc.{fcs, fcs_final, crc_update, crc_final_write, crc_check, crc_gen}
use ka9q_unix.Crc.Table.{fcstab}
use ka9q_unix.Crc.Residue.{crc_update-crc_final_write}
use ka9q_unix.Crc.Detect.{crc_byte, fcstab-crc_byte}
use ka9q_unix.Crc.Check.{crc_check-crc_gen, crc_check_one_byte}

-- The last two bytes are for the check sequence.
abbrev buffer : List ℕ
buffer = 0x31 ∷ 0x32 ∷ 0x33 ∷ 0 ∷ 0 ∷ []

abbrev filled : List ℕ
filled = 0x31 ∷ 0x32 ∷ 0x33 ∷ 0xb4 ∷ 0x9c ∷ []

crc_update-crc_final_write_example : crc_update (crc_final_write 0x1234) 0x1234 ≡ fcs_final
crc_update-crc_final_write_example = crc_update-crc_final_write 0x1234 (omega arith)

fcstab-crc_byte_example : get_or fcstab 5 0 ≡ crc_byte 5
fcstab-crc_byte_example = fcstab-crc_byte 5 (omega arith)

gen : crc_gen buffer ≡ some filled
unfolding crc_gen crc_update crc_final_write fcs
gen = refl

crc_check-crc_gen_example : crc_check filled ≡ true
crc_check-crc_gen_example =
    crc_check-crc_gen buffer filled
      (omega arith, (omega arith, (omega arith, (omega arith, (omega arith, tt))))) gen

crc_check_one_byte_example : crc_check (0x31 ∷ 0x36 ∷ 0x33 ∷ 0xb4 ∷ 0x9c ∷ []) ≡ false
crc_check_one_byte_example =
    crc_check_one_byte (0x31 ∷ []) (0x33 ∷ 0xb4 ∷ 0x9c ∷ []) 0x32 0x36 (omega arith, tt)
      (omega arith, (omega arith, (omega arith, tt))) (omega arith) (omega arith) (omega arith)
      crc_check-crc_gen_example
