-- ===== src/Crc.antt =====
-- lib/util/crc.c and crc.h: the 16-bit frame check sequence of HDLC, by table.
pub mod Table
pub mod Words
pub mod Residue
pub mod Detect
pub mod Check
mod Tests
use ka9q_unix.Base.{
  ℕ, ◌-◌, ◌/◌, ◌%◌, ◌^◌, List, [], ◌∷◌, ◌++◌, length, take, get_or, bit_and, bit_xor, Bool, ◌==◌,
  ltb, if◌then◌else◌, Option, none, some,
}
use Table.{fcstab}

-- FCS_START and FCS_FINAL.
abbrev pub fcs_start : ℕ
fcs_start = 0xffff

abbrev pub fcs_final : ℕ
fcs_final = 0xf0b8

-- The macro FCS.
unfoldable pub fcs : ℕ → ℕ → ℕ
unfolding fcstab
fcs f c = bit_xor (f / 2 ^ 8) (get_or fcstab (bit_and (bit_xor f c) 0xff) 0)

unfoldable pub crc_update : List ℕ → ℕ → ℕ
unfolding fcs
crc_update [] crc = crc
crc_update (c ∷ buf) crc = crc_update buf (fcs crc c)

-- The two bytes that go behind the data.
unfoldable pub crc_final_write : ℕ → List ℕ
crc_final_write crc = let x = bit_xor crc 0xffff in bit_and x 0xff ∷ bit_and (x / 2 ^ 8) 0xff ∷ []

-- `true` is the 0 of the C, `false` its -1.
unfoldable pub crc_final_check : ℕ → Bool
crc_final_check crc = crc == fcs_final

pub crc_check : List ℕ → Bool
crc_check buf = crc_final_check (crc_update buf fcs_start)

-- The last two bytes of the buffer are overwritten. Below two bytes the C writes outside: `none`.
pub crc_gen : List ℕ → Option (List ℕ)
crc_gen buf =
    let body = take (length buf - 2) buf in
    if ltb (length buf) 2 then none else some (body ++ crc_final_write (crc_update body fcs_start))
