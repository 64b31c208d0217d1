-- ===== src/Crc/Residue.antt =====
-- The frame check sequence of crc.c: what a receiver computes over a frame with its check bytes,
-- and that the table and one step lose no information.
use ka9q_unix.Base.{
  ℕ, ◌+◌, ◌*◌, ◌/◌, ◌%◌, ◌^◌, ◌≡◌, refl, ◌∙◌, bit_xor, Bool, true, [], ◌∷◌, ◌==◌, ==_iff, arith,
}
use ka9q_unix.Base.Bits.{bit_xor_fields, bit_and_mask, every_below, every_below-holds}
use ka9q_unix.Base.Word.{IsByte, IsU16}
use ka9q_unix.Crc.{fcs_final, fcs, crc_update, crc_final_write}
use ka9q_unix.Crc.Words.{fcs_bytes, bit_xor-lt}
use ka9q_unix.Crc.Table.{fcstab}

-- Facts about single bytes, by table.
by_table : (p : ℕ → Bool) → every_below 256 p ≡ true → (x : ℕ) → IsByte x → p x ≡ true
by_table p h x hx = every_below-holds 256 p x h hx

complement_low : (l : ℕ) → IsByte l → bit_xor l (bit_xor l 255) ≡ 255
complement_low l h =
    (==_iff _ _).0
      (by_table (λ x. bit_xor x (bit_xor x 255) == 255) (unfold every_below in refl) l h)

complement_high : (h : ℕ) → IsByte h → bit_xor (bit_xor h 0x78) (bit_xor h 255) ≡ 0x87
complement_high h hh = (==_iff _ _).0 (
    by_table (λ x. bit_xor (bit_xor x 0x78) (bit_xor x 255) == 0x87) (unfold every_below in refl) h
      hh)

-- The two check bytes of the word with bytes `h` and `l`.
final_bytes :
    (h l : ℕ)
    → IsByte h
    → IsByte l
    → crc_final_write (h * 256 + l) ≡ bit_xor l 255 ∷ bit_xor h 255 ∷ []
unfolding crc_final_write
final_bytes h l hh hl =
    let x = bit_xor_fields 8 h 255 l 255 hl (omega arith) in
    let a = bit_xor-lt 8 l 255 hl (omega arith) in
    let b = bit_xor-lt 8 h 255 hh (omega arith) in
    let m = bit_and_mask 8 (bit_xor (h * 256 + l) 0xffff) in
    let n = bit_and_mask 8 (bit_xor (h * 256 + l) 0xffff / 2 ^ 8) in ground (arith, x, a, b, m, n)

-- After its own check bytes every check sequence stands at FCS_FINAL.
pub crc_update-crc_final_write :
    (crc : ℕ) → IsU16 crc → crc_update (crc_final_write crc) crc ≡ fcs_final
crc_update-crc_final_write crc h =
    let hi = crc / 256 in
    let lo = crc % 256 in
    let e : crc ≡ hi * 256 + lo = omega arith in rw e (two_bytes hi lo (omega arith) (omega arith))
  where
    two_bytes :
        (h l : ℕ)
        → IsByte h
        → IsByte l
        → crc_update (crc_final_write (h * 256 + l)) (h * 256 + l) ≡ fcs_final
    two_bytes h l hh hl =
        let z : 0 * 2 ^ 8 + h ≡ h = omega arith in
        let first : fcs (h * 256 + l) (bit_xor l 255) ≡ bit_xor h 0x0f78 =
          fcs_bytes h l (bit_xor l 255) hl (bit_xor-lt 8 l 255 hl (omega arith))
          ∙ unfold fcstab in rw (complement_low l hl) in
        let split : bit_xor h 0x0f78 ≡ 15 * 256 + bit_xor h 0x78 =
          rw z at (bit_xor_fields 8 0 15 h 0x78 hh (omega arith)) in
        let second : fcs (15 * 256 + bit_xor h 0x78) (bit_xor h 255) ≡ fcs_final =
          fcs_bytes 15 (bit_xor h 0x78) (bit_xor h 255) (bit_xor-lt 8 h 0x78 hh (omega arith))
            (bit_xor-lt 8 h 255 hh (omega arith))
          ∙ unfold fcstab in rw (complement_high h hh) in
        rw (final_bytes h l hh hl) (unfold crc_update in rw (first, split) second)
