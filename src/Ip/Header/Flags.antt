-- ===== src/Ip/Header/Flags.antt =====
-- The flags above the fragment offset.
use ka9q_unix.Base.{
  ℕ, ◌+◌, ◌*◌, ◌^◌, ◌<◌, ◌≡◌, Bool, true, false, not, ◌==◌, if◌then◌else◌, bit_and, bit_or, refl,
  ap, ◌∙◌, arith,
}
use ka9q_unix.Base.Bits.{bit_or_high, bit_and_high, bit_and_mask}

-- The flags as one number.
abbrev pub flag_bits : Bool → Bool → Bool → ℕ
flag_bits true true true = 7
flag_bits true true false = 6
flag_bits true false true = 5
flag_bits true false false = 4
flag_bits false true true = 3
flag_bits false true false = 2
flag_bits false false true = 1
flag_bits false false false = 0

unfoldable pub flagged : Bool → Bool → Bool → ℕ → ℕ
flagged congest df mf offs =
    let with_congest = if congest then bit_or offs 0x8000 else offs in
    let with_df = if df then bit_or with_congest 0x4000 else with_congest in
    if mf then bit_or with_df 0x2000 else with_df

-- Another flag above the offset.
set_flag :
    (q offs d : ℕ)
    → offs < 2 ^ 13
    → bit_or (q * 2 ^ 13 + offs) (d * 2 ^ 13) ≡ bit_or q d * 2 ^ 13 + offs
set_flag q offs d h = bit_or_high 13 q offs d h

first_flag : (offs d : ℕ) → offs < 2 ^ 13 → bit_or offs (d * 2 ^ 13) ≡ bit_or 0 d * 2 ^ 13 + offs
first_flag offs d h =
    let z : offs ≡ 0 * 2 ^ 13 + offs = omega arith in
    ap (λ (x : ℕ). bit_or x (d * 2 ^ 13)) z ∙ set_flag 0 offs d h

pub flagged_lem :
    (c d m : Bool) (offs : ℕ) → offs < 2 ^ 13 → flagged c d m offs ≡ flag_bits c d m * 2 ^ 13 + offs
unfolding flagged
flagged_lem false false false offs h = omega arith
flagged_lem false false true offs h = first_flag offs 1 h
flagged_lem false true false offs h = first_flag offs 2 h
flagged_lem false true true offs h = rw (first_flag offs 2 h) (set_flag 2 offs 1 h)
flagged_lem true false false offs h = first_flag offs 4 h
flagged_lem true false true offs h = rw (first_flag offs 4 h) (set_flag 4 offs 1 h)
flagged_lem true true false offs h = rw (first_flag offs 4 h) (set_flag 4 offs 2 h)
flagged_lem true true true offs h =
    rw (first_flag offs 4 h) (rw (set_flag 4 offs 2 h) (set_flag 6 offs 1 h))

pub flag_bits_small : (c d m : Bool) → flag_bits c d m < 8
flag_bits_small true true true = omega arith
flag_bits_small true true false = omega arith
flag_bits_small true false true = omega arith
flag_bits_small true false false = omega arith
flag_bits_small false true true = omega arith
flag_bits_small false true false = omega arith
flag_bits_small false false true = omega arith
flag_bits_small false false false = omega arith

mf_bit : (c d m : Bool) → not (bit_and (flag_bits c d m) 1 * 2 ^ 13 == 0) ≡ m
mf_bit true true true = refl
mf_bit true true false = refl
mf_bit true false true = refl
mf_bit true false false = refl
mf_bit false true true = refl
mf_bit false true false = refl
mf_bit false false true = refl
mf_bit false false false = refl

df_bit : (c d m : Bool) → not (bit_and (flag_bits c d m) 2 * 2 ^ 13 == 0) ≡ d
df_bit true true true = refl
df_bit true true false = refl
df_bit true false true = refl
df_bit true false false = refl
df_bit false true true = refl
df_bit false true false = refl
df_bit false false true = refl
df_bit false false false = refl

congest_bit : (c d m : Bool) → not (bit_and (flag_bits c d m) 4 * 2 ^ 13 == 0) ≡ c
congest_bit true true true = refl
congest_bit true true false = refl
congest_bit true false true = refl
congest_bit true false false = refl
congest_bit false true true = refl
congest_bit false true false = refl
congest_bit false false true = refl
congest_bit false false false = refl

-- The flags are read off the number again.
pub read_flags :
    (c d m : Bool) (offs fl : ℕ)
    → offs < 2 ^ 13
    → fl ≡ flag_bits c d m * 2 ^ 13 + offs
    → (bit_and fl 0x1fff ≡ offs)
      × (not (bit_and fl 0x2000 == 0) ≡ m)
      × (not (bit_and fl 0x4000 == 0) ≡ d)
      × (not (bit_and fl 0x8000 == 0) ≡ c)
read_flags c d m offs fl h e =
    let q = flag_bits c d m in
    rw e (
      bit_and_mask 13 (q * 2 ^ 13 + offs) ∙ omega (arith),
      ap (λ (x : ℕ). not (x == 0)) (bit_and_high 13 q offs 1 h) ∙ mf_bit c d m,
      ap (λ (x : ℕ). not (x == 0)) (bit_and_high 13 q offs 2 h) ∙ df_bit c d m,
      ap (λ (x : ℕ). not (x == 0)) (bit_and_high 13 q offs 4 h) ∙ congest_bit c d m,
    )
