-- ===== src/Tcp/Header/Flags.antt =====
-- The byte of flags is read as it was written.
use ka9q_unix.Base.{ℕ, ◌≡◌, Bool, true, false, not, ◌&&◌, ◌==◌, refl, arith, bit_and}
use ka9q_unix.Base.Word.{u8}
use ka9q_unix.Tcp.Header.{flag_byte}

-- Whether a test holds of both truth values.
abbrev both : (Bool → Bool) → Bool
both p = p true && p false

both-holds : (p : Bool → Bool) → both p ≡ true → (b : Bool) → p b ≡ true
both-holds p e true = ground arith
both-holds p e false = ground arith

same : Bool → Bool → Bool
same true b = b
same false b = not b

same-eq : (a b : Bool) → same a b ≡ true → a ≡ b
unfolding same
same-eq true true e = refl
same-eq true false e = cc
same-eq false true e = cc
same-eq false false e = refl

abbrev has_bit : ℕ → ℕ → Bool
has_bit c bit = not (bit_and c bit == 0)

-- All seven flags at once.
told : Bool → Bool → Bool → Bool → Bool → Bool → Bool → Bool
unfolding flag_byte same
told c u a p r s f =
    let b = u8 (flag_byte c u a p r s f) in
    same (has_bit b 64) c
    && same (has_bit b 32) u
    && same (has_bit b 16) a
    && same (has_bit b 8) p
    && same (has_bit b 4) r
    && same (has_bit b 2) s
    && same (has_bit b 1) f

told-all : (c u a p r s f : Bool) → told c u a p r s f ≡ true
unfolding told
told-all c u a p r s f =
    both-holds (λ f. told c u a p r s f)
      (both-holds (λ s. both (λ f. told c u a p r s f))
        (both-holds (λ r. both (λ s. both (λ f. told c u a p r s f)))
          (both-holds (λ p. both (λ r. both (λ s. both (λ f. told c u a p r s f))))
            (both-holds (λ a. both (λ p. both (λ r. both (λ s. both (λ f. told c u a p r s f)))))
              (both-holds
                (λ u.
                  both (λ a. both (λ p. both (λ r. both (λ s. both (λ f. told c u a p r s f))))))
                (both-holds
                  (λ c. both (λ u.
                    both (λ a. both (λ p. both (λ r. both (λ s. both (λ f. told c u a p r s f)))))))
                  refl c)
                u)
              a)
            p)
          r)
        s)
      f

pub flag_byte_lem :
    (c u a p r s f : Bool)
    → let b = u8 (flag_byte c u a p r s f) in
      (has_bit b 64 ≡ c)
      × (has_bit b 32 ≡ u)
      × (has_bit b 16 ≡ a)
      × (has_bit b 8 ≡ p)
      × (has_bit b 4 ≡ r)
      × (has_bit b 2 ≡ s)
      × (has_bit b 1 ≡ f)
unfolding told
flag_byte_lem c u a p r s f =
    let b = u8 (flag_byte c u a p r s f) in
    let e = told-all c u a p r s f in
    (
      same-eq (has_bit b 64) c (ground arith),
      same-eq (has_bit b 32) u (ground arith),
      same-eq (has_bit b 16) a (ground arith),
      same-eq (has_bit b 8) p (ground arith),
      same-eq (has_bit b 4) r (ground arith),
      same-eq (has_bit b 2) s (ground arith),
      same-eq (has_bit b 1) f (ground arith),
    )
