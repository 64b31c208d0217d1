-- ===== src/Crc/Check.antt =====
-- `crc_gen` and `crc_check` of crc.c on whole buffers.
use ka9q_unix.Base.{
  ℕ, zero, suc, ◌-◌, ◌≡◌, ◌≢◌, refl, ◌∙◌, true, false, List, [], ◌∷◌, ◌++◌, length, take, All,
  arith, some,
}
use ka9q_unix.Base.Word.{IsByte, IsU16}
use ka9q_unix.Crc.{
  fcs_start, fcs_final, fcs, crc_update, crc_final_write, crc_final_check, crc_check, crc_gen,
}
use ka9q_unix.Crc.Residue.{crc_update-crc_final_write}
use ka9q_unix.Crc.Detect.{fcs-lt, fcs_word_injective, fcs_byte_injective, crc_update-lt}

pub crc_update-append :
    (xs ys : List ℕ) (f : ℕ) → crc_update (xs ++ ys) f ≡ crc_update ys (crc_update xs f)
unfolding crc_update
crc_update-append [] ys f = refl
crc_update-append (x ∷ xs) ys f = crc_update-append xs ys (fcs f x)

All-take : (n : ℕ) (xs : List ℕ) → All IsByte xs → All IsByte (take n xs)
All-take zero xs h = tt
All-take (suc n) [] h = tt
All-take (suc n) (x ∷ xs) h = (h.0, All-take n xs h.1)

-- A receiver's check sequence over data and its check bytes is FCS_FINAL, whatever the data.
pub crc_update_frame :
    (xs : List ℕ)
    → All IsByte xs
    → crc_update (xs ++ crc_final_write (crc_update xs fcs_start)) fcs_start ≡ fcs_final
crc_update_frame xs h =
    crc_update-append xs (crc_final_write (crc_update xs fcs_start)) fcs_start
    ∙ crc_update-crc_final_write (crc_update xs fcs_start)
        (crc_update-lt xs fcs_start h (omega arith))

-- A buffer that `crc_gen` has completed passes `crc_check`.
pub crc_check-crc_gen :
    (buf out : List ℕ) → All IsByte buf → crc_gen buf ≡ some out → crc_check out ≡ true
unfolding crc_gen crc_check crc_final_check
crc_check-crc_gen buf out h e =
    ground (arith, crc_update_frame (take (length buf - 2) buf) (All-take (length buf - 2) buf h))

crc_update_injective :
    (xs : List ℕ) (f g : ℕ)
    → All IsByte xs
    → IsU16 f
    → IsU16 g
    → crc_update xs f ≡ crc_update xs g
    → f ≡ g
unfolding crc_update
crc_update_injective [] f g h hf hg e = e
crc_update_injective (x ∷ xs) f g h hf hg e =
    fcs_word_injective f g x hf hg h.0
      (crc_update_injective xs (fcs f x) (fcs g x) h.1 (fcs-lt f x hf h.0) (fcs-lt g x hg h.0) e)

crc_update_differs :
    (front back : List ℕ) (c d f : ℕ)
    → All IsByte front
    → All IsByte back
    → IsByte c
    → IsByte d
    → IsU16 f
    → c ≢ d
    → crc_update (front ++ c ∷ back) f ≢ crc_update (front ++ d ∷ back) f
unfolding crc_update
crc_update_differs [] back c d f hx hy hc hd hf ne e = ne (
    fcs_byte_injective f c d hf hc hd
      (crc_update_injective back (fcs f c) (fcs f d) hy (fcs-lt f c hf hc) (fcs-lt f d hf hd) e))
crc_update_differs (x ∷ front) back c d f hx hy hc hd hf ne e =
    crc_update_differs front back c d (fcs f x) hx.1 hy hc hd (fcs-lt f x hf hx.0) ne e

-- A frame that passes fails as soon as any one of its bytes is changed to another byte.
pub crc_check_one_byte :
    (front back : List ℕ) (c d : ℕ)
    → All IsByte front
    → All IsByte back
    → IsByte c
    → IsByte d
    → c ≢ d
    → crc_check (front ++ c ∷ back) ≡ true
    → crc_check (front ++ d ∷ back) ≡ false
unfolding crc_check crc_final_check
crc_check_one_byte front back c d hx hy hc hd ne pass =
    ground (arith, crc_update_differs front back c d fcs_start hx hy hc hd (omega arith) ne)
