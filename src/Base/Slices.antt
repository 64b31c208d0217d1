-- ===== src/Base/Slices.antt =====
-- Slices of a list: the elements from one position up to another.
use Prim.Native.Nat.{ℕ, zero, suc, ◌+◌, ◌-◌, ◌≤◌}
use mathlib.Core.Path.{◌≡◌, sym, ap, ap₂, ◌∙◌}
use mathlib.Core.List.{List, [], ◌∷◌, ◌++◌}
use native.Mathlib.Omega.{arith}
use ka9q_unix.Base.Lists.{take, drop, take_all, drop-drop, length, length-take, length-drop}

module _ {ℓ} {A : Type ℓ} where
  -- The elements of `d` from `o` on, up to `l`.
  abbrev pub slice : ℕ → ℕ → List A → List A
  slice o l d = take (l - o) (drop o d)

  take-take-drop : (m n : ℕ) (xs : List A) → take m xs ++ take n (drop m xs) ≡ take (m + n) xs
  take-take-drop zero n xs = let e : n ≡ zero + n = omega arith in ap (λ (k : ℕ). take k xs) e
  take-take-drop (suc m) n [] =
      take_all n [] (omega arith) ∙ sym (take_all (suc m + n) [] (omega arith))
  take-take-drop (suc m) n (x ∷ xs) =
      let e : suc (m + n) ≡ suc m + n = omega arith in
      ap (◌∷◌ x) (take-take-drop m n xs) ∙ ap (λ (k : ℕ). take k (x ∷ xs)) e

  pub drop-take : (i n : ℕ) (xs : List A) → drop i (take n xs) ≡ take (n - i) (drop i xs)
  drop-take zero n xs = let e : n ≡ n - 0 = omega arith in ap (λ (k : ℕ). take k xs) e
  drop-take (suc i) zero xs =
      let e : 0 ≡ 0 - suc i = omega arith in ap (λ (k : ℕ). take k (drop (suc i) xs)) e
  drop-take (suc i) (suc n) [] = sym (take_all (suc n - suc i) [] (omega arith))
  drop-take (suc i) (suc n) (x ∷ xs) =
      let e : n - i ≡ suc n - suc i = omega arith in
      drop-take i n xs ∙ ap (λ (k : ℕ). take k (drop i xs)) e

  -- Two slices that meet make one.
  pub slice-append :
      (o m l : ℕ) (d : List A) → o ≤ m → m ≤ l → slice o m d ++ slice m l d ≡ slice o l d
  slice-append o m l d h k =
      let e : o + (m - o) ≡ m = omega arith in
      let e' : (m - o) + (l - m) ≡ l - o = omega arith in
      let r : drop m d ≡ drop (m - o) (drop o d) =
        ap (λ (t : ℕ). drop t d) (sym e) ∙ sym (drop-drop (m - o) o d) in
      ap (λ (r : List A). slice o m d ++ take (l - m) r) r
      ∙ take-take-drop (m - o) (l - m) (drop o d)
      ∙ ap (λ (t : ℕ). take t (drop o d)) e'

  pub drop-slice : (i o l : ℕ) (d : List A) → drop i (slice o l d) ≡ slice (o + i) l d
  drop-slice i o l d =
      let e : l - o - i ≡ l - (o + i) = omega arith in
      drop-take i (l - o) (drop o d) ∙ ap₂ (λ (n : ℕ) (r : List A). take n r) e (drop-drop i o d)

  pub length-slice : (o l : ℕ) (d : List A) → l ≤ length d → length (slice o l d) ≡ l - o
  length-slice o l d h = omega (arith, length-take (l - o) (drop o d), length-drop o d)

  pub slice_all : (d : List A) → slice 0 (length d) d ≡ d
  slice_all d = take_all (length d - 0) d (omega arith)
