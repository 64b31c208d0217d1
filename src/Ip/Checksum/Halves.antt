-- ===== src/Ip/Checksum/Halves.antt =====
-- What one mbuf adds to the sum.
use ka9q_unix.Base.{
  ℕ, zero, suc, ◌+◌, ◌-◌, ◌*◌, ◌/◌, ◌%◌, ◌^◌, ◌<◌, ◌≤◌, ◌≡◌, ◌⊎◌, inl, inr, Bool, true, false, not,
  ltb, ◌==◌, List, [], ◌∷◌, ◌++◌, length, length-take, take, get_or, if◌then◌else◌, bit_or, refl,
  sym, ap, ◌∙◌, arith, All, Bool-cases, some, take_all, subst,
}
use ka9q_unix.Base.Word.{u16, IsByte}
use ka9q_unix.Ip.Checksum.{lcsum, half, leading, aligned, trailing, add_mbuf}
use ka9q_unix.Ip.Checksum.Sums.{
  Same, Same-trans, Same-add, Same-swap, Same-times, Same-word_sum, word_sum, lcsum_lem, swap_back,
}

-- Which half comes behind so many bytes.
unfoldable pub turned : Bool → ℕ → Bool
turned swap n = if n % 2 == 0 then swap else not swap

pub word_sum-append :
    (swap : Bool) (cs ds : List ℕ)
    → word_sum swap (cs ++ ds) ≡ word_sum swap cs + word_sum (turned swap (length cs)) ds
unfolding word_sum turned
word_sum-append swap [] ds = omega arith
word_sum-append true (c ∷ cs) ds = ground (arith, word_sum-append false cs ds)
word_sum-append false (c ∷ cs) ds = ground (arith, word_sum-append true cs ds)

abbrev either_way : Bool → ℕ → ℕ
either_way swap c = if swap then u16 (bit_or (c * 2 ^ 8) (c / 2 ^ 8)) else c

either_half :
    (swap : Bool) (cs : List ℕ) (n : ℕ)
    → let mid = take (n * 2) cs in
      Same (word_sum false mid) (lcsum cs n) × (lcsum cs n ≤ 65535)
      → Same (word_sum swap mid) (either_way swap (lcsum cs n))
        × (either_way swap (lcsum cs n) ≤ 65535)
either_half false cs n l = l
either_half true cs n l =
    let c = lcsum cs n in
    let b = swap_back c l.1 in
    let mid = take (n * 2) cs in
    let w = Same-word_sum false mid in
    let w' : Same (word_sum true mid) (word_sum false mid * 256) = (sym w.0, w.2, w.1) in
    rw b (
      Same-trans (word_sum true mid) (word_sum false mid * 256) (c % 256 * 256 + c / 256) w' (
          Same-trans (word_sum false mid * 256) (c * 256) (c % 256 * 256 + c / 256)
            (Same-times (word_sum false mid) c l.0) (Same-swap c l.1)),
      omega (arith, l.1),
    )

-- The words in the middle.
aligned_lem :
    (swap : Bool) (cs : List ℕ)
    → All IsByte cs
    → length cs < 65536
    → Same (word_sum swap (take (length cs / 2 * 2) cs)) (aligned swap cs)
      × (aligned swap cs ≤ 65535)
unfolding aligned word_sum
aligned_lem swap cs a h = elim (Bool-cases (ltb 1 (length cs))) [
  | inr e ↦
      let z : length cs / 2 * 2 ≡ 0 = ground arith in
      rw (e, z) ((refl, (λ x. refl), λ x. refl), omega arith)
  | inl e ↦ rw e (
      either_half swap cs (length cs / 2)
        (lcsum_lem cs (length cs / 2) a (omega arith) (omega arith)))
]

split_last : (n : ℕ) (cs : List ℕ) → length cs ≡ suc n → cs ≡ take n cs ++ get_or cs n 0 ∷ []
split_last n [] e = absurd (omega arith)
split_last zero (c ∷ []) e = refl
split_last zero (c ∷ d ∷ cs) e = absurd (omega arith)
split_last (suc n) (c ∷ cs) e = ap (◌∷◌ c) (split_last n cs (omega arith))

one_half : (swap : Bool) (n c : ℕ) → n % 2 ≡ 0 → word_sum (turned swap n) (c ∷ []) ≡ half swap c
unfolding word_sum turned
one_half swap n c e = let z : (n % 2 == 0) ≡ true = ground arith in rw z (omega arith)

get_or-byte : (n : ℕ) (cs : List ℕ) → All IsByte cs → get_or cs n 0 < 256
get_or-byte n [] a = omega arith
get_or-byte zero (c ∷ cs) a = a.0
get_or-byte (suc n) (c ∷ cs) a = get_or-byte n cs a.1

-- What an mbuf adds: the same sum, the halves turned by its length, and no great number.
abbrev pub Adds : Bool → List ℕ → ℕ → Bool → Type 0
Adds swap cs csum swap' =
    Same (word_sum swap cs) csum × (swap' ≡ turned swap (length cs)) × (csum ≤ 65535 * 3)

half_bound : (swap : Bool) (c : ℕ) → c < 256 → half swap c ≤ 65280
half_bound true c lt = omega arith
half_bound false c lt = omega arith

turned-suc : (swap : Bool) (n : ℕ) → turned (not swap) n ≡ turned swap (suc n)
unfolding turned
turned-suc true n = ground arith
turned-suc false n = ground arith

-- From an even address.
even_lem :
    (swap : Bool) (cs : List ℕ)
    → All IsByte cs
    → length cs < 65536
    → Same (word_sum swap cs) (aligned swap cs + (trailing swap cs).0)
      × ((trailing swap cs).1 ≡ turned swap (length cs))
      × (aligned swap cs + (trailing swap cs).0 ≤ 65535 * 2)
unfolding trailing turned
even_lem swap cs a h =
    let m = aligned_lem swap cs a h in
    let mid = take (length cs / 2 * 2) cs in
    elim (Bool-cases (length cs % 2 == 1)) [
      | inr e ↦
          let t : mid ≡ cs = take_all (length cs / 2 * 2) cs (ground arith) in
          let m0 : Same (word_sum swap cs) (aligned swap cs) =
            subst (λ (x : List ℕ). Same (word_sum swap x) (aligned swap cs)) t m.0 in
          let z : (length cs % 2 == 0) ≡ true = ground arith in
          rw (e, z)
            (
              (omega (arith, m0.0), (λ x. omega (arith, m0.1 x)), λ x. m0.2 (omega arith)),
              refl,
              omega (arith, m.1),
            )
      | inl e ↦
          let n = length cs / 2 * 2 in
          let k : length cs ≡ suc n = ground arith in
          let n' : length cs - 1 ≡ n = omega arith in
          let b = get_or-byte n cs a in
          let z : (length cs % 2 == 0) ≡ false = ground arith in
          let l : length mid % 2 ≡ 0 = omega (arith, length-take n cs) in
          let o = one_half swap (length mid) (get_or cs n 0) l in
          let refl' : Same (half swap (get_or cs n 0)) (half swap (get_or cs n 0)) =
            (refl, (λ x. x), λ x. x) in
          let sum =
            Same-add (word_sum swap mid) (aligned swap cs) (half swap (get_or cs n 0))
              (half swap (get_or cs n 0)) m.0 refl' in
          let w =
            ap (word_sum swap) (split_last n cs k)
            ∙ word_sum-append swap mid (get_or cs n 0 ∷ [])
            ∙ ap (λ (x : ℕ). word_sum swap mid + x) o in
          rw (e, z, n')
            (
              subst (λ (x : ℕ). Same x (aligned swap cs + half swap (get_or cs n 0))) (sym w) sum,
              refl,
              omega (arith, m.1, half_bound swap (get_or cs n 0) b),
            )
    ]

-- An mbuf that is not empty, or lies at an even address.
pub add_mbuf_lem :
    (odd swap : Bool) (cs : List ℕ)
    → All IsByte cs
    → length cs < 65536
    → (odd ≡ false) ⊎ (0 < length cs)
    → (csum : ℕ) × ((swap' : Bool) × ((add_mbuf odd swap cs ≡ some (csum, swap'))
          × Adds swap cs csum swap'))
unfolding add_mbuf leading word_sum
add_mbuf_lem false swap cs a h w =
    let e = even_lem swap cs a h in
    let z : 0 + aligned swap cs + (trailing swap cs).0 ≡ aligned swap cs + (trailing swap cs).0 =
      omega arith in
    let s : Same (word_sum swap cs) (0 + aligned swap cs + (trailing swap cs).0) =
      subst (λ (x : ℕ). Same (word_sum swap cs) x) (sym z) e.0 in
    (
      0 + aligned swap cs + (trailing swap cs).0,
      ((trailing swap cs).1, (refl, (s, e.1, omega (arith, e.2)))),
    )
add_mbuf_lem true swap [] a h (inl e) = absurd (ground arith)
add_mbuf_lem true swap [] a h (inr lt) = absurd (omega arith)
add_mbuf_lem true swap (c ∷ cs) a h w =
    let e = even_lem (not swap) cs a.1 (omega arith) in
    let k = aligned (not swap) cs in
    let t = (trailing (not swap) cs).0 in
    let z : half swap c + k + t ≡ half swap c + (k + t) = omega arith in
    let own : Same (half swap c) (half swap c) = (refl, (λ x. x), λ x. x) in
    let s : Same (half swap c + word_sum (not swap) cs) (half swap c + k + t) =
      subst (λ (x : ℕ). Same (half swap c + word_sum (not swap) cs) x) (sym z)
        (Same-add (half swap c) (half swap c) (word_sum (not swap) cs) (k + t) own e.0) in
    (
      half swap c + k + t,
      (
        (trailing (not swap) cs).1,
        (refl, (s, e.1 ∙ turned-suc swap (length cs), omega (arith, e.2, half_bound swap c a.0))),
      ),
    )
