-- ===== src/Ip/Checksum/Sums.antt =====
-- Sums of words in one's complement.
use ka9q_unix.Base.{
  ℕ, zero, suc, ◌+◌, ◌-◌, ◌*◌, ◌/◌, ◌%◌, ◌^◌, ◌<◌, ◌≤◌, ◌≡◌, inl, inr, Bool, true, false, not, ltb,
  ◌==◌, List, [], ◌∷◌, length, length-take, take, if◌then◌else◌, bit_and, bit_or, refl, sym, ap,
  ◌∙◌, arith, All, Bool-cases,
}
use ka9q_unix.Base.Bits.{bit_and_mask, bit_or_high, bit_or_fields}
use ka9q_unix.Base.Word.{u16, u32, IsByte, is_negative}
use ka9q_unix.Ip.Checksum.{add_carries, eac, add_words, fold, lcsum, half}

-- The same number in one's complement, with +0 kept apart from -0.
abbrev pub Same : ℕ → ℕ → Type 0
Same a b = (a % 65535 ≡ b % 65535) × (a ≡ 0 → b ≡ 0) × (b ≡ 0 → a ≡ 0)

-- The sum of the bytes as halves of words, the first being the low half if `swap` is set.
unfoldable pub word_sum : Bool → List ℕ → ℕ
word_sum swap [] = 0
word_sum swap (c ∷ cs) = half swap c + word_sum (not swap) cs

-- The one representative below 2 ^ 16.
abbrev pub folded : ℕ → ℕ
folded a = if a == 0 then 0 else suc ((a - 1) % 65535)

pub Same-folded : (a b : ℕ) → Same a b → b ≤ 65535 → b ≡ folded a
Same-folded a b s le = ground (arith, s.0, s.1, s.2)

pub Same-trans : (a b c : ℕ) → Same a b → Same b c → Same a c
Same-trans a b c s t = (s.0 ∙ t.0, (λ z. t.1 (s.1 z)), λ z. s.2 (t.2 z))

pub Same-add : (a b c d : ℕ) → Same a b → Same c d → Same (a + c) (b + d)
Same-add a b c d s t = (
  omega (arith, s.0, t.0),
  (λ z. omega (arith, s.1 (omega arith), t.1 (omega arith))),
  λ z. omega (arith, s.2 (omega arith), t.2 (omega arith)),
)

add_carries-Same : (n sum : ℕ) → sum < 2 ^ 31 → Same sum (add_carries n sum)
unfolding add_carries
add_carries-Same zero sum h = (refl, (λ z. z), λ z. z)
add_carries-Same (suc n) sum h =
    let p : is_negative sum ≡ false = ground arith in
    elim (Bool-cases (sum / 2 ^ 16 == 0)) [
      | inl e ↦ rw (p, e) (refl, (λ z. z), λ z. z)
      | inr e ↦
          let next = sum / 2 ^ 16 + u16 sum in
          let w : u32 next ≡ next = omega (arith, h) in
          let s : Same sum next = (omega arith, (λ z. omega arith), λ z. omega arith) in
          rw (p, e, w)
            (Same-trans sum next (add_carries n next) s
              (add_carries-Same n next (omega (arith, h))))
    ]

-- Four rounds fold any 32-bit sum into 16 bits, also a negative one.
add_carries_small : (sum : ℕ) → sum < 2 ^ 32 → add_carries 4 sum ≤ 65535
unfolding add_carries
add_carries_small sum h = ground arith

-- A sum that is not negative is folded into 16 bits.
pub eac_lem : (sum : ℕ) → sum < 2 ^ 31 → eac sum ≡ folded sum
unfolding eac
eac_lem sum h =
    let k = add_carries_small sum (omega (arith, h)) in
    let s = add_carries-Same 4 sum h in omega (arith, k, Same-folded sum (add_carries 4 sum) s k)

fold-Same : (n sum : ℕ) → Same sum (fold n sum)
unfolding fold
fold-Same zero sum = (refl, (λ z. z), λ z. z)
fold-Same (suc n) sum = elim (Bool-cases (ltb 65535 sum)) [
  | inr e ↦ rw e (refl, (λ z. z), λ z. z)
  | inl e ↦
      let next = u16 sum + sum / 2 ^ 16 in
      let s : Same sum next = (omega arith, (λ z. omega arith), λ z. omega arith) in
      rw e (Same-trans sum next (fold n next) s (fold-Same n next))
]

fold_small : (sum : ℕ) → sum < 2 ^ 32 → fold 3 sum ≤ 65535
unfolding fold
fold_small sum h = ground arith

pub word_sum-bound :
    (swap : Bool) (cs : List ℕ) → All IsByte cs → word_sum swap cs ≤ length cs * 65280
unfolding word_sum
word_sum-bound swap [] a = omega arith
word_sum-bound true (c ∷ cs) a = omega (arith, a.0, word_sum-bound false cs a.1)
word_sum-bound false (c ∷ cs) a = omega (arith, a.0, word_sum-bound true cs a.1)

-- What lcsum adds up is the sum with the low half first.
add_words_lem :
    (cnt sum : ℕ) (cs : List ℕ)
    → All IsByte cs
    → cnt * 2 ≤ length cs
    → sum + cnt * 65535 < 2 ^ 32
    → add_words cnt sum cs ≡ sum + word_sum true (take (cnt * 2) cs)
unfolding add_words word_sum
add_words_lem zero sum cs a le h = omega arith
add_words_lem (suc cnt) sum [] a le h = absurd (omega arith)
add_words_lem (suc cnt) sum (c ∷ []) a le h = absurd (omega arith)
add_words_lem (suc cnt) sum (c ∷ d ∷ cs) a le h =
    let e : u32 (sum + (c + d * 2 ^ 8)) ≡ sum + (c + d * 2 ^ 8) = omega (arith, a.0, a.1.0) in
    let ih =
      add_words_lem cnt (sum + (c + d * 2 ^ 8)) cs a.1.1 (omega arith)
        (omega (arith, a.0, a.1.0)) in
    let k : suc cnt * 2 ≡ suc (suc (cnt * 2)) = omega arith in rw (e, k) (ih ∙ omega arith)

pub All-take : (n : ℕ) (cs : List ℕ) → All IsByte cs → All IsByte (take n cs)
All-take zero cs a = tt
All-take (suc n) [] a = tt
All-take (suc n) (c ∷ cs) a = (a.0, All-take n cs a.1)

zero_or : (c : ℕ) → c < 2 ^ 16 → bit_or 0 c ≡ c
zero_or c h = omega (arith, bit_or_fields 16 0 c h)

-- The halves of a word change places.
swap_bytes :
    (c : ℕ)
    → c ≤ 65535
    → bit_and (bit_or (c / 2 ^ 8) (u32 (c * 2 ^ 8))) 0xffff ≡ c % 256 * 256 + c / 256
swap_bytes c h =
    let e : u32 (c * 2 ^ 8) ≡ c * 2 ^ 8 = omega arith in
    let z : 0 * 2 ^ 8 + c / 2 ^ 8 ≡ c / 2 ^ 8 = omega arith in
    let b =
      ap (λ (x : ℕ). bit_or x (c * 2 ^ 8)) (sym z) ∙ bit_or_high 8 0 (c / 2 ^ 8) c (omega arith) in
    rw e
      (bit_and_mask 16 (bit_or (c / 2 ^ 8) (c * 2 ^ 8)) ∙ omega (arith, b, zero_or c (omega arith)))

pub swap_back : (c : ℕ) → c ≤ 65535 → u16 (bit_or (c * 2 ^ 8) (c / 2 ^ 8)) ≡ c % 256 * 256 + c / 256
swap_back c h = omega (arith, bit_or_fields 8 c (c / 2 ^ 8) (omega arith))

pub Same-swap : (c : ℕ) → c ≤ 65535 → Same (c * 256) (c % 256 * 256 + c / 256)
Same-swap c h = (omega arith, (λ z. omega arith), λ z. omega arith)

-- A sum in which each half is in the other place.
pub Same-word_sum :
    (swap : Bool) (cs : List ℕ) → Same (word_sum swap cs * 256) (word_sum (not swap) cs)
unfolding word_sum
Same-word_sum swap [] = (refl, (λ z. refl), λ z. refl)
Same-word_sum true (c ∷ cs) =
    let ih = Same-word_sum false cs in
    (
      omega (arith, ih.0),
      (λ z. omega (arith, ih.1 (omega arith))),
      λ z. omega (arith, ih.2 (omega arith)),
    )
Same-word_sum false (c ∷ cs) =
    let ih = Same-word_sum true cs in
    (
      omega (arith, ih.0),
      (λ z. omega (arith, ih.1 (omega arith))),
      λ z. omega (arith, ih.2 (omega arith)),
    )

pub Same-times : (a b : ℕ) → Same a b → Same (a * 256) (b * 256)
Same-times a b s = (
  omega (arith, s.0),
  (λ z. omega (arith, s.1 (omega arith))),
  λ z. omega (arith, s.2 (omega arith)),
)

-- lcsum folds the words of the buffer, the first byte of each as its high half.
pub lcsum_lem :
    (cs : List ℕ) (n : ℕ)
    → All IsByte cs
    → n * 2 ≤ length cs
    → n ≤ 32768
    → Same (word_sum false (take (n * 2) cs)) (lcsum cs n) × (lcsum cs n ≤ 65535)
unfolding lcsum
lcsum_lem cs n a le h =
    let low = word_sum true (take (n * 2) cs) in
    let e : add_words n 0 cs ≡ 0 + low = add_words_lem n 0 cs a le (omega arith) in
    let e' : add_words n 0 cs ≡ low = omega (arith, e) in
    let bound : low < 2 ^ 32 = omega (
      arith,
      word_sum-bound true (take (n * 2) cs) (All-take (n * 2) cs a),
      length-take (n * 2) cs,
    ) in
    let f = fold 3 low in
    let s = swap_bytes f (fold_small low bound) in
    let k = fold_small low bound in
    let t = Same-times low f (fold-Same 3 low) in
    let w = Same-word_sum true (take (n * 2) cs) in
    let back : Same (word_sum false (take (n * 2) cs)) (low * 256) = (sym w.0, w.2, w.1) in
    rw (e', s)
      (
        Same-trans (word_sum false (take (n * 2) cs)) (low * 256) (f % 256 * 256 + f / 256) back
            (Same-trans (low * 256) (f * 256) (f % 256 * 256 + f / 256) t (Same-swap f k)),
        omega (arith, k),
      )
