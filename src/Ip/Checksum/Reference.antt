-- ===== src/Ip/Checksum/Reference.antt =====
-- The checksum is that of the bytes, however they are cut into mbufs and wherever these lie.
use ka9q_unix.Base.{
  ℕ, zero, suc, ◌+◌, ◌-◌, ◌*◌, ◌^◌, ◌<◌, ◌≤◌, ◌≡◌, ◌≢◌, ◌⊎◌, inl, inr, Bool, true, false, ◌==◌,
  List, [], ◌∷◌, ◌++◌, length, length-take, take, refl, sym, ap, ◌∙◌, arith, All, Option, some,
  subst,
}
use native.Mathlib.Decide.{ℕ_discrete}
use ka9q_unix.Base.Word.{u32, IsByte}
use ka9q_unix.Mbuf.{Packet, Mbuf, cnt, contents}
use ka9q_unix.Ip.Checksum.{PseudoHeader, add_mbuf, add_mbufs, pseudo_sum, cksum}
use ka9q_unix.Ip.Checksum.Sums.{Same, folded, word_sum, eac_lem, All-take}
use ka9q_unix.Ip.Checksum.Halves.{word_sum-append, add_mbuf_lem}

-- The mbufs that are read are not empty, or at an even address.
abbrev pub IsReadable : (ℕ → Bool) → ℕ → ℕ → Packet → Type 0
IsReadable odd place left [] = Unit
IsReadable odd place left (m ∷ p) =
    ((odd place ≡ false) ⊎ (0 < cnt m)) × IsReadable odd (place + 1) (left - cnt m) p

take_nil : (n : ℕ) → take {A = ℕ} n [] ≡ []
take_nil zero = refl
take_nil (suc n) = refl

adds_nothing :
    (swap : Bool) (sum : ℕ) (cs : List ℕ)
    → word_sum swap cs ≡ word_sum swap []
    → Same (sum + word_sum swap cs) sum
unfolding word_sum
adds_nothing swap sum cs e = (omega (arith, e), (λ x. omega arith), λ x. omega (arith, e))

take-append : (n : ℕ) (xs ys : List ℕ) → take n (xs ++ ys) ≡ take n xs ++ take (n - length xs) ys
take-append zero [] ys = refl
take-append zero (x ∷ xs) ys =
    let e : 0 ≡ 0 - suc (length xs) = omega arith in ap (λ (k : ℕ). take k ys) e
take-append (suc n) [] ys = let e : suc n ≡ suc n - 0 = omega arith in ap (λ (k : ℕ). take k ys) e
take-append (suc n) (x ∷ xs) ys =
    let e : n - length xs ≡ suc n - suc (length xs) = omega arith in
    ap (◌∷◌ x) (take-append n xs ys ∙ ap (λ (k : ℕ). take n xs ++ take k ys) e)

parts : (xs ys : List ℕ) → All IsByte (xs ++ ys) → All IsByte xs × All IsByte ys
parts [] ys a = (tt, a)
parts (x ∷ xs) ys a = let r = parts xs ys a.1 in ((a.0, r.0), r.1)

nonempty :
    (odd : Bool) (left : ℕ) (m : Mbuf)
    → left ≢ 0
    → (odd ≡ false) ⊎ (0 < cnt m)
    → (odd ≡ false) ⊎ (0 < length (take left m.bytes))
nonempty odd left m n (inl e) = inl e
nonempty odd left m n (inr lt) = inr (omega (arith, length-take left m.bytes))

regroup : (sum x csum y r : ℕ) → Same x csum → Same (sum + csum + y) r → Same (sum + (x + y)) r
regroup sum x csum y r s t = (
  omega (arith, s.0, t.0),
  (λ z. t.1 (omega (arith, s.1 (omega arith)))),
  λ z. omega (arith, s.2 (omega (arith, t.2 z)), t.2 z),
)

add_mbufs_step :
    (odd : ℕ → Bool) (place : ℕ) (swap : Bool) (sum left : ℕ) (m : Mbuf) (p : Packet) (csum : ℕ)
    (swap' : Bool) (r : ℕ)
    → left ≢ 0
    → add_mbuf (odd place) swap (take left m.bytes) ≡ some (csum, swap')
    → u32 (sum + csum) ≡ sum + csum
    → add_mbufs odd (place + 1) swap' (sum + csum) (left - cnt m) p ≡ some r
    → add_mbufs odd place swap sum left (m ∷ p) ≡ some r
unfolding add_mbufs
add_mbufs_step odd place swap sum left m p csum swap' r n e w k =
    let c : (left == 0) ≡ false = ground arith in rw (c, add_mbufs, e, c) (rw w k)

add_mbufs_lem :
    (odd : ℕ → Bool) (place : ℕ) (swap : Bool) (sum left : ℕ) (p : Packet)
    → All IsByte (contents p)
    → left < 65536
    → sum + length p * 65535 * 3 < 2 ^ 31
    → IsReadable odd place left p
    → (r : ℕ) × ((add_mbufs odd place swap sum left p ≡ some r)
        × (Same (sum + word_sum swap (take left (contents p))) r)
        × (r < 2 ^ 31))
unfolding add_mbufs
add_mbufs_lem odd place swap sum left [] a h b i =
    let e = ap (word_sum swap) (take_nil left) in
    (sum, (refl, adds_nothing swap sum (take left []) e, omega arith))
add_mbufs_lem odd place swap sum left (m ∷ p) a h b i = elim (ℕ_discrete left 0) [
  | yes e ↦
      let c : (left == 0) ≡ true = ground arith in
      let z = ap (λ (n : ℕ). word_sum swap (take n (contents (m ∷ p)))) e in
      (
        sum,
        (
          rw (c, add_mbufs, c) refl,
          adds_nothing swap sum (take left (contents (m ∷ p))) z,
          omega arith,
        ),
      )
  | no n ↦
      let xs = take left m.bytes in
      let ys = take (left - cnt m) (contents p) in
      let ab = parts m.bytes (contents p) a in
      let r =
        add_mbuf_lem (odd place) swap xs (All-take left m.bytes ab.0)
          (omega (arith, length-take left m.bytes)) (nonempty (odd place) left m n i.0) in
      let csum = r.0 in
      let swap' = r.1.0 in
      let w : u32 (sum + csum) ≡ sum + csum = omega (arith, r.1.1.1.2) in
      let ih =
        add_mbufs_lem odd (place + 1) swap' (sum + csum) (left - cnt m) p ab.1 (omega arith)
          (omega (arith, r.1.1.1.2)) i.1 in
      let split : word_sum swap (take left (m.bytes ++ contents p))
          ≡ word_sum swap xs + word_sum swap' ys =
        ap (word_sum swap) (take-append left m.bytes (contents p))
        ∙ word_sum-append swap xs ys
        ∙ ap (λ (s : Bool). word_sum swap xs + word_sum s ys) (sym r.1.1.1.1) in
      let s : Same (sum + (word_sum swap xs + word_sum swap' ys)) ih.0 =
        regroup sum (word_sum swap xs) csum (word_sum swap' ys) ih.0 r.1.1.1.0 ih.1.1 in
      (
        ih.0,
        (
          add_mbufs_step odd place swap sum left m p csum swap' ih.0 n r.1.1.0 w ih.1.0,
          subst (λ (x : ℕ). Same (sum + x) ih.0) (sym split) s,
          ih.1.2,
        ),
      )
]

Same-folded' : (a b : ℕ) → Same b a → folded a ≡ folded b
Same-folded' a b s = ground (arith, s.0, s.1, s.2)

-- The checksum of IP, TCP and UDP: of the first `len` bytes of a packet, of which there are less
-- than 65536, it is the complement of their sum as words with the high half first and of the words
-- of the pseudo-header, folded into 16 bits, however the bytes are cut into mbufs and whether or
-- not these begin at odd addresses. No mbuf at an odd address that is read is empty, the chain has
-- at most 10000 mbufs, so that the sum does not become negative, and the words of the
-- pseudo-header add up to less than 6 * 65536.
pub cksum-word_sum :
    (odd : ℕ → Bool) (ph : Option PseudoHeader) (p : Packet) (len : ℕ)
    → All IsByte (contents p)
    → len < 65536
    → pseudo_sum ph < 65536 * 6
    → length p ≤ 10000
    → IsReadable odd 0 len p
    → cksum odd ph p len
      ≡ some (65535 - folded (pseudo_sum ph + word_sum false (take len (contents p))))
unfolding cksum
cksum-word_sum odd ph p len a h b l i =
    let e : u32 (pseudo_sum ph) ≡ pseudo_sum ph = omega arith in
    let r = add_mbufs_lem odd 0 false (pseudo_sum ph) len p a h (omega arith) i in
    let total = pseudo_sum ph + word_sum false (take len (contents p)) in
    let f : folded r.0 ≡ folded total = Same-folded' r.0 total r.1.1 in
    rw (cksum, e, r.1.0, eac_lem r.0 r.1.2, f) refl
