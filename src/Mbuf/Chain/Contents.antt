-- ===== src/Mbuf/Chain/Contents.antt =====
-- The operations of mbuf.c on one packet, told by the bytes of the packet.
use ka9q_unix.Base.{
  ℕ, zero, suc, ◌+◌, ◌-◌, ◌^◌, ◌≤◌, ◌<◌, ◌≡◌, refl, sym, ap, ◌∙◌, inl, inr, min, List, [], ◌∷◌,
  ◌++◌, length, take, drop, length-append, take_all, drop_all, take-append_le, take-append_past,
  drop-append_le, drop-append_past, append-nil, Bool-cases, ltb, ◌==◌, arith,
}
use native.Mathlib.Decide.{dec_le}
use ka9q_unix.Base.Word.{u32}
use ka9q_unix.Mbuf.{Mbuf, Packet, cnt, contents}
use ka9q_unix.Mbuf.Chain.{len_loop, len_p, trim_loop, trim_mbuf, Pulled, pullup}

len_loop-contents :
    (total : ℕ) (p : Packet)
    → total + length (contents p) < 2 ^ 32
    → len_loop total p ≡ total + length (contents p)
unfolding len_loop
len_loop-contents total [] h = omega arith
len_loop-contents total (b ∷ p) h =
    let l = length-append b.bytes (contents p) in
    let e : u32 (total + cnt b) ≡ total + cnt b = omega (arith, l) in
    rw e (len_loop-contents (total + cnt b) p (omega (arith, l)) ∙ omega (arith, l))

-- Below the 32-bit limit `len_p` is the number of bytes.
pub len_p-contents : (p : Packet) → length (contents p) < 2 ^ 32 → len_p p ≡ length (contents p)
unfolding len_p
len_p-contents p h = len_loop-contents 0 p (omega arith) ∙ omega arith

-- Taking what lies within, at, or beyond the first mbuf.
trim_loop-contents :
    (len tot : ℕ) (p : Packet)
    → tot ≤ len
    → tot + length (contents p) < 2 ^ 32
    → contents (trim_loop len tot p) ≡ take (len - tot) (contents p)
unfolding trim_loop
trim_loop-contents len tot [] h k = sym (take_all (len - tot) [] (omega arith))
trim_loop-contents len tot (b ∷ p) h k =
    let l = length-append b.bytes (contents p) in
    let e : u32 (tot + cnt b) ≡ tot + cnt b = omega (arith, l) in
    rw e (elim (Bool-cases (ltb (tot + cnt b) len)) [
      | inl more ↦ rw more (
          ap (◌++◌ b.bytes)
            (trim_loop-contents len (tot + cnt b) p (ground arith) (omega (arith, l)))
          ∙ sym (
              take-append_past (len - tot) (len - (tot + cnt b)) b.bytes (contents p)
                (ground arith)))
      | inr cut ↦ rw cut (
          append-nil (take (len - tot) b.bytes)
          ∙ sym (take-append_le (len - tot) b.bytes (contents p) (ground arith)))
    ])

-- Trimming keeps the first `len` bytes of a packet below the 32-bit limit, and no others.
pub trim_mbuf-contents :
    (len : ℕ) (p : Packet)
    → length (contents p) < 2 ^ 32
    → contents (trim_mbuf len p) ≡ take len (contents p)
unfolding trim_mbuf
trim_mbuf-contents len p h = elim (Bool-cases (len == 0)) [
  | inl z ↦ let e : len ≡ 0 = ground arith in rw e
  | inr nz ↦ rw nz (
      trim_loop-contents len 0 p (omega arith) (omega arith)
      ∙ (let e : len - 0 ≡ len = omega arith in rw e))
]

abbrev pub Pulls : ℕ → List ℕ → Pulled → Type 0
Pulls n xs r = (r.buf ≡ take n xs) × (contents r.rest ≡ drop n xs) × (r.tot ≡ min n (length xs))

pullup_whole :
    (n : ℕ) (b : Mbuf) (p : Packet)
    → 0 < n
    → cnt b ≤ n
    → let r = pullup (n - cnt b) p in
      pullup n (b ∷ p) ≡ record { buf = b.bytes ++ r.buf; tot = cnt b + r.tot; rest = r.rest }
unfolding pullup
pullup_whole n b p h k =
    let e : min n (cnt b) ≡ cnt b = omega arith in rw e (ground (arith, take_all (cnt b) b.bytes))

pullup_part :
    (n : ℕ) (b : Mbuf) (p : Packet)
    → 0 < n
    → n < cnt b
    → pullup n (b ∷ p) ≡ record {
      buf = take n b.bytes;
      tot = n;
      rest = record b { room = b.room + n; bytes = drop n b.bytes } ∷ p;
    }
unfolding pullup
pullup_part n b p h k = let e : min n (cnt b) ≡ n = omega arith in rw e (ground arith)

-- `pullup` takes the first `n` bytes, or all there are, says how many, and leaves the rest.
pub pullup-contents : (n : ℕ) (p : Packet) → Pulls n (contents p) (pullup n p)
pullup-contents n [] =
    unfold pullup in
    (sym (take_all n [] (omega arith)), sym (drop_all n [] (omega arith)), omega arith)
pullup-contents zero (b ∷ p) = unfold pullup in (refl, refl, omega arith)
pullup-contents (suc n) (b ∷ p) = elim (dec_le (cnt b) (suc n)) [
  | yes h ↦ rw (pullup_whole (suc n) b p (omega arith) h) (
      let ih = pullup-contents (suc n - cnt b) p in
      let l = length-append b.bytes (contents p) in
      let s : cnt b + (suc n - cnt b) ≡ suc n = omega arith in
      (
        rw ih.0 (sym (take-append_past (suc n) (suc n - cnt b) b.bytes (contents p) s)),
        rw ih.1 (sym (drop-append_past (suc n) (suc n - cnt b) b.bytes (contents p) s)),
        omega (arith, ih.2, l),
      ))
  | no h ↦ rw (pullup_part (suc n) b p (omega arith) (omega arith)) (
    sym (take-append_le (suc n) b.bytes (contents p) (omega arith)),
    sym (drop-append_le (suc n) b.bytes (contents p) (omega arith)),
    omega (arith, length-append b.bytes (contents p)),
  )
]
