-- ===== src/Mbuf/Chain/Remains.antt =====
-- mbuf.c: what `pullup` leaves, and the bytes of chained packets.
use ka9q_unix.Base.{
  ℕ, ◌-◌, ◌<◌, ◌≤◌, ◌≡◌, refl, ap, ◌∙◌, true, false, [], ◌∷◌, All, arith, length, length-append,
  length-drop, if_cases, min, ◌==◌,
}
use ka9q_unix.Mbuf.{Mbuf, Packet, is_null, cnt, contents}
use ka9q_unix.Mbuf.Chain.{Pulled, pullup}
use ka9q_unix.Mbuf.Chain.Contents.{pullup-contents}

-- A packet none of whose mbufs is empty.
abbrev pub Filled : Packet → Type 0
Filled p = All (λ (b : Mbuf). 0 < cnt b) p

pullup-Filled : (n : ℕ) (p : Packet) → Filled p → Filled (pullup n p).rest
unfolding pullup
pullup-Filled n [] h = tt
pullup-Filled n (b ∷ p) h =
    let k = min n (cnt b) in
    if_cases (λ (r : Pulled). Filled r.rest) (n == 0) (λ e. h)
      (λ e.
        if_cases (λ (r : Pulled). Filled r.rest) (cnt b - k == 0) (λ e. pullup-Filled (n - k) p h.1)
          (λ ne. (ground (arith, length-drop k b.bytes), h.1)))

null-contents : (p : Packet) → is_null p ≡ true → length (contents p) ≡ 0
null-contents [] e = refl
null-contents (b ∷ p) e = cc

Filled-contents : (p : Packet) → Filled p → is_null p ≡ false → 0 < length (contents p)
Filled-contents [] h e = cc
Filled-contents (b ∷ p) h e = omega (arith, h.0, length-append b.bytes (contents p))

pulled_length : (n : ℕ) (p : Packet) → length (contents (pullup n p).rest) ≡ length (contents p) - n
pulled_length n p = ap length (pullup-contents n p).1 ∙ length-drop n (contents p)

-- If nothing is left, all bytes were pulled.
pub pullup-null : (n : ℕ) (p : Packet) → is_null (pullup n p).rest ≡ true → length (contents p) ≤ n
pullup-null n p e = omega (arith, null-contents (pullup n p).rest e, pulled_length n p)

-- If something is left of a packet with no empty mbuf, some bytes were not pulled.
pub pullup-not_null :
    (n : ℕ) (p : Packet) → Filled p → is_null (pullup n p).rest ≡ false → n < length (contents p)
pullup-not_null n p h e =
    omega (arith, Filled-contents (pullup n p).rest (pullup-Filled n p h) e, pulled_length n p)
