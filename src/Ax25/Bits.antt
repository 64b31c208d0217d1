-- ===== src/Ax25/Bits.antt =====
-- What the bits of an address are after it was marked.
use ka9q_unix.Base.{
  ℕ, ◌<◌, ◌≡◌, Bool, true, false, not, ◌==◌, ◌&&◌, ◌||◌, List, [], ◌∷◌, length, get_or, bit_and,
  bit_xor, refl, sym, arith,
}
use ka9q_unix.Base.Bits.{every_below, every_below-holds}
use ka9q_unix.Ax25.{put_bit, has_bit, with_ssid, addreq, equal_bytes}

pub record IsAddress (a : List ℕ) : Type 0 where
  pub len : length a ≡ 7
  pub ssid : get_or a 6 0 < 256

-- An address that is the same but for the bits, which are as given.
pub record Marked (c e : Bool) (a b : List ℕ) : Type 0 where
  pub len : length b ≡ 7
  pub same : addreq a b ≡ true
  pub high : has_bit 0x80 b ≡ c
  pub low : has_bit 1 b ≡ e

abbrev agrees : Bool → Bool → Bool
agrees true b = b
agrees false b = not b

abbrev fits : Bool → Bool → ℕ → ℕ → Bool
fits c e x y =
    bit_and (bit_xor x y) 0x1e == 0
    && agrees c (not (bit_and y 0x80 == 0))
    && agrees e (not (bit_and y 1 == 0))

agrees_lem : (c b : Bool) → agrees c b ≡ true → b ≡ c
agrees_lem true b h = h
agrees_lem false true h = sym h
agrees_lem false false h = refl

parts : (a b c : Bool) → a && b && c ≡ true → (a ≡ true) × ((b ≡ true) × (c ≡ true))
parts a b c h = ground (arith, h)

both : {a b : Bool} → a ≡ true → b ≡ true → a && b ≡ true
both h k = rw (h, k) refl

equal_bytes_self : (xs : List ℕ) → equal_bytes xs xs ≡ true
unfolding equal_bytes
equal_bytes_self [] = refl
equal_bytes_self (x ∷ xs) = ground (arith, equal_bytes_self xs)

pub with_ssid-Marked :
    (c e : Bool) (f : ℕ → ℕ) (a : List ℕ)
    → IsAddress a
    → fits c e (get_or a 6 0) (f (get_or a 6 0)) ≡ true
    → Marked c e a (with_ssid f a)
unfolding with_ssid has_bit addreq
with_ssid-Marked c e f (x0 ∷ x1 ∷ x2 ∷ x3 ∷ x4 ∷ x5 ∷ x ∷ []) h w =
    let s = equal_bytes_self (x0 ∷ x1 ∷ x2 ∷ x3 ∷ x4 ∷ x5 ∷ []) in
    let p =
      parts (bit_and (bit_xor x (f x)) 0x1e == 0) (agrees c (not (bit_and (f x) 0x80 == 0)))
        (agrees e (not (bit_and (f x) 1 == 0))) w in
    record {
      len = refl;
      same = both s p.0;
      high = agrees_lem c (not (bit_and (f x) 0x80 == 0)) p.1.0;
      low = agrees_lem e (not (bit_and (f x) 1 == 0)) p.1.1;
    }
with_ssid-Marked c e f [] h w = absurd (omega (arith, h.len))
with_ssid-Marked c e f (x0 ∷ []) h w = absurd (omega (arith, h.len))
with_ssid-Marked c e f (x0 ∷ x1 ∷ []) h w = absurd (omega (arith, h.len))
with_ssid-Marked c e f (x0 ∷ x1 ∷ x2 ∷ []) h w = absurd (omega (arith, h.len))
with_ssid-Marked c e f (x0 ∷ x1 ∷ x2 ∷ x3 ∷ []) h w = absurd (omega (arith, h.len))
with_ssid-Marked c e f (x0 ∷ x1 ∷ x2 ∷ x3 ∷ x4 ∷ []) h w = absurd (omega (arith, h.len))
with_ssid-Marked c e f (x0 ∷ x1 ∷ x2 ∷ x3 ∷ x4 ∷ x5 ∷ []) h w = absurd (omega (arith, h.len))
with_ssid-Marked c e f (x0 ∷ x1 ∷ x2 ∷ x3 ∷ x4 ∷ x5 ∷ x ∷ y ∷ ys) h w =
    absurd (omega (arith, h.len))

pub marked_dest :
    (c : Bool) (x : ℕ) → x < 256 → fits c false x (put_bit false 1 (put_bit c 0x80 x)) ≡ true
unfolding put_bit every_below
marked_dest true x h =
    every_below-holds 256 (λ x. fits true false x (put_bit false 1 (put_bit true 0x80 x))) x refl h
marked_dest false x h =
    every_below-holds 256 (λ x. fits false false x (put_bit false 1 (put_bit false 0x80 x))) x refl
      h

pub marked_source :
    (c : Bool) (x : ℕ) → x < 256 → fits c true x (put_bit true 1 (put_bit c 0x80 x)) ≡ true
unfolding put_bit every_below
marked_source true x h =
    every_below-holds 256 (λ x. fits true true x (put_bit true 1 (put_bit true 0x80 x))) x refl h
marked_source false x h =
    every_below-holds 256 (λ x. fits false true x (put_bit true 1 (put_bit false 0x80 x))) x refl h

-- With digipeaters, if E is off in the source address.
pub marked_kept :
    (c : Bool) (x : ℕ)
    → x < 256
    → (bit_and x 1 == 0) ≡ true
    → fits c false x (put_bit c 0x80 x) ≡ true
unfolding put_bit every_below
marked_kept true x h e =
    let k =
      every_below-holds 256 (λ x. not (bit_and x 1 == 0) || fits true false x (put_bit true 0x80 x))
        x refl h in
    ground (arith, e, k)
marked_kept false x h e =
    let k =
      every_below-holds 256
        (λ x. not (bit_and x 1 == 0) || fits false false x (put_bit false 0x80 x)) x refl h in
    ground (arith, e, k)

pub marked_digi :
    (c e : Bool) (x : ℕ) → x < 256 → fits c e x (put_bit c 0x80 (put_bit e 1 x)) ≡ true
unfolding put_bit every_below
marked_digi true true x h =
    every_below-holds 256 (λ x. fits true true x (put_bit true 0x80 (put_bit true 1 x))) x refl h
marked_digi false true x h =
    every_below-holds 256 (λ x. fits false true x (put_bit false 0x80 (put_bit true 1 x))) x refl h
marked_digi true false x h =
    every_below-holds 256 (λ x. fits true false x (put_bit true 0x80 (put_bit false 1 x))) x refl h
marked_digi false false x h =
    every_below-holds 256 (λ x. fits false false x (put_bit false 0x80 (put_bit false 1 x))) x refl
      h
