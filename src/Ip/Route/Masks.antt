-- ===== src/Ip/Route/Masks.antt =====
-- Masks of leading bits.
use ka9q_unix.Base.{
  ℕ, zero, suc, ◌-◌, ◌*◌, ◌/◌, ◌^◌, ◌<◌, ◌≤◌, ◌≡◌, sym, ap, ap₂, ◌∙◌, arith, bit_and,
}
use native.Mathlib.Nat.{
  pow-suc, one-le-pow, mod-eq_of_lt, div-div-eq-div-mul, mul-div_cancel, div-mul-le_self,
}
use ka9q_unix.Base.Bits.{bit_and_step, bit_and_mask}
use ka9q_unix.Base.Word.{u32}
use ka9q_unix.Ip.Route.{prefix_mask}

pow_mono : (k w : ℕ) → k ≤ w → 2 ^ k ≤ 2 ^ w
pow_mono zero w h = one-le-pow w 2 (omega arith)
pow_mono (suc k) zero h = absurd (omega arith)
pow_mono (suc k) (suc w) h = omega (arith, pow-suc 2 k, pow-suc 2 w, pow_mono k w (omega arith))

-- The `k` low bits are off.
high_mask : (k w a : ℕ) → k ≤ w → a < 2 ^ w → bit_and a (2 ^ w - 2 ^ k) ≡ a / 2 ^ k * 2 ^ k
high_mask zero w a h l = bit_and_mask w a ∙ (rw (mod-eq_of_lt l) (omega arith))
high_mask (suc k) zero a h l = absurd (omega arith)
high_mask (suc k) (suc w) a h l =
    let p = pow-suc 2 k in
    let q = pow-suc 2 w in
    let le : 2 ^ k ≤ 2 ^ w = pow_mono k w (omega arith) in
    let ih = high_mask k w (a / 2) (omega arith) (omega (arith, q)) in
    let b : (2 ^ suc w - 2 ^ suc k) / 2 ≡ 2 ^ w - 2 ^ k = omega (arith, p, q) in
    let step = bit_and_step a (2 ^ suc w - 2 ^ suc k) in
    let e : bit_and (a / 2) ((2 ^ suc w - 2 ^ suc k) / 2) ≡ a / 2 / 2 ^ k * 2 ^ k = rw b ih in
    let dd : a / 2 ^ suc k ≡ a / 2 / 2 ^ k =
      let t : 2 ^ suc k ≡ 2 * 2 ^ k = omega (arith, p) in
      ap (λ (n : ℕ). a / n) t ∙ sym (div-div-eq-div-mul a 2 (2 ^ k)) in
    omega (arith, step, e, p, q, le, ap₂ (λ (x y : ℕ). x * y) dd p)

-- The address with all but its first `n` bits off.
abbrev pub prefix : ℕ → ℕ → ℕ
prefix n a = a / 2 ^ (32 - n) * 2 ^ (32 - n)

-- The mask of `n` leading bits.
abbrev pub leading : ℕ → ℕ
leading n = 2 ^ 32 - 2 ^ (32 - n)

pow_range : (n : ℕ) → (1 ≤ 2 ^ (32 - n)) × (2 ^ (32 - n) ≤ 2 ^ 32)
pow_range n = (one-le-pow (32 - n) 2 (omega arith), pow_mono (32 - n) 32 (omega arith))

pub prefix_mask-leading : (n : ℕ) → prefix_mask n ≡ leading n
unfolding prefix_mask
prefix_mask-leading n = omega (arith, pow_range n)

pub bit_and-leading : (n a : ℕ) → a < 2 ^ 32 → bit_and a (leading n) ≡ prefix n a
bit_and-leading n a h = high_mask (32 - n) 32 a (omega arith) h

-- One bit less.
pub leading_shift : (b : ℕ) → b < 32 → u32 (leading (suc b) * 2) ≡ leading b
leading_shift b h =
    let e : 32 - b ≡ suc (32 - suc b) = omega arith in
    let p : 2 ^ (32 - b) ≡ 2 ^ (32 - suc b) * 2 =
      ap (λ (k : ℕ). 2 ^ k) e ∙ pow-suc 2 (32 - suc b) in
    omega (arith, p, pow_range b, pow_range (suc b))

pub prefix-prefix : (b a : ℕ) → b < 32 → prefix b (prefix (suc b) a) ≡ prefix b a
prefix-prefix b a h =
    let p = 2 ^ (32 - suc b) in
    let e : 32 - b ≡ suc (32 - suc b) = omega arith in
    let q : 2 ^ (32 - b) ≡ p * 2 = ap (λ (k : ℕ). 2 ^ k) e ∙ pow-suc 2 (32 - suc b) in
    let c : a / p * p / p ≡ a / p = mul-div_cancel (a / p) (pow_range (suc b)).0 in
    let d : a / p * p / (p * 2) ≡ a / (p * 2) =
      sym (div-div-eq-div-mul (a / p * p) p 2)
      ∙ ap (λ (x : ℕ). x / 2) c
      ∙ div-div-eq-div-mul a p 2 in
    rw q (ap (λ (x : ℕ). x * (p * 2)) d)

pub prefix-le : (n a : ℕ) → prefix n a ≤ a
prefix-le n a = div-mul-le_self a (2 ^ (32 - n))
