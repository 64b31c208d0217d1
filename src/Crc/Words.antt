-- ===== src/Crc/Words.antt =====
-- Exclusive or, and one step of the frame check sequence, on words taken as two bytes.
use ka9q_unix.Base.{
  ℕ, zero, suc, ◌+◌, ◌*◌, ◌/◌, ◌%◌, ◌^◌, ◌≤◌, ◌<◌, ◌≡◌, refl, bit_and, bit_xor, get_or, arith,
}
use Prim.Native.Nat.{differ, bit_xor-bitwise}
use native.Mathlib.Nat.{pow-suc}
use ka9q_unix.Base.Bits.{bit_xor_step, bit_xor_fields, bit_and_mask}
use ka9q_unix.Crc.{fcs}
use ka9q_unix.Crc.Table.{fcstab}

differ_cases : (x y : ℕ) → x < 2 → y < 2 → (differ x y < 2) × (differ (differ x y) y ≡ x)
differ_cases zero zero h k = (omega arith, refl)
differ_cases zero (suc zero) h k = (omega arith, refl)
differ_cases (suc zero) zero h k = (omega arith, refl)
differ_cases (suc zero) (suc zero) h k = (omega arith, refl)
differ_cases zero (suc (suc y)) h k = absurd (omega arith)
differ_cases (suc zero) (suc (suc y)) h k = absurd (omega arith)
differ_cases (suc (suc x)) y h k = absurd (omega arith)

cancel_fuel : (n a b : ℕ) → a ≤ n → b ≤ n → bit_xor (bit_xor a b) b ≡ a
cancel_fuel zero zero zero h k = refl
cancel_fuel zero zero (suc b) h k = absurd (omega arith)
cancel_fuel zero (suc a) b h k = absurd (omega arith)
cancel_fuel (suc n) a b h k =
    let d = differ_cases (a % 2) (b % 2) (omega arith) (omega arith) in
    let s = bit_xor_step a b in
    let q : bit_xor a b / 2 ≡ bit_xor (a / 2) (b / 2) = omega arith in
    let r : bit_xor a b % 2 ≡ differ (a % 2) (b % 2) = omega arith in
    omega (
      arith,
      rw (q, r) at (bit_xor_step (bit_xor a b) b),
      cancel_fuel n (a / 2) (b / 2) (omega arith) (omega arith),
    )

-- Exclusive or with the same number twice changes nothing.
pub bit_xor_cancel : (a b : ℕ) → bit_xor (bit_xor a b) b ≡ a
bit_xor_cancel a b = cancel_fuel (a + b) a b (omega arith) (omega arith)

pub bit_xor-lt : (k a b : ℕ) → a < 2 ^ k → b < 2 ^ k → bit_xor a b < 2 ^ k
bit_xor-lt zero zero zero h g = omega arith
bit_xor-lt zero zero (suc b) h g = absurd (omega arith)
bit_xor-lt zero (suc a) b h g = absurd (omega arith)
bit_xor-lt (suc k) a b h g = omega (
  arith,
  bit_xor_step a b,
  differ_cases (a % 2) (b % 2) (omega arith) (omega arith),
  pow-suc 2 k,
  bit_xor-lt k (a / 2) (b / 2) (omega (arith, pow-suc 2 k)) (omega (arith, pow-suc 2 k)),
)

-- One step on the word with the high byte `h` and the low byte `l`.
pub fcs_bytes :
    (h l c : ℕ)
    → l < 256
    → c < 256
    → fcs (h * 256 + l) c ≡ bit_xor h (get_or fcstab (bit_xor l c) 0)
fcs_bytes h l c hl hc =
    let z : 0 * 2 ^ 8 + c ≡ c = omega arith in
    let x : bit_xor (h * 256 + l) c ≡ bit_xor h 0 * 2 ^ 8 + bit_xor l c =
      rw z at (bit_xor_fields 8 h 0 l c hl hc) in
    let low : bit_and (bit_xor (h * 256 + l) c) 0xff ≡ bit_xor l c =
      omega (arith, bit_and_mask 8 (bit_xor (h * 256 + l) c), bit_xor-lt 8 l c hl hc) in
    let high : (h * 256 + l) / 2 ^ 8 ≡ h = omega arith in unfold fcs in rw (low, high)

differ_comm : (x y : ℕ) → x < 2 → y < 2 → differ x y ≡ differ y x
differ_comm zero zero h k = refl
differ_comm zero (suc y) h k = refl
differ_comm (suc x) zero h k = refl
differ_comm (suc zero) (suc zero) h k = refl
differ_comm (suc zero) (suc (suc y)) h k = absurd (omega arith)
differ_comm (suc (suc x)) (suc y) h k = absurd (omega arith)

comm_fuel : (n a b : ℕ) → a ≤ n → b ≤ n → bit_xor a b ≡ bit_xor b a
comm_fuel zero zero zero h k = refl
comm_fuel zero zero (suc b) h k = absurd (omega arith)
comm_fuel zero (suc a) b h k = absurd (omega arith)
comm_fuel (suc n) a b h k = omega (
  arith,
  bit_xor_step a b,
  bit_xor_step b a,
  differ_comm (a % 2) (b % 2) (omega arith) (omega arith),
  comm_fuel n (a / 2) (b / 2) (omega arith) (omega arith),
)

pub bit_xor_comm : (a b : ℕ) → bit_xor a b ≡ bit_xor b a
bit_xor_comm a b = comm_fuel (a + b) a b (omega arith) (omega arith)

pub bit_xor_cancel_left : (a b : ℕ) → bit_xor a (bit_xor a b) ≡ b
bit_xor_cancel_left a b = rw (bit_xor_comm a (bit_xor a b), bit_xor_comm a b) (bit_xor_cancel b a)

pub zero-bit_xor : (a : ℕ) → bit_xor 0 a ≡ a
zero-bit_xor a = bit_xor-bitwise 0 a
