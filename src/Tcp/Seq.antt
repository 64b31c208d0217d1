-- ===== src/Tcp/Seq.antt =====
-- net/inet/tcpsubr.c: the comparisons of sequence numbers. Differences wrap at 32 bits and are then
-- read as signed; `seq_within` compares the numbers themselves as signed.

use ka9q_unix.Base.{
  ℕ, ◌^◌, ◌<◌, ◌≤◌, ◌≡◌, ◌≢◌, ◌↔◌, Bool, true, false, ◌&&◌, not, leb, if◌then◌else◌, arith,
}
use ka9q_unix.Base.Word.{IsU32, sub32, add32, is_negative, is_positive, biased}

unfoldable pub seq_within : ℕ → ℕ → ℕ → Bool
seq_within x low high =
    if leb (biased low) (biased high)
    then leb (biased low) (biased x) && leb (biased x) (biased high)
    else leb (biased x) (biased low) && leb (biased high) (biased x)

unfoldable pub seq_lt : ℕ → ℕ → Bool
seq_lt x y = is_negative (sub32 x y)

unfoldable pub seq_gt : ℕ → ℕ → Bool
seq_gt x y = is_positive (sub32 x y)

unfoldable pub seq_ge : ℕ → ℕ → Bool
seq_ge x y = not (is_negative (sub32 x y))

-- How far `x` lies beyond `low` on the circle.
abbrev pub ahead : ℕ → ℕ → ℕ
ahead low x = sub32 x low

-- Of two sequence numbers at a distance below half of the circle the comparisons say which one was
-- sent later, wherever the numbers wrap around.
pub seq_lt-ahead :
    (x d : ℕ)
    → IsU32 x
    → 0 < d
    → d < 2 ^ 31
    → (seq_lt x (add32 x d) ≡ true)
      × (seq_gt (add32 x d) x ≡ true)
      × (seq_ge x (add32 x d) ≡ false)
      × (seq_ge (add32 x d) x ≡ true)
unfolding seq_lt seq_gt seq_ge
seq_lt-ahead x d hx h0 h = (ground arith, ground arith, ground arith, ground arith)

-- A window that does not cross the sign boundary holds just the numbers on the way from its lower
-- end to its upper end.
pub seq_within-ahead :
    (x low high : ℕ)
    → IsU32 x
    → IsU32 low
    → IsU32 high
    → biased low ≤ biased high
    → (seq_within x low high ≡ true) ↔ (ahead low x ≤ ahead low high)
unfolding seq_within
seq_within-ahead x low high hx hl hh h = (λ e. ground arith, λ e. ground arith)

-- In a window that does cross it, from a positive to a negative int32, every number but the two ends
-- gets the wrong answer: those inside are refused, and those outside are taken.
pub seq_within_wrong :
    (x low high : ℕ)
    → IsU32 x
    → IsU32 low
    → IsU32 high
    → biased high < biased low
    → x ≢ low
    → x ≢ high
    → (seq_within x low high ≡ true) ↔ (ahead low high < ahead low x)
unfolding seq_within
seq_within_wrong x low high hx hl hh h nl nh = (λ e. ground arith, λ e. ground arith)
