-- ===== src/Timer/Chain.antt =====
-- The chain of timers is sorted by expiration, wherever the clock wraps around.
use ka9q_unix.Base.{
  ℕ, ◌^◌, ◌<◌, ◌≤◌, ◌≡◌, ◌≢◌, true, false, not, ◌==◌, List, [], ◌∷◌, if_cases, arith, refl, sym, ap,
  subst, ◌∙◌,
}
use native.Mathlib.Decide.{ℕ_discrete}
use ka9q_unix.Base.Word.{IsU32, sub32, is_negative}
use ka9q_unix.Timer.{
  Timer, Timers, timer_stop, timer_run, run_timer, assign, on_chain, unlink, stop_timer, link,
}

-- How far a timer expires after `base`.
abbrev pub after : ℕ → (ℕ → Timer) → ℕ → ℕ
after base timer t = sub32 (timer t).expiration base

-- A running timer that expires within half of the circle after `base`.
abbrev pub Runs : ℕ → (ℕ → Timer) → ℕ → Type 0
Runs base timer t =
    IsU32 (timer t).expiration × (after base timer t < 2 ^ 31) × ((timer t).state ≡ timer_run)

-- The timers of the chain run, each but once on it, in the order of expiration after `base`.
abbrev pub SortedAbove : ℕ → (ℕ → Timer) → ℕ → List ℕ → Type 0
SortedAbove base timer floor [] = Unit
SortedAbove base timer floor (t ∷ ts) =
    (floor ≤ after base timer t)
    × Runs base timer t
    × (on_chain t ts ≡ false)
    × SortedAbove base timer (after base timer t) ts

pub record IsChain (base : ℕ) (w : Timers) : Type 0 where
  pub base_small : IsU32 base
  pub sorted : SortedAbove base w.timer 0 w.chain

-- A timer that is not on the chain may change.
pub SortedAbove-assign :
    (base : ℕ) (timer : ℕ → Timer) (x : ℕ) (new : Timer) (floor : ℕ) (ts : List ℕ)
    → on_chain x ts ≡ false
    → SortedAbove base timer floor ts
    → SortedAbove base (assign x new timer) floor ts
SortedAbove-assign base timer x new floor [] n s = tt
SortedAbove-assign base timer x new floor (t ∷ ts) n s =
    let e : (t == x) ≡ false = ground arith in
    let e' : on_chain x ts ≡ false = ground arith in
    let ih = SortedAbove-assign base timer x new (after base timer t) ts e' s.3 in
    rw e (s.0, s.1, s.2, ih)

SortedAbove-mono :
    (base : ℕ) (timer : ℕ → Timer) (floor floor' : ℕ) (ts : List ℕ)
    → floor' ≤ floor
    → SortedAbove base timer floor ts
    → SortedAbove base timer floor' ts
SortedAbove-mono base timer floor floor' [] le s = tt
SortedAbove-mono base timer floor floor' (t ∷ ts) le s = (omega (arith, s.0), s.1, s.2, s.3)

on_chain-unlink : (x t : ℕ) (ts : List ℕ) → on_chain x ts ≡ false → on_chain x (unlink t ts) ≡ false
unfolding unlink
on_chain-unlink x t [] n = refl
on_chain-unlink x t (y ∷ ts) n =
    let e : on_chain x ts ≡ false = ground arith in
    let ih = on_chain-unlink x t ts e in ground arith

-- What is off the chain is not on it any more.
pub unlinked :
    (base : ℕ) (timer : ℕ → Timer) (floor t : ℕ) (ts : List ℕ)
    → SortedAbove base timer floor ts
    → on_chain t (unlink t ts) ≡ false
unfolding unlink
unlinked base timer floor t [] s = refl
unlinked base timer floor t (y ∷ ts) s = elim (ℕ_discrete y t) [
  | yes e ↦
      let f : on_chain t ts ≡ false = subst (λ (k : ℕ). on_chain k ts ≡ false) e s.2 in ground arith
  | no n ↦ let ih = unlinked base timer (after base timer y) t ts s.3 in ground arith
]

unlink-SortedAbove :
    (base : ℕ) (timer : ℕ → Timer) (floor t : ℕ) (ts : List ℕ)
    → SortedAbove base timer floor ts
    → SortedAbove base timer floor (unlink t ts)
unfolding unlink
unlink-SortedAbove base timer floor t [] s = tt
unlink-SortedAbove base timer floor t (y ∷ ts) s =
    if_cases (SortedAbove base timer floor) (y == t)
      (λ e. SortedAbove-mono base timer (after base timer y) floor ts s.0 s.3)
      (λ e. (
        s.0,
        s.1,
        on_chain-unlink y t ts s.2,
        unlink-SortedAbove base timer (after base timer y) t ts s.3,
      ))

on_chain-link :
    (timer : ℕ → Timer) (x t : ℕ) (ts : List ℕ)
    → x ≢ t
    → on_chain x ts ≡ false
    → on_chain x (link timer t ts) ≡ false
unfolding link
on_chain-link timer x t [] n e = ground arith
on_chain-link timer x t (y ∷ ts) n e =
    let e' : on_chain x ts ≡ false = ground arith in
    let ih = on_chain-link timer x t ts n e' in
    if_cases (λ (l : List ℕ). on_chain x l ≡ false)
      (not (is_negative (sub32 (timer y).expiration (timer t).expiration))) (λ c. ground arith)
      (λ c. ground arith)

-- A new timer is assign in its place.
pub link-SortedAbove :
    (base : ℕ) (timer : ℕ → Timer) (floor t : ℕ) (ts : List ℕ)
    → IsU32 base
    → floor ≤ after base timer t
    → Runs base timer t
    → on_chain t ts ≡ false
    → SortedAbove base timer floor ts
    → SortedAbove base timer floor (link timer t ts)
unfolding link
link-SortedAbove base timer floor t [] b le r n s = (le, r, refl, tt)
link-SortedAbove base timer floor t (y ∷ ts) b le r n s =
    let n' : on_chain t ts ≡ false = ground arith in
    let d : y ≢ t = λ e. absurd (ground arith) in
    if_cases (SortedAbove base timer floor)
      (not (is_negative (sub32 (timer y).expiration (timer t).expiration)))
      (λ c.
        let o : after base timer t ≤ after base timer y = ground (arith, r.0, r.1, s.1.0, s.1.1) in
        (le, r, n, (o, s.1, s.2, s.3)))
      (λ c.
        let o : after base timer y ≤ after base timer t = ground (arith, r.0, r.1, s.1.0, s.1.1) in
        (
          s.0,
          s.1,
          on_chain-link timer y t ts d s.2,
          link-SortedAbove base timer (after base timer y) t ts b o r n' s.3,
        ))

pub stop_timer-IsChain : (base t : ℕ) (w : Timers) → IsChain base w → IsChain base (stop_timer t w)
unfolding stop_timer
stop_timer-IsChain base t w c =
    if_cases (IsChain base) (not (run_timer (w.timer t).state)) (λ e. c)
      (λ e.
        if_cases (IsChain base) (not (on_chain t w.chain)) (λ e'. c)
          (λ e'. record {
            base_small = c.base_small;
            sorted =
                SortedAbove-assign base w.timer t (record (w.timer t) { state = timer_stop }) 0
                  (unlink t w.chain) (unlinked base w.timer 0 t w.chain c.sorted)
                  (unlink-SortedAbove base w.timer 0 t w.chain c.sorted);
          }))

-- A timer that does not run is not on the chain.
pub off_chain :
    (base : ℕ) (timer : ℕ → Timer) (floor t : ℕ) (ts : List ℕ)
    → SortedAbove base timer floor ts
    → run_timer (timer t).state ≡ false
    → on_chain t ts ≡ false
off_chain base timer floor t [] s e = refl
off_chain base timer floor t (y ∷ ts) s e =
    let ih = off_chain base timer (after base timer y) t ts s.3 e in
    elim (ℕ_discrete y t) [
      | yes k ↦
          let r : run_timer (timer t).state ≡ true =
            ap (λ (i : ℕ). run_timer (timer i).state) (sym k) ∙ ap run_timer s.1.2 in
          absurd (true_false (sym r ∙ e))
      | no n ↦ ground arith
    ]
  where
    true_false : ¬ (true ≡ false)
    true_false q = cc
