-- ===== src/Timer/Expiry.antt =====
-- timerproc takes just the timers that are due off the chain.
use ka9q_unix.Base.{
  ℕ, zero, suc, ◌^◌, ◌<◌, ◌≤◌, ◌≡◌, Bool, true, false, not, ◌==◌, List, [], ◌∷◌, arith,
  if◌then◌else◌, Bool-cases, inl, inr, refl, sym, ap, ◌∙◌, length,
}
use native.Mathlib.Decide.{ℕ_discrete}
use ka9q_unix.Base.Word.{IsU32, sub32}
use ka9q_unix.Timer.{
  Timer, Timers, timer_stop, timer_run, timer_expire, run_timer, assign, unlink, stop_timer, is_due,
  expire_timers,
}
use ka9q_unix.Timer.Chain.{after, Runs, SortedAbove, SortedAbove-assign, IsChain}

-- The timers of a list that a test holds for.
abbrev pub select : (ℕ → Bool) → List ℕ → List ℕ
select p [] = []
select p (t ∷ ts) = if p t then t ∷ select p ts else select p ts

-- A list in front of another, turned around.
abbrev pub turned_onto : List ℕ → List ℕ → List ℕ
turned_onto [] rest = rest
turned_onto (t ∷ ts) rest = turned_onto ts (t ∷ rest)

select_same : (p q : ℕ → Bool) (ts : List ℕ) → ((t : ℕ) → p t ≡ q t) → select p ts ≡ select q ts
select_same p q [] e = refl
select_same p q (t ∷ ts) e = let ih = select_same p q ts e in let h = e t in ground arith

stop_timer_head :
    (t : ℕ) (ts : List ℕ) (timer : ℕ → Timer)
    → (timer t).state ≡ timer_run
    → stop_timer t (record { chain = t ∷ ts; timer = timer })
      ≡ record { chain = ts; timer = assign t (record (timer t) { state = timer_stop }) timer }
unfolding stop_timer unlink
stop_timer_head t ts timer e =
    let r : run_timer (timer t).state ≡ true = ap run_timer e in
    let s : (t == t) ≡ true = ground arith in rw (r, s) refl

-- The table of timers after one of them was stopped and marked.
abbrev marked : ℕ → (ℕ → Timer) → ℕ → Timer
marked t timer =
    let stopped : Timer = record (timer t) { state = timer_stop } in
    let timer' = assign t stopped timer in
    assign t (record (timer' t) { state = timer_expire }) timer'

marked-is_due :
    (clock t : ℕ) (timer : ℕ → Timer) (i : ℕ)
    → is_due clock (marked t timer i) ≡ is_due clock (timer i)
marked-is_due clock t timer i = elim (ℕ_discrete i t) [
  | yes e ↦
      let b : (i == t) ≡ true = ground arith in
      let s : (t == t) ≡ true = ground arith in
      rw (b, s) (ap (λ (k : ℕ). is_due clock (timer k)) (sym e))
  | no n ↦ let b : (i == t) ≡ false = ground arith in rw b refl
]

module _ (base clock : ℕ) (u : IsU32 clock) (v : IsU32 base)
    (near : sub32 clock base < 2 ^ 31) where
  is_due-after :
      (timer : ℕ → Timer) (t : ℕ)
      → Runs base timer t
      → is_due clock (timer t) ≡ false
      → sub32 clock base < after base timer t
  is_due-after timer t r e = ground (arith, r.0, r.1)

  after-is_due :
      (timer : ℕ → Timer) (t : ℕ)
      → Runs base timer t
      → sub32 clock base < after base timer t
      → is_due clock (timer t) ≡ false
  after-is_due timer t r e = ground (arith, r.0, r.1)

  -- Behind a timer that is not due there is none that is.
  none_due :
      (timer : ℕ → Timer) (floor : ℕ) (ts : List ℕ)
      → SortedAbove base timer floor ts
      → sub32 clock base < floor
      → (select (λ t. is_due clock (timer t)) ts ≡ [])
        × (select (λ t. not (is_due clock (timer t))) ts ≡ ts)
  none_due timer floor [] s lt = (refl, refl)
  none_due timer floor (t ∷ ts) s lt =
      let lt' : sub32 clock base < after base timer t = omega (arith, s.0) in
      let e = after-is_due timer t s.1 lt' in
      let ih = none_due timer (after base timer t) ts s.3 lt' in rw e (ih.0, ap (◌∷◌ t) ih.1)

  -- What the loop leaves and what it takes.
  abbrev Splits : (ℕ → Timer) → List ℕ → List ℕ → Timers × List ℕ → Type 0
  Splits timer ts expired r =
      (r.0.chain ≡ select (λ t. not (is_due clock (timer t))) ts)
      × (r.1 ≡ turned_onto (select (λ t. is_due clock (timer t)) ts) expired)
      × IsChain base r.0

  expire_timers-Splits :
      (n : ℕ) (timer : ℕ → Timer) (floor : ℕ) (ts expired : List ℕ)
      → SortedAbove base timer floor ts
      → length ts ≤ n
      → Splits timer ts expired
          (expire_timers clock n (record { chain = ts; timer = timer }) expired)
  unfolding expire_timers
  expire_timers-Splits zero timer floor [] expired s le =
      (refl, refl, record { base_small = v; sorted = tt })
  expire_timers-Splits zero timer floor (t ∷ ts) expired s le = absurd (omega arith)
  expire_timers-Splits (suc n) timer floor [] expired s le =
      (refl, refl, record { base_small = v; sorted = tt })
  expire_timers-Splits (suc n) timer floor (t ∷ ts) expired s le =
      elim (Bool-cases (is_due clock (timer t))) [
        | inr e ↦
            let lt = is_due-after timer t s.1 e in
            let none = none_due timer (after base timer t) ts s.3 lt in
            rw e (
              ap (◌∷◌ t) (sym none.1),
              ap (λ (l : List ℕ). turned_onto l expired) (sym none.0),
              record { base_small = v; sorted = (omega arith, s.1, s.2, s.3) },
            )
        | inl e ↦
            let stopped : Timer = record (timer t) { state = timer_stop } in
            let timer' = assign t stopped timer in
            let final : Timer = record (timer' t) { state = timer_expire } in
            let s' =
              SortedAbove-assign base timer' t final (after base timer t) ts s.2
                (SortedAbove-assign base timer t stopped (after base timer t) ts s.2 s.3) in
            let ih =
              expire_timers-Splits n (marked t timer) (after base timer t) ts (t ∷ expired) s'
                (omega arith) in
            let h = stop_timer_head t ts timer s.1.2 in
            let same = marked-is_due clock t timer in
            let waits =
              select_same (λ i. not (is_due clock (marked t timer i)))
                (λ i. not (is_due clock (timer i))) ts (λ i. ap not (same i)) in
            let due =
              select_same (λ i. is_due clock (marked t timer i)) (λ i. is_due clock (timer i)) ts
                same in
            rw (e, h)
              (ih.0 ∙ waits, ih.1 ∙ ap (λ (l : List ℕ). turned_onto l (t ∷ expired)) due, ih.2)
      ]

-- On a chain that is in order, timerproc takes off just the timers that are due, the last one that
-- expired first on its list, and leaves the others on a chain in order; all expirations and the clock
-- lie within half of the circle after one time, and there are rounds for the whole chain.
pub expire_timers-due :
    (base clock n : ℕ) (w : Timers)
    → IsU32 clock
    → sub32 clock base < 2 ^ 31
    → IsChain base w
    → length w.chain ≤ n
    → let r = expire_timers clock n w [] in
      (r.0.chain ≡ select (λ t. not (is_due clock (w.timer t))) w.chain)
      × (r.1 ≡ turned_onto (select (λ t. is_due clock (w.timer t)) w.chain) [])
      × IsChain base r.0
expire_timers-due base clock n w u near c le =
    expire_timers-Splits base clock u c.base_small near n w.timer 0 w.chain [] c.sorted le
