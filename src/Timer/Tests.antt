-- ===== src/Timer/Tests.antt =====
-- The theorems on timers at three timers around the wrap of the clock.
use ka9q_unix.Base.{ℕ, zero, suc, ◌≡◌, not, [], ◌∷◌, arith, refl}
use ka9q_unix.Timer.{Timer, Timers, timer_stop, timer_run, expire_timers, is_due}
use ka9q_unix.Timer.Chain.{IsChain}
use ka9q_unix.Timer.Expiry.{select, turned_onto, expire_timers-due}

-- Timer 1 expires before the clock wraps, timer 2 behind; timer 3 does not run.
timers : ℕ → Timer
timers zero = record { duration = 5; expiration = 0; state = timer_stop }
timers (suc zero) = record { duration = 5; expiration = 0xfffffffe; state = timer_run }
timers (suc (suc zero)) = record { duration = 9; expiration = 3; state = timer_run }
timers (suc (suc (suc n))) = record { duration = 4; expiration = 0; state = timer_stop }

abbrev three : Timers
three = record { chain = 1 ∷ 2 ∷ []; timer = timers }

three-IsChain : IsChain 0xfffffff0 three
unfolding timers
three-IsChain = record {
  base_small = omega arith;
  sorted = (
    omega arith,
    (omega arith, omega arith, refl),
    refl,
    (omega arith, (omega arith, omega arith, refl), refl, tt),
  );
}

expire_timers-due_example :
    let r = expire_timers 1 2 three [] in
    (r.0.chain ≡ select (λ t. not (is_due 1 (three.timer t))) three.chain)
    × (r.1 ≡ turned_onto (select (λ t. is_due 1 (three.timer t)) three.chain) [])
    × IsChain 0xfffffff0 r.0
expire_timers-due_example =
    expire_timers-due 0xfffffff0 1 2 three (omega arith) (omega arith) three-IsChain (omega arith)
