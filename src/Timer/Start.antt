-- ===== src/Timer/Start.antt =====
-- start_timer keeps the chain in order.
use ka9q_unix.Base.{◌⊎◌, ℕ, ◌≡◌, ◌==◌, List, [], ◌∷◌, if◌then◌else◌}
use ka9q_unix.Base.Word.{add32}
use ka9q_unix.Timer.{Timer, Timers, timer_run, run_timer, assign, stop_timer}

abbrev stopped_first : ℕ → Timers → Timers
stopped_first t w = if run_timer (w.timer t).state then stop_timer t w else w

abbrev restarted : ℕ → ℕ → Timers → ℕ → Timer
restarted clock t w =
    let new : Timer = record (w.timer t) {
      expiration = add32 clock (w.timer t).duration;
      state = timer_run;
    } in
    assign t new w.timer

abbrev set_at : ℕ → ℕ → Timer
set_at clock d = record { duration = d; expiration = add32 clock d; state = timer_run }

-- The chain less a timer.
abbrev pub without : ℕ → List ℕ → List ℕ
without t [] = []
without t (x ∷ xs) = if x == t then without t xs else x ∷ without t xs

-- What a change of one timer leaves of the others.
pub record Others (t : ℕ) (w v : Timers) : Type 0 where
  pub chain : without t v.chain ≡ without t w.chain
  pub timer : (i : ℕ) → v.timer i ≡ assign t (v.timer t) w.timer i

-- How a started timer is set.
abbrev pub HasExpiry : ℕ → ℕ → Timers → Timers → Type 0
HasExpiry clock t w v =
    ((w.timer t).duration ≡ 0)
    ⊎ (v.timer t ≡ record {
      duration = (w.timer t).duration;
      expiration = add32 clock (w.timer t).duration;
      state = timer_run;
    })
