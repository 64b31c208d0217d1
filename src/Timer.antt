-- ===== src/Timer.antt =====
-- core/timer.c: the chain of running timers and the loop of timerproc that takes the expired ones off
-- it. A timer is known by its number; the chain is a list of numbers, and the clock an argument.
pub mod Chain
pub mod Expiry
pub mod Start
mod Tests
use ka9q_unix.Base.{
  ℕ, zero, suc, ◌+◌, Bool, true, false, not, ◌==◌, ◌||◌, List, [], ◌∷◌, if◌then◌else◌,
}
use ka9q_unix.Base.Word.{add32, sub32, is_negative}

pub data TimerState : Type 0 where
  timer_stop : TimerState
  timer_run : TimerState
  timer_expire : TimerState

pub record Timer : Type 0 where
  pub duration : ℕ
  pub expiration : ℕ
  pub state : TimerState

pub record Timers : Type 0 where
  pub chain : List ℕ
  pub timer : ℕ → Timer

abbrev pub run_timer : TimerState → Bool
run_timer timer_stop = false
run_timer timer_run = true
run_timer timer_expire = false

abbrev pub assign : ℕ → Timer → (ℕ → Timer) → ℕ → Timer
assign t new timer i = if i == t then new else timer i

abbrev pub on_chain : ℕ → List ℕ → Bool
on_chain t [] = false
on_chain t (x ∷ xs) = x == t || on_chain t xs

unfoldable pub unlink : ℕ → List ℕ → List ℕ
unlink t [] = []
unlink t (x ∷ xs) = if x == t then xs else x ∷ unlink t xs

unfoldable pub stop_timer : ℕ → Timers → Timers
unfolding unlink
stop_timer t w =
    let stopped : Timer = record (w.timer t) { state = timer_stop } in
    if not (run_timer (w.timer t).state)
    then w
    else if not (on_chain t w.chain)
    then w
    else record { chain = unlink t w.chain; timer = assign t stopped w.timer }

-- The place before the first timer that does not expire earlier.
unfoldable pub link : (ℕ → Timer) → ℕ → List ℕ → List ℕ
link timer t [] = t ∷ []
link timer t (tnext ∷ ts) =
    if not (is_negative (sub32 (timer tnext).expiration (timer t).expiration))
    then t ∷ tnext ∷ ts
    else tnext ∷ link timer t ts

unfoldable pub start_timer : ℕ → ℕ → Timers → Timers
unfolding link
start_timer clock t w =
    let w' = if run_timer (w.timer t).state then stop_timer t w else w in
    let old = w'.timer t in
    let new : Timer = record old { expiration = add32 clock old.duration; state = timer_run } in
    let timer' = assign t new w'.timer in
    if old.duration == 0 then w' else record { chain = link timer' t w'.chain; timer = timer' }

-- `mark` is `t->state = TIMER_EXPIRE`.
abbrev pub mark : ℕ → Timers → Timers
mark t w = record w { timer = assign t (record (w.timer t) { state = timer_expire }) w.timer }

abbrev pub is_due : ℕ → Timer → Bool
is_due clock t = not (is_negative (sub32 clock t.expiration))

-- The first loop of timerproc on at most `n` timers; `expired` is the list it has made so far.
unfoldable pub expire_timers : ℕ → ℕ → Timers → List ℕ → Timers × List ℕ
unfolding stop_timer
expire_timers clock zero w expired = (w, expired)
expire_timers clock (suc n) w expired = elim w.chain [
  | [] ↦ (w, expired)
  | t ∷ ts ↦
      let rest = expire_timers clock n (mark t (stop_timer t w)) (t ∷ expired) in
      if is_due clock (w.timer t) then rest else (w, expired)
]
