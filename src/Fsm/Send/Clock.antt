-- ===== src/Fsm/Send/Clock.antt =====
-- The part of a machine that decides whether it can be stuck: its state, the timer and the counters
-- of retries, and what the functions that send do to it.
use ka9q_unix.Base.{
  ℕ, ◌-◌, ◌≤◌, ◌≡◌, ◌≢◌, refl, List, Bool, true, false, Option, none, some, arith, ◌==◌, not, ◌||◌,
  ap, subst, if_all, sym, ◌⊎◌, inl, inr, ℕ_discrete,
}
use ka9q_unix.Fsm.{
  Fsm, Protocol, State, closed, listen, req_sent, ack_rcvd, ack_sent, opened, term_sent,
}
use ka9q_unix.Fsm.Send.{
  ◌>>=◌, fsm_send, fsm_output, fsm_timer, fsm_sendreq, fsm_reset, takes_own_id, takes_peer_id,
}

-- `P` holds of the result, if there is one.
pub data Safe {A : Type 0} (P : A → Type 0) : Option A → Type 0 where
  fault : Safe P none
  done : {a : A} → P a → Safe P (some a)

-- There is a result, and `P` holds of it.
pub data Returns {A : Type 0} (P : A → Type 0) : Option A → Type 0 where
  returned : {a : A} → P a → Returns P (some a)

pub Returns-bind :
    {A B : Type 0} {P : A → Type 0} {Q : B → Type 0} (m : Option A) (f : A → Option B)
    → Returns P m
    → ((a : A) → P a → Returns Q (f a))
    → Returns Q (m >>= f)
Returns-bind none f r h = elim r [ ]
Returns-bind (some a) f (returned p) h = h a p

Safe-Returns : {A : Type 0} {P : A → Type 0} {m : Option A} → Returns P m → Safe P m
Safe-Returns (returned p) = done p

pub Safe-bind :
    {A B : Type 0} {P : A → Type 0} {Q : B → Type 0} (m : Option A) (f : A → Option B)
    → Safe P m
    → ((a : A) → P a → Safe Q (f a))
    → Safe Q (m >>= f)
Safe-bind none f p h = fault
Safe-bind (some a) f (done p) h = h a p

pub Safe-map :
    {A : Type 0} {P Q : A → Type 0} {m : Option A} → ((a : A) → P a → Q a) → Safe P m → Safe Q m
Safe-map h fault = fault
Safe-map h (done p) = done (h _ p)

pub record Clock : Type 0 where
  pub state : State
  pub timer : Bool
  pub retry : ℕ
  pub try_req : ℕ
  pub try_terminate : ℕ
  pub duration : ℕ

abbrev pub clock : {D : Type 0} → Fsm D → Clock
clock s = record {
  state = s.state;
  timer = s.timer;
  retry = s.retry;
  try_req = s.try_req;
  try_terminate = s.try_terminate;
  duration = s.duration;
}

-- A machine that waits for an answer has its timer running, one that waits for its Terminate-Request
-- has no retries left, and one at rest has some.
unfoldable pub TimedIn : State → Bool → ℕ → Type 0
TimedIn closed timer retry = retry ≢ 0
TimedIn listen timer retry = retry ≢ 0
TimedIn req_sent timer retry = timer ≡ true
TimedIn ack_rcvd timer retry = timer ≡ true
TimedIn ack_sent timer retry = timer ≡ true
TimedIn opened timer retry = Unit
TimedIn term_sent timer retry = (timer ≡ true) × (retry ≡ 0)

-- The limits are those of every protocol: at least two requests, one Terminate-Request and a timer
-- that can run.
unfoldable pub HasLimits : Clock → Type 0
HasLimits c = (2 ≤ c.try_req) × ((c.try_terminate ≢ 0) × (c.duration ≢ 0))

unfoldable pub IsTimed : Clock → Type 0
unfolding TimedIn HasLimits
IsTimed c = TimedIn c.state c.timer c.retry × HasLimits c

abbrev pub Timed : {D : Type 0} → Fsm D → Type 0
Timed s = IsTimed (clock s)

-- A machine that may be in any of the three states of negotiation.
abbrev pub IsRunning : Clock → Type 0
IsRunning c = (c.timer ≡ true) × HasLimits c

module _ {D : Type 0} (pdc : Protocol D) where
  abbrev Keeps : Fsm D → Fsm D × Bool → Type 0
  Keeps s r = clock r.0 ≡ clock s

  pub fsm_send-clock :
      (s : Fsm D) (code id : ℕ) (body : Option (List ℕ))
      → Safe (λ r. clock r.0 ≡ clock s) (fsm_send pdc s code id body)
  unfolding fsm_send fsm_output
  fsm_send-clock s code id none =
      if_all (Safe (Keeps s)) (not (takes_own_id code || takes_peer_id code)) (done refl) fault
  fsm_send-clock s code id (some b) =
      if_all (Safe (Keeps s)) (not (takes_own_id code || takes_peer_id code)) (done refl)
        (done (if_all (Keeps s) (takes_own_id code) refl refl))

  pub fsm_send-IsTimed :
      (s : Fsm D) (code id : ℕ) (body : Option (List ℕ))
      → IsTimed (clock s)
      → Safe (λ r. IsTimed (clock r.0)) (fsm_send pdc s code id body)
  fsm_send-IsTimed s code id body t =
      Safe-map (λ r e. subst IsTimed (sym e) t) (fsm_send-clock s code id body)

  -- A request that goes out starts the timer and takes one retry.
  pub fsm_sendreq-Returns :
      (s : Fsm D)
      → s.retry ≢ 0
      → s.duration ≢ 0
      → Returns
          (λ r. clock r.0 ≡ record (clock s) { timer = true; retry = s.retry - 1 })
          (fsm_sendreq pdc s)
  unfolding fsm_sendreq fsm_timer fsm_output fsm_send
  fsm_sendreq-Returns s h d =
      let e : s.retry == 0 ≡ false = ground arith in
      let f : s.duration == 0 ≡ false = ground arith in
      rw e (
        returned
          (ap (λ (t : Bool). record (clock s) { timer = t; retry = s.retry - 1 }) (ap not f)))

  pub fsm_sendreq-clock :
      (s : Fsm D)
      → s.retry ≢ 0
      → s.duration ≢ 0
      → Safe
          (λ r. clock r.0 ≡ record (clock s) { timer = true; retry = s.retry - 1 })
          (fsm_sendreq pdc s)
  fsm_sendreq-clock s h d = Safe-Returns (fsm_sendreq-Returns s h d)

  fsm_sendreq_no_retry : (s : Fsm D) → s.retry ≡ 0 → fsm_sendreq pdc s ≡ some (s, false)
  unfolding fsm_sendreq
  fsm_sendreq_no_retry s h = ground arith

  -- Whether there is a retry left or the timer runs already, it runs afterwards.
  pub fsm_sendreq-IsRunning :
      (s : Fsm D)
      → HasLimits (clock s)
      → (s.retry ≢ 0) ⊎ (s.timer ≡ true)
      → Safe (λ r. IsRunning (clock r.0)) (fsm_sendreq pdc s)
  unfolding HasLimits
  fsm_sendreq-IsRunning s l h = elim (ℕ_discrete s.retry 0) [
    | no n ↦ Safe-map (λ r e. subst IsRunning (sym e) (refl, l)) (fsm_sendreq-clock s n l.1.1)
    | yes z ↦
        rw (fsm_sendreq_no_retry s z) (done (elim h [ inl n ↦ elim (n z) [ ] | inr t ↦ (t, l) ]))
  ]

  -- The same for a state that only asks for the timer.
  pub fsm_sendreq-IsTimed :
      (s : Fsm D)
      → ((retry : ℕ) → TimedIn s.state true retry)
      → IsTimed (clock s)
      → Safe (λ r. IsTimed (clock r.0)) (fsm_sendreq pdc s)
  unfolding IsTimed HasLimits
  fsm_sendreq-IsTimed s k t = elim (ℕ_discrete s.retry 0) [
    | no n ↦
        Safe-map (λ r e. subst IsTimed (sym e) (k (s.retry - 1), t.1))
          (fsm_sendreq-clock s n t.1.1.1)
    | yes z ↦ rw (fsm_sendreq_no_retry s z) (done t)
  ]

  pub fsm_reset-IsTimed : (s : Fsm D) → HasLimits (clock s) → IsTimed (clock (fsm_reset pdc s))
  unfolding fsm_reset IsTimed TimedIn HasLimits
  fsm_reset-IsTimed s l =
      let positive : s.try_req ≢ 0 = omega arith in
      (if_all (λ st. TimedIn st s.timer s.try_req) (s.active || s.passive) positive positive, l)

  pub fsm_timer-IsRunning : (s : Fsm D) → HasLimits (clock s) → IsRunning (clock (fsm_timer pdc s))
  unfolding fsm_timer HasLimits
  fsm_timer-IsRunning s l = let f : s.duration == 0 ≡ false = ground arith in (ap not f, l)
