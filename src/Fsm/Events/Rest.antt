-- ===== src/Fsm/Events/Rest.antt =====
-- A machine that hears nothing comes to rest.
use ka9q_unix.Base.{
  ℕ, ◌+◌, ◌-◌, ◌≡◌, ◌≢◌, refl, ◌∙◌, true, false, Option, zero, suc, arith, ◌==◌, ◌||◌, subst,
  if_all, if_cases, sym, ◌⊎◌, inl, inr,
}
use ka9q_unix.Fsm.{
  Fsm, Protocol, State, closed, listen, req_sent, ack_rcvd, ack_sent, opened, term_sent,
}
use ka9q_unix.Fsm.Send.{fsm_sendreq, fsm_reset}
use ka9q_unix.Fsm.Send.Clock.{
  Returns, returned, Returns-bind, clock, Clock, HasLimits, IsTimed, Timed, fsm_sendreq-Returns,
}
use ka9q_unix.Fsm.Events.{
  timeout_request, timeout_terminate, timeout_in, fsm_timeout, expire, expire_times,
}

unfoldable pub IsAtRest : State → Type 0
IsAtRest closed = Unit
IsAtRest listen = Unit
IsAtRest _ = ⊥

-- What one timeout makes of a machine with `n` retries.
Next : ℕ → Clock → Type 0
Next n c = IsAtRest c.state ⊎ ((IsTimed c × (c.state ≢ opened)) × (c.retry + 1 ≡ n))

pub req_sent_not_opened : req_sent ≢ opened
req_sent_not_opened e = subst is_req_sent e tt
  where
    is_req_sent : State → Type 0
    is_req_sent req_sent = Unit
    is_req_sent _ = ⊥

module _ {D : Type 0} (pdc : Protocol D) where
  abbrev Rests : Option (Fsm D) → Type 0
  Rests = Returns (λ s'. IsAtRest s'.state)

  timeout_at_rest :
      (st : State) (s : Fsm D)
      → IsAtRest st
      → Rests (timeout_in pdc st (record s { state = st; timer = false }))
  unfolding timeout_in IsAtRest
  timeout_at_rest closed s r = returned tt
  timeout_at_rest listen s r = returned tt
  timeout_at_rest req_sent s r = elim r [ ]
  timeout_at_rest ack_sent s r = elim r [ ]
  timeout_at_rest ack_rcvd s r = elim r [ ]
  timeout_at_rest opened s r = elim r [ ]
  timeout_at_rest term_sent s r = elim r [ ]

  expire_at_rest : (s : Fsm D) → IsAtRest s.state → Rests (expire pdc s)
  unfolding expire fsm_timeout
  expire_at_rest s r = if_all Rests s.timer (timeout_at_rest s.state s r) (returned r)

  rest_expires : (n : ℕ) (s : Fsm D) → IsAtRest s.state → Rests (expire_times pdc n s)
  unfolding expire_times
  rest_expires zero s r = returned r
  rest_expires (suc n) s r =
      Returns-bind (expire pdc s) _ (expire_at_rest s r) (λ s' r'. rest_expires n s' r')

  reset-IsAtRest : (s : Fsm D) → IsAtRest (fsm_reset pdc s).state
  unfolding fsm_reset IsAtRest
  reset-IsAtRest s = if_all IsAtRest (s.active || s.passive) tt tt

  timeout_request-Next :
      (s : Fsm D)
      → HasLimits (clock s)
      → Returns (λ s'. Next s.retry (clock s')) (timeout_request pdc s)
  unfolding timeout_request Next IsTimed HasLimits
  timeout_request-Next s l =
      let P = Returns (λ (s' : Fsm D). Next s.retry (clock s')) in
      if_cases P (s.retry == 0) (λ z. returned (inl (reset-IsAtRest s)))
        (λ n.
          let n' : s.retry ≢ 0 = ground arith in
          let one_less : s.retry - 1 + 1 ≡ s.retry = omega arith in
          Returns-bind (fsm_sendreq pdc s) _ (fsm_sendreq-Returns pdc s n' l.1.1) (λ r e. returned (
            inr (
              subst
                (λ c.
                  (IsTimed (record c { state = req_sent }) × (req_sent ≢ opened))
                  × (c.retry + 1 ≡ s.retry))
                (sym e) (((refl, l), req_sent_not_opened), one_less)))))

  timeout_in-Next :
      (st : State) (s : Fsm D)
      → IsTimed (clock (record s { state = st }))
      → st ≢ opened
      → Returns (λ s'. Next s.retry (clock s')) (expire pdc (record s { state = st }))
  unfolding expire fsm_timeout timeout_in timeout_terminate IsTimed Next IsAtRest
  timeout_in-Next closed s t o =
      if_all (Returns (λ (s' : Fsm D). Next s.retry (clock s'))) s.timer (returned (inl tt))
        (returned (inl tt))
  timeout_in-Next listen s t o =
      if_all (Returns (λ (s' : Fsm D). Next s.retry (clock s'))) s.timer (returned (inl tt))
        (returned (inl tt))
  timeout_in-Next req_sent s t o = rw t.0 (timeout_request-Next _ t.1)
  timeout_in-Next ack_sent s t o = rw t.0 (timeout_request-Next _ t.1)
  timeout_in-Next ack_rcvd s t o = rw t.0 (timeout_request-Next _ t.1)
  timeout_in-Next opened s t o = elim (o refl) [ ]
  timeout_in-Next term_sent s t o =
      let e : s.retry == 0 ≡ true = rw t.0.1 refl in
      rw t.0.0 (rw e (returned (inl (reset-IsAtRest _))))

  next-Rests :
      (n : ℕ) (s : Fsm D)
      → IsTimed (clock s)
      → s.state ≢ opened
      → s.retry ≡ n
      → Rests (expire_times pdc (suc n) s)
  unfolding expire_times Next
  next-Rests zero s t o e = Returns-bind (expire pdc s) _ (timeout_in-Next s.state s t o) (λ s' h.
      elim h [ inl r ↦ returned r | inr q ↦ let f : s'.retry + 1 ≡ 0 = q.1 ∙ e in ground arith ])
  next-Rests (suc n) s t o e =
      Returns-bind (expire pdc s) _ (timeout_in-Next s.state s t o) (λ s' h. elim h [
        | inl r ↦ rest_expires (suc n) s' r
        | inr q ↦
            let f : s'.retry + 1 ≡ suc n = q.1 ∙ e in next-Rests n s' q.0.0 q.0.1 (omega arith)
      ])

  -- A machine that is not opened comes to rest if its timer runs wherever it waits: when nothing
  -- arrives, it is in Listen or in Closed after one timeout more than it has retries, and no
  -- function of it failed on the way. It is assumed that it has no retries left if it waits for
  -- its Terminate-Request, some if it is at rest, and that its limits are at least two requests,
  -- one Terminate-Request and a timer that can run.
  pub expire_times-IsAtRest :
      (s : Fsm D)
      → Timed s
      → s.state ≢ opened
      → Returns (λ s'. IsAtRest s'.state) (expire_times pdc (suc s.retry) s)
  expire_times-IsAtRest s t o = next-Rests s.retry s t o refl
