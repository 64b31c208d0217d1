-- ===== src/Fsm/Events/Timer.antt =====
-- A machine never waits without a timer, and a machine that hears nothing comes to rest.
use ka9q_unix.Base.{
  ◌≤◌, ◌≡◌, ◌≢◌, refl, List, [], ◌∷◌, true, false, All, arith, ◌==◌, not, ◌||◌, if_all, if_cases,
  inl, length, get_or,
}
use ka9q_unix.Fsm.{
  Fsm, Protocol, State, closed, listen, req_sent, ack_rcvd, ack_sent, opened, term_sent,
}
use ka9q_unix.Fsm.Send.{fsm_sendreq, fsm_reset}
use ka9q_unix.Fsm.Send.Clock.{
  Safe, fault, done, Safe-bind, clock, HasLimits, IsTimed, Timed, fsm_sendreq-IsRunning,
  fsm_reset-IsTimed,
}
use ka9q_unix.Fsm.Proc.{starting, stopping, closing}
use ka9q_unix.Fsm.Proc.Timer.{fsm_proc-Timed}
use ka9q_unix.Fsm.Proc.Faults.{fsm_sendtermreq_fault}
use ka9q_unix.Fsm.Events.{
  timeout_request, timeout_in, fsm_timeout, start_from, start_in, fsm_start, down_in, fsm_down,
  close_link, close_in, fsm_close, Event, packet, timeout, start, down, close, step, run,
}

-- A packet has a header, and its code is one of the twelve known ones.
unfoldable pub IsKnown : Event → Type 0
IsKnown (packet junk bpp) = (4 ≤ length bpp) × ((1 ≤ get_or bpp 0 0) × (get_or bpp 0 0 ≤ 12))
IsKnown _ = Unit

module _ {D : Type 0} (pdc : Protocol D) where
  waiting_timeout-Timed : (s : Fsm D) → HasLimits (clock s) → Safe Timed (timeout_request pdc s)
  unfolding timeout_request IsTimed
  waiting_timeout-Timed s l =
      if_cases (Safe Timed) (s.retry == 0) (λ z. done (fsm_reset-IsTimed pdc s l))
        (λ n.
          let n' : s.retry ≢ 0 = ground arith in
          Safe-bind (fsm_sendreq pdc s) _ (fsm_sendreq-IsRunning pdc s l (inl n')) (λ r t. done t))

  timeout_in-Timed :
      (st : State) (s : Fsm D)
      → IsTimed (clock (record s { state = st }))
      → Safe Timed (timeout_in pdc st (record s { state = st; timer = false }))
  unfolding timeout_in IsTimed
  timeout_in-Timed closed s t = done t
  timeout_in-Timed listen s t = done t
  timeout_in-Timed opened s t = done t
  timeout_in-Timed req_sent s t =
      waiting_timeout-Timed (record s { state = req_sent; timer = false }) t.1
  timeout_in-Timed ack_sent s t =
      waiting_timeout-Timed (record s { state = ack_sent; timer = false }) t.1
  timeout_in-Timed ack_rcvd s t =
      waiting_timeout-Timed (record s { state = ack_rcvd; timer = false }) t.1
  timeout_in-Timed term_sent s t =
      let s' = stopping pdc (record s { state = term_sent; timer = false }) in
      let e : s.retry == 0 ≡ true = rw t.0.1 refl in rw e (done (fsm_reset-IsTimed pdc s' t.1))

  start_from-Timed : (s : Fsm D) → HasLimits (clock s) → Safe Timed (start_from pdc s)
  unfolding start_from fsm_reset HasLimits IsTimed
  start_from-Timed s l =
      let s' = fsm_reset pdc (starting pdc s) in
      let n : s'.retry ≢ 0 = omega arith in
      if_all (Safe Timed) s.active
        (Safe-bind (fsm_sendreq pdc s') _ (fsm_sendreq-IsRunning pdc s' l (inl n)) (λ r t. done t))
        (done (fsm_reset-IsTimed pdc (starting pdc s) l))

  start_in-Timed :
      (st : State) (s : Fsm D)
      → IsTimed (clock (record s { state = st }))
      → Safe Timed (start_in pdc st (record s { state = st }))
  unfolding start_in IsTimed
  start_in-Timed closed s t = start_from-Timed _ t.1
  start_in-Timed listen s t = start_from-Timed _ t.1
  start_in-Timed term_sent s t = start_from-Timed _ t.1
  start_in-Timed opened s t = done t
  start_in-Timed req_sent s t = done t
  start_in-Timed ack_sent s t = done t
  start_in-Timed ack_rcvd s t = done t

  down_in-Timed :
      (st : State) (s : Fsm D)
      → IsTimed (clock (record s { state = st }))
      → Timed (down_in pdc st (record s { state = st }))
  unfolding down_in IsTimed
  down_in-Timed closed s t = t
  down_in-Timed listen s t = t
  down_in-Timed term_sent s t = fsm_reset-IsTimed pdc (record s { state = term_sent }) t.1
  down_in-Timed opened s t = fsm_reset-IsTimed pdc (closing pdc (record s { state = opened })) t.1
  down_in-Timed req_sent s t =
      fsm_reset-IsTimed pdc (record s { state = req_sent; timer = false }) t.1
  down_in-Timed ack_sent s t =
      fsm_reset-IsTimed pdc (record s { state = ack_sent; timer = false }) t.1
  down_in-Timed ack_rcvd s t =
      fsm_reset-IsTimed pdc (record s { state = ack_rcvd; timer = false }) t.1

  close_link-Timed : (s : Fsm D) → HasLimits (clock s) → Safe Timed (close_link pdc s)
  unfolding close_link HasLimits
  close_link-Timed s l =
      rw (fsm_sendtermreq_fault pdc (record s { retry = s.try_terminate }) l.1.0) fault

  close_in-Timed :
      (st : State) (s : Fsm D)
      → IsTimed (clock (record s { state = st }))
      → Safe Timed (close_in pdc st (record s { state = st }))
  unfolding close_in IsTimed
  close_in-Timed closed s t = done t
  close_in-Timed listen s t = done t
  close_in-Timed term_sent s t = done t
  close_in-Timed opened s t = close_link-Timed (closing pdc (record s { state = opened })) t.1
  close_in-Timed ack_sent s t = close_link-Timed (record s { state = ack_sent }) t.1
  close_in-Timed req_sent s t = done ((t.0, refl), t.1)
  close_in-Timed ack_rcvd s t = done ((t.0, refl), t.1)

  step-Timed : (e : Event) (s : Fsm D) → IsKnown e → Timed s → Safe Timed (step pdc e s)
  unfolding step fsm_timeout fsm_start fsm_down fsm_close IsKnown
  step-Timed (packet junk bpp) s k t = fsm_proc-Timed pdc junk s bpp k.0 k.1.0 k.1.1 t
  step-Timed timeout s k t = timeout_in-Timed s.state s t
  step-Timed start s k t =
      if_all (Safe Timed) (not s.has_pdv) (done t)
        (if_all (Safe Timed) (not (s.active || s.passive)) (done t) (start_in-Timed s.state s t))
  step-Timed down s k t = done (if_all Timed (not s.has_pdv) t (down_in-Timed s.state s t))
  step-Timed close s k t = if_all (Safe Timed) (not s.has_pdv) (done t) (close_in-Timed s.state s t)

  -- Of packets with a whole header and a code from 1 to 12, timeouts, starts, downs and closes, in
  -- any order: a machine that is not at rest and not opened has its timer running, a machine at
  -- rest has retries left, and one that waits for its Terminate-Request has none. This stays so as
  -- long as no function of the machine fails by an access through a null pointer, if it is so at
  -- first and the limits are at least two requests, one Terminate-Request and a timer that can
  -- run.
  pub run-Timed :
      (events : List Event) (s : Fsm D)
      → All IsKnown events
      → Timed s
      → Safe Timed (run pdc events s)
  unfolding run
  run-Timed [] s k t = done t
  run-Timed (e ∷ rest) s k t =
      Safe-bind (step pdc e s) _ (step-Timed e s k.0 t) (λ s' t'. run-Timed rest s' k.1 t')
