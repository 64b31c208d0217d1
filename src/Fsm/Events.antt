-- ===== src/Fsm/Events.antt =====
-- pppfsm.c: the other events of the machine. The timer that fires no longer runs when `fsm_timeout`
-- is called.
pub mod Timer
pub mod Rest
use ka9q_unix.Base.{
  ℕ, zero, suc, List, [], ◌∷◌, Bool, true, false, Option, none, some, ◌==◌, ◌||◌, not,
  if◌then◌else◌,
}
use ka9q_unix.Fsm.{
  Fsm, Header, Protocol, State, closed, listen, req_sent, ack_rcvd, ack_sent, opened, term_sent,
}
use ka9q_unix.Fsm.Send.{◌>>=◌, fsm_timer, fsm_sendreq, fsm_sendtermreq, fsm_reset}
use ka9q_unix.Fsm.Proc.{fsm_proc, starting, stopping, closing}

-- What can happen to a machine.
pub data Event : Type 0 where
  packet : Header → List ℕ → Event
  timeout start down close : Event

module _ {D : Type 0} (pdc : Protocol D) where
  timeout_request : Fsm D → Option (Fsm D)
  timeout_request s =
      if s.retry == 0
      then some (fsm_reset pdc s)
      else fsm_sendreq pdc s >>= λ r. some (record r.0 { state = req_sent })

  timeout_terminate : Fsm D → Option (Fsm D)
  timeout_terminate s =
      if s.retry == 0
      then some (fsm_reset pdc (stopping pdc s))
      else fsm_sendtermreq pdc s >>= λ r. some r.0

  timeout_in : State → Fsm D → Option (Fsm D)
  unfolding timeout_request timeout_terminate
  timeout_in req_sent s = timeout_request s
  timeout_in ack_rcvd s = timeout_request s
  timeout_in ack_sent s = timeout_request s
  timeout_in term_sent s = timeout_terminate s
  timeout_in _ s = some s

  pub fsm_timeout : Fsm D → Option (Fsm D)
  unfolding timeout_in
  fsm_timeout s = timeout_in s.state (record s { timer = false })

  start_from : Fsm D → Option (Fsm D)
  start_from s =
      let s' = fsm_reset pdc (starting pdc s) in
      if s.active
      then (fsm_sendreq pdc s' >>= λ r. some (record r.0 { state = req_sent }))
      else some s'

  start_in : State → Fsm D → Option (Fsm D)
  unfolding start_from
  start_in closed s = start_from s
  start_in listen s = start_from s
  start_in term_sent s = start_from s
  start_in _ s = some s

  -- Open event, with the line up.
  pub fsm_start : Fsm D → Option (Fsm D)
  unfolding start_in
  fsm_start s =
      if not s.has_pdv
      then some s
      else if not (s.active || s.passive)
      then some s
      else start_in s.state s

  down_in : State → Fsm D → Fsm D
  down_in req_sent s = fsm_reset pdc (record s { timer = false })
  down_in ack_rcvd s = fsm_reset pdc (record s { timer = false })
  down_in ack_sent s = fsm_reset pdc (record s { timer = false })
  down_in opened s = fsm_reset pdc (closing pdc s)
  down_in term_sent s = fsm_reset pdc s
  down_in _ s = s

  -- Physical line down.
  pub fsm_down : Fsm D → Fsm D
  unfolding down_in
  fsm_down s = if not s.has_pdv then s else down_in s.state s

  -- From fsmACK_Sent on.
  close_link : Fsm D → Option (Fsm D)
  close_link s = fsm_sendtermreq pdc (record s { retry = s.try_terminate }) >>= λ r.
      some (record r.0 { state = term_sent })

  close_in : State → Fsm D → Option (Fsm D)
  unfolding close_link
  close_in opened s = close_link (closing pdc s)
  close_in ack_sent s = close_link s
  close_in req_sent s = some (record s { retry = 0; state = term_sent })
  close_in ack_rcvd s = some (record s { retry = 0; state = term_sent })
  close_in listen s = some (record s { state = closed })
  close_in _ s = some s

  pub fsm_close : Fsm D → Option (Fsm D)
  unfolding close_in
  fsm_close s = if not s.has_pdv then some s else close_in s.state s

  -- Called when a protocol is set up; the timer is started and stopped again.
  pub fsm_init : Fsm D → Fsm D
  fsm_init s =
      let filled = record s {
        try_req = pdc.try_req;
        try_nak = pdc.try_nak;
        try_terminate = pdc.try_terminate;
      } in
      record (fsm_timer pdc (record (fsm_reset pdc filled) { duration = pdc.duration })) {
        timer = false;
      }

  pub fsm_free : Fsm D → Fsm D
  fsm_free s = if s.has_pdv then record s { pdv = pdc.free s.pdv; has_pdv = false } else s

  pub step : Event → Fsm D → Option (Fsm D)
  unfolding fsm_timeout fsm_start fsm_down fsm_close
  step (packet junk bpp) s = fsm_proc pdc junk s bpp
  step timeout s = fsm_timeout s
  step start s = fsm_start s
  step down s = some (fsm_down s)
  step close s = fsm_close s

  pub run : List Event → Fsm D → Option (Fsm D)
  unfolding step
  run [] s = some s
  run (e ∷ rest) s = step e s >>= λ s'. run rest s'

  -- The clock of the machine: the timer expires, if it runs.
  pub expire : Fsm D → Option (Fsm D)
  unfolding fsm_timeout
  expire s = if s.timer then fsm_timeout s else some s

  pub expire_times : ℕ → Fsm D → Option (Fsm D)
  unfolding expire
  expire_times zero s = some s
  expire_times (suc n) s = expire s >>= λ s'. expire_times n s'
