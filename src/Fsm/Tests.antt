-- ===== src/Fsm/Tests.antt =====
-- The theorems on the machine at a concrete protocol.
use ka9q_unix.Base.{ℕ, ◌≡◌, refl, List, [], ◌∷◌, arith, true, false, none, All}
use ka9q_unix.Fsm.{Fsm, Protocol, req_sent}
use ka9q_unix.Fsm.Send.Clock.{IsTimed, Safe, Returns, Timed}
use ka9q_unix.Fsm.Proc.{fsm_proc}
use ka9q_unix.Fsm.Proc.Faults.{fsm_proc_term_req}
use ka9q_unix.Fsm.Events.{Event, packet, timeout, start, down, run, expire_times}
use ka9q_unix.Fsm.Events.Timer.{IsKnown, run-Timed}
use ka9q_unix.Fsm.Events.Rest.{IsAtRest, expire_times-IsAtRest, req_sent_not_opened}

-- A protocol without options, which takes what the peer asks for.
abbrev plain : Protocol ℕ
plain = record {
  try_req = 20;
  try_nak = 10;
  try_terminate = 10;
  duration = 3;
  reset = λ d. d;
  starting = λ d. d;
  opening = λ d. d;
  closing = λ d. d;
  stopping = λ d. d;
  free = λ d. d;
  makereq = λ d. ([], d);
  request =
      λ d n hdr bpp. record { accepted = true; pdv = d; retry_nak = n; replies = (2, bpp) ∷ [] };
  ack = λ d id hdr bpp. (true, d);
  nak = λ d id hdr bpp. (true, d);
  reject = λ d id hdr bpp. (true, d);
  output = λ d bpp. (true, d);
}

abbrev asking : Fsm ℕ
asking = record {
  state = req_sent;
  lastid = 0;
  active = true;
  passive = false;
  retry = 19;
  try_req = 20;
  try_terminate = 10;
  retry_nak = 10;
  try_nak = 10;
  timer = true;
  duration = 3;
  ppp_id = 1;
  out_ncp = 1;
  has_pdv = true;
  pdv = 0;
  sent = [];
}

asking-Timed : Timed asking
unfolding IsTimed
asking-Timed = (refl, (omega arith, (omega arith, omega arith)))

fsm_proc_term_req_example :
    fsm_proc plain (record { code = 0; id = 0; len = 0 }) asking (5 ∷ 1 ∷ 0 ∷ 4 ∷ []) ≡ none
fsm_proc_term_req_example =
    fsm_proc_term_req plain (record { code = 0; id = 0; len = 0 }) asking (5 ∷ 1 ∷ 0 ∷ 4 ∷ [])
      (omega arith) refl

expire_times-IsAtRest_example : Returns (λ s. IsAtRest s.state) (expire_times plain 20 asking)
expire_times-IsAtRest_example = expire_times-IsAtRest plain asking asking-Timed req_sent_not_opened

-- A request and an answer, a timeout, a Terminate-Ack, and the end.
abbrev history : List Event
history =
    packet (record { code = 0; id = 0; len = 0 }) (1 ∷ 7 ∷ 0 ∷ 4 ∷ [])
    ∷ packet (record { code = 0; id = 0; len = 0 }) (2 ∷ 0 ∷ 0 ∷ 4 ∷ [])
    ∷ packet (record { code = 0; id = 0; len = 0 }) (6 ∷ 0 ∷ 0 ∷ 4 ∷ [])
    ∷ timeout
    ∷ down
    ∷ start
    ∷ []

history-IsKnown : All IsKnown history
unfolding IsKnown
history-IsKnown = (
  (omega arith, (omega arith, omega arith)),
  (
    (omega arith, (omega arith, omega arith)),
    ((omega arith, (omega arith, omega arith)), (tt, (tt, (tt, tt)))),
  ),
)

run-Timed_example : Safe Timed (run plain history asking)
run-Timed_example = run-Timed plain history asking history-IsKnown asking-Timed
