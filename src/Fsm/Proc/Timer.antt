-- ===== src/Fsm/Proc/Timer.antt =====
-- The other codes, and the whole of `fsm_proc`: no packet with a known code leaves the machine
-- waiting without a timer.
use ka9q_unix.Base.{
  ℕ, ◌-◌, ◌≤◌, ◌≡◌, ◌≢◌, refl, List, true, false, some, arith, ◌==◌, ◌||◌, subst, if_all, if_cases,
  sym, ltb, length, get_or,
}
use ka9q_unix.Fsm.{
  Fsm, Header, Protocol, State, closed, listen, req_sent, ack_rcvd, ack_sent, opened, term_sent,
}
use ka9q_unix.Fsm.Send.{fsm_send, fsm_sendreq, fsm_reset, ntohcnf, echo_reply}
use ka9q_unix.Fsm.Send.Clock.{
  Safe, fault, done, Safe-bind, clock, TimedIn, IsTimed, Timed, fsm_send-IsTimed, fsm_reset-IsTimed,
  fsm_sendreq-clock,
}
use ka9q_unix.Fsm.Proc.{
  proc_term_req, proc_term_ack, proc_echo_req, fsm_dispatch, fsm_proc, stopping, closing,
}
use ka9q_unix.Fsm.Proc.Faults.{proc_term_req_fault}
use ka9q_unix.Fsm.Proc.Timed.{
  out_of_sync-Timed, proc_config_req-Timed, proc_config_ack-Timed, proc_config_nak-Timed,
  proc_config_rej-Timed,
}

module _ {D : Type 0} (pdc : Protocol D) where
  -- After a Terminate-Ack in Opened the machine may be left in Listen, with one request sent.
  proc_term_ack-Timed :
      (st : State) (s : Fsm D)
      → IsTimed (clock (record s { state = st }))
      → Safe Timed (proc_term_ack pdc st (record s { state = st }))
  unfolding proc_term_ack IsTimed fsm_reset
  proc_term_ack-Timed closed s t = done t
  proc_term_ack-Timed listen s t = done t
  proc_term_ack-Timed req_sent s t = done t
  proc_term_ack-Timed ack_sent s t = done t
  proc_term_ack-Timed ack_rcvd s t = done t
  proc_term_ack-Timed term_sent s t =
      done
        (fsm_reset-IsTimed pdc (stopping pdc (record s { state = term_sent; timer = false })) t.1)
  proc_term_ack-Timed opened s t =
      let s' = fsm_reset pdc (closing pdc (record s { state = opened })) in
      let n : s.try_req ≢ 0 = omega arith in
      let some_left : s.try_req - 1 ≢ 0 = omega arith in
      Safe-bind (fsm_sendreq pdc s') _ (fsm_sendreq-clock pdc s' n t.1.1.1) (λ r e. done (
        if_all Timed r.1 (subst (λ c. IsTimed (record c { state = req_sent })) (sym e) (refl, t.1))
          (subst IsTimed (sym e) (
            if_all (λ st. TimedIn st true (s.try_req - 1)) (s.active || s.passive) some_left
                some_left,
            t.1,
          ))))

  proc_echo_req-Timed :
      (st : State) (s : Fsm D) (hdr : Header) (bpp : List ℕ)
      → IsTimed (clock (record s { state = st }))
      → Safe Timed (proc_echo_req pdc st (record s { state = st }) hdr bpp)
  unfolding proc_echo_req
  proc_echo_req-Timed closed s hdr bpp t = out_of_sync-Timed pdc _ hdr
  proc_echo_req-Timed listen s hdr bpp t = out_of_sync-Timed pdc _ hdr
  proc_echo_req-Timed req_sent s hdr bpp t = done t
  proc_echo_req-Timed ack_sent s hdr bpp t = done t
  proc_echo_req-Timed ack_rcvd s hdr bpp t = done t
  proc_echo_req-Timed term_sent s hdr bpp t = done t
  proc_echo_req-Timed opened s hdr bpp t =
      let s' = record s { state = opened } in
      Safe-bind (fsm_send pdc s' echo_reply hdr.id (some bpp)) _
        (fsm_send-IsTimed pdc s' echo_reply hdr.id (some bpp) t) (λ r u. done u)

  proc_term_req-Timed :
      (st : State) (s : Fsm D) (hdr : Header) → Safe Timed (proc_term_req pdc st s hdr)
  proc_term_req-Timed st s hdr = rw (proc_term_req_fault pdc st s hdr) fault

  fsm_dispatch-Timed :
      (s : Fsm D) (hdr : Header) (bpp : List ℕ)
      → 1 ≤ hdr.code
      → hdr.code ≤ 12
      → Timed s
      → Safe Timed (fsm_dispatch pdc s hdr bpp)
  unfolding fsm_dispatch IsTimed
  fsm_dispatch-Timed s hdr bpp lo hi t =
      let c = hdr.code in
      let P = Safe Timed in
      if_cases P (c == 1) (λ h. proc_config_req-Timed pdc s.state s hdr bpp t)
        (λ n1.
          if_cases P (c == 2) (λ h. proc_config_ack-Timed pdc s.state s hdr bpp t)
            (λ n2.
              if_cases P (c == 3) (λ h. proc_config_nak-Timed pdc s.state s hdr bpp t)
                (λ n3.
                  if_cases P (c == 4) (λ h. proc_config_rej-Timed pdc s.state s hdr bpp t)
                    (λ n4.
                      if_cases P (c == 5) (λ h. proc_term_req-Timed s.state s hdr)
                        (λ n5.
                          if_cases P (c == 6) (λ h. proc_term_ack-Timed s.state s t)
                            (λ n6.
                              if_cases P (c == 7)
                                (λ h. done (fsm_reset-IsTimed pdc (stopping pdc s) t.1))
                                (λ n7.
                                  if_cases P (c == 8) (λ h. done t)
                                    (λ n8.
                                      if_cases P (c == 9)
                                        (λ h. proc_echo_req-Timed s.state s hdr bpp t)
                                        (λ n9.
                                          if_cases P (c == 10 || c == 11 || c == 12) (λ h. done t)
                                            (λ n. ground arith))))))))))

  -- A machine that is timed still is after any packet whose code is one of the twelve known ones.
  pub fsm_proc-Timed :
      (junk : Header) (s : Fsm D) (bpp : List ℕ)
      → 4 ≤ length bpp
      → 1 ≤ get_or bpp 0 0
      → get_or bpp 0 0 ≤ 12
      → Timed s
      → Safe Timed (fsm_proc pdc junk s bpp)
  unfolding fsm_proc ntohcnf
  fsm_proc-Timed junk s bpp h lo hi t =
      let e : ltb (length bpp) 4 ≡ false = ground arith in
      rw e (
        fsm_dispatch-Timed s (record { code = get_or bpp 0 0; id = get_or bpp 1 0; len = _ }) _ lo
          hi t)
