-- ===== src/Fsm/Proc/Timed.antt =====
-- No packet with a known code leaves the machine waiting without a timer.
use ka9q_unix.Base.{
  ℕ, ◌≡◌, ◌≢◌, refl, ◌∙◌, List, [], ◌∷◌, Bool, true, some, arith, ◌==◌, not, subst, if_all, sym,
  ◌⊎◌, inl, inr,
}
use ka9q_unix.Fsm.{
  Fsm, Header, Protocol, State, closed, listen, req_sent, ack_rcvd, ack_sent, opened, term_sent,
}
use ka9q_unix.Fsm.Send.{fsm_send, fsm_timer, fsm_sendreq, fsm_reset, fsm_opening}
use ka9q_unix.Fsm.Send.Clock.{
  Safe, fault, done, Safe-bind, Safe-map, clock, TimedIn, HasLimits, IsTimed, Timed, IsRunning,
  fsm_sendreq-IsTimed, fsm_send-clock, fsm_sendreq-IsRunning, fsm_timer-IsRunning,
}
use ka9q_unix.Fsm.Proc.{
  send_replies, call_request, call_check, req_answer, req_listen, out_of_sync, ask_again, reopen,
  revise, proc_config_req, proc_config_ack, proc_config_nak, proc_config_rej, starting, closing,
}
use ka9q_unix.Fsm.Proc.Faults.{fsm_sendtermack_fault}

module _ {D : Type 0} (pdc : Protocol D) where
  send_replies-clock :
      (s : Fsm D) (id : ℕ) (replies : List (ℕ × List ℕ))
      → Safe (λ s'. clock s' ≡ clock s) (send_replies pdc s id replies)
  unfolding send_replies
  send_replies-clock s id [] = done refl
  send_replies-clock s id ((code, body) ∷ rest) =
      Safe-bind (fsm_send pdc s code id (some body)) _ (fsm_send-clock pdc s code id (some body))
        (λ r e. Safe-map (λ s' f. f ∙ e) (send_replies-clock r.0 id rest))

  -- Whatever the protocol answers to a request, the timer and the counters stay.
  call_request-clock :
      (s : Fsm D) (hdr : Header) (bpp : List ℕ)
      → Safe (λ r. clock r.0 ≡ clock s) (call_request pdc s hdr bpp)
  unfolding call_request
  call_request-clock s hdr bpp =
      let a = pdc.request s.pdv s.retry_nak hdr bpp in
      Safe-bind
        (send_replies pdc (record s { pdv = a.pdv; retry_nak = a.retry_nak }) hdr.id a.replies) _
        (send_replies-clock _ hdr.id a.replies) (λ s' e. done e)

  req_answer-Timed :
      (s : Fsm D) (hdr : Header) (bpp : List ℕ)
      → IsRunning (clock s)
      → Safe Timed (req_answer pdc s hdr bpp)
  unfolding req_answer IsTimed
  req_answer-Timed s hdr bpp t =
      Safe-bind (call_request pdc s hdr bpp) _ (call_request-clock s hdr bpp) (λ r e.
        let u = subst IsRunning (sym e) t in
        done (if_all (λ st. TimedIn st r.0.timer r.0.retry) r.1 u.0 u.0, u.1))

  req_listen-Timed :
      (s : Fsm D) (hdr : Header) (bpp : List ℕ)
      → HasLimits (clock s)
      → s.retry ≢ 0
      → Safe Timed (req_listen pdc s hdr bpp)
  unfolding req_listen
  req_listen-Timed s hdr bpp l n =
      Safe-bind (fsm_sendreq pdc (starting pdc s)) _
        (fsm_sendreq-IsRunning pdc (starting pdc s) l (inl n))
        (λ r t. req_answer-Timed r.0 hdr bpp t)

  pub out_of_sync-Timed : (s : Fsm D) (hdr : Header) → Safe Timed (out_of_sync pdc s hdr)
  unfolding out_of_sync
  out_of_sync-Timed s hdr = rw (fsm_sendtermack_fault pdc s hdr.id) fault

  ask_again-Timed :
      (s : Fsm D)
      → HasLimits (clock s)
      → (s.retry ≢ 0) ⊎ (s.timer ≡ true)
      → Safe Timed (ask_again pdc s)
  unfolding ask_again IsTimed
  ask_again-Timed s l h =
      Safe-bind (fsm_sendreq pdc s) _ (fsm_sendreq-IsRunning pdc s l h) (λ r t. done t)

  -- A machine that was just reset has retries.
  fsm_reset_retry : (s : Fsm D) → HasLimits (clock s) → (fsm_reset pdc s).retry ≢ 0
  unfolding fsm_reset HasLimits
  fsm_reset_retry s l = omega arith

  fsm_reset_limits : (s : Fsm D) → HasLimits (clock s) → HasLimits (clock (fsm_reset pdc s))
  unfolding fsm_reset HasLimits
  fsm_reset_limits s l = l

  reopen-Timed : (s : Fsm D) → HasLimits (clock s) → Safe Timed (reopen pdc s)
  unfolding reopen
  reopen-Timed s l =
      let s' = starting pdc (closing pdc s) in
      ask_again-Timed (fsm_reset pdc s') (fsm_reset_limits s' l) (inl (fsm_reset_retry s' l))

  revise-Timed :
      (check : D → ℕ → Header → List ℕ → Bool × D) (s : Fsm D) (hdr : Header) (bpp : List ℕ)
      → ((retry : ℕ) → TimedIn s.state true retry)
      → Timed s
      → Safe Timed (revise pdc check s hdr bpp)
  unfolding revise call_check
  revise-Timed check s hdr bpp k t =
      let c = check s.pdv s.lastid hdr bpp in
      let s' = record s { pdv = c.1 } in
      if_all (Safe Timed) c.0
        (Safe-bind (fsm_sendreq pdc s') _ (fsm_sendreq-IsTimed pdc s' k t) (λ r u. done u)) (done t)

  pub proc_config_req-Timed :
      (st : State) (s : Fsm D) (hdr : Header) (bpp : List ℕ)
      → IsTimed (clock (record s { state = st }))
      → Safe Timed (proc_config_req pdc st (record s { state = st }) hdr bpp)
  unfolding proc_config_req IsTimed fsm_timer fsm_opening
  proc_config_req-Timed closed s hdr bpp t = out_of_sync-Timed _ hdr
  proc_config_req-Timed listen s hdr bpp t = req_listen-Timed _ hdr bpp t.1 t.0
  proc_config_req-Timed req_sent s hdr bpp t = req_answer-Timed _ hdr bpp t
  proc_config_req-Timed ack_sent s hdr bpp t = req_answer-Timed _ hdr bpp t
  proc_config_req-Timed ack_rcvd s hdr bpp t =
      let s' = record s { state = ack_rcvd } in
      Safe-bind (call_request pdc s' hdr bpp) _ (call_request-clock s' hdr bpp) (λ r e.
        let restart =
          subst (λ c. IsTimed (record c { timer = not (c.duration == 0) })) (sym e)
            (fsm_timer-IsRunning pdc s' t.1) in
        let l = subst HasLimits (sym e) t.1 in done (if_all Timed r.1 (tt, l) restart))
  proc_config_req-Timed opened s hdr bpp t =
      let s' = closing pdc (record s { state = opened }) in
      req_listen-Timed (fsm_reset pdc s') hdr bpp (fsm_reset_limits s' t.1) (fsm_reset_retry s' t.1)
  proc_config_req-Timed term_sent s hdr bpp t = done t

  pub proc_config_ack-Timed :
      (st : State) (s : Fsm D) (hdr : Header) (bpp : List ℕ)
      → IsTimed (clock (record s { state = st }))
      → Safe Timed (proc_config_ack pdc st (record s { state = st }) hdr bpp)
  unfolding proc_config_ack call_check IsTimed fsm_opening
  proc_config_ack-Timed closed s hdr bpp t = out_of_sync-Timed _ hdr
  proc_config_ack-Timed listen s hdr bpp t = out_of_sync-Timed _ hdr
  proc_config_ack-Timed req_sent s hdr bpp t =
      done (if_all Timed (pdc.ack s.pdv s.lastid hdr bpp).0 t t)
  proc_config_ack-Timed ack_sent s hdr bpp t =
      done (if_all Timed (pdc.ack s.pdv s.lastid hdr bpp).0 (tt, t.1) t)
  proc_config_ack-Timed ack_rcvd s hdr bpp t = ask_again-Timed _ t.1 (inr t.0)
  proc_config_ack-Timed opened s hdr bpp t = reopen-Timed _ t.1
  proc_config_ack-Timed term_sent s hdr bpp t = done t

  pub proc_config_nak-Timed :
      (st : State) (s : Fsm D) (hdr : Header) (bpp : List ℕ)
      → IsTimed (clock (record s { state = st }))
      → Safe Timed (proc_config_nak pdc st (record s { state = st }) hdr bpp)
  unfolding proc_config_nak IsTimed
  proc_config_nak-Timed closed s hdr bpp t = out_of_sync-Timed _ hdr
  proc_config_nak-Timed listen s hdr bpp t = out_of_sync-Timed _ hdr
  proc_config_nak-Timed req_sent s hdr bpp t = revise-Timed pdc.nak _ hdr bpp (λ retry. refl) t
  proc_config_nak-Timed ack_sent s hdr bpp t = revise-Timed pdc.nak _ hdr bpp (λ retry. refl) t
  proc_config_nak-Timed ack_rcvd s hdr bpp t = ask_again-Timed _ t.1 (inr t.0)
  proc_config_nak-Timed opened s hdr bpp t = reopen-Timed _ t.1
  proc_config_nak-Timed term_sent s hdr bpp t = done t

  pub proc_config_rej-Timed :
      (st : State) (s : Fsm D) (hdr : Header) (bpp : List ℕ)
      → IsTimed (clock (record s { state = st }))
      → Safe Timed (proc_config_rej pdc st (record s { state = st }) hdr bpp)
  unfolding proc_config_rej IsTimed
  proc_config_rej-Timed closed s hdr bpp t = out_of_sync-Timed _ hdr
  proc_config_rej-Timed listen s hdr bpp t = out_of_sync-Timed _ hdr
  proc_config_rej-Timed req_sent s hdr bpp t = revise-Timed pdc.reject _ hdr bpp (λ retry. refl) t
  proc_config_rej-Timed ack_sent s hdr bpp t = revise-Timed pdc.reject _ hdr bpp (λ retry. refl) t
  proc_config_rej-Timed ack_rcvd s hdr bpp t = ask_again-Timed _ t.1 (inr t.0)
  proc_config_rej-Timed opened s hdr bpp t = reopen-Timed _ t.1
  proc_config_rej-Timed term_sent s hdr bpp t = done t
