-- ===== src/Fsm/Proc.antt =====
-- pppfsm.c: `fsm_proc`, one function for each code. A case of the C that falls through is a call of
-- the function for the label it falls to. `free_p` leaves nothing to see here.
pub mod Timed
pub mod Timer
pub mod Faults
use ka9q_unix.Base.{
  ℕ, ◌+◌, ◌-◌, ◌%◌, ◌^◌, List, [], ◌∷◌, length, take, Bool, true, false, Option, none, some, ◌==◌,
  ◌||◌, if◌then◌else◌,
}
use ka9q_unix.Base.Word.{u32}
use ka9q_unix.Fsm.{
  Fsm, Header, Protocol, Answer, State, closed, listen, req_sent, ack_rcvd, ack_sent, opened,
  term_sent,
}
use ka9q_unix.Fsm.Send.{
  ◌>>=◌, htoncnf, ntohcnf, fsm_send, fsm_timer, fsm_sendreq, fsm_sendtermack, fsm_reset,
  fsm_opening, code_rej, echo_reply,
}

abbrev is_negotiating : State → Bool
is_negotiating req_sent = true
is_negotiating ack_rcvd = true
is_negotiating ack_sent = true
is_negotiating opened = true
is_negotiating _ = false

module _ {D : Type 0} (pdc : Protocol D) where
  abbrev pub closing : Fsm D → Fsm D
  closing s = record s { pdv = pdc.closing s.pdv }

  abbrev pub starting : Fsm D → Fsm D
  starting s = record s { pdv = pdc.starting s.pdv }

  abbrev pub stopping : Fsm D → Fsm D
  stopping s = record s { pdv = pdc.stopping s.pdv }

  send_replies : Fsm D → ℕ → List (ℕ × List ℕ) → Option (Fsm D)
  send_replies s id [] = some s
  send_replies s id ((code, body) ∷ rest) =
      fsm_send pdc s code id (some body) >>= λ r. send_replies r.0 id rest

  -- `request`, with what it sends.
  call_request : Fsm D → Header → List ℕ → Option (Fsm D × Bool)
  unfolding send_replies
  call_request s hdr bpp =
      let a = pdc.request s.pdv s.retry_nak hdr bpp in
      send_replies (record s { pdv = a.pdv; retry_nak = a.retry_nak }) hdr.id a.replies >>= λ s'.
      some (s', a.accepted)

  call_check : (D → ℕ → Header → List ℕ → Bool × D) → Fsm D → Header → List ℕ → Fsm D × Bool
  call_check check s hdr bpp =
      let (ok, pdv') = check s.pdv s.lastid hdr bpp in (record s { pdv = pdv' }, ok)

  -- From fsmREQ_Sent and fsmACK_Sent on.
  req_answer : Fsm D → Header → List ℕ → Option (Fsm D)
  unfolding call_request
  req_answer s hdr bpp = call_request s hdr bpp >>= λ r.
      some (record r.0 { state = if r.1 then ack_sent else req_sent })

  -- From fsmLISTEN on.
  req_listen : Fsm D → Header → List ℕ → Option (Fsm D)
  unfolding req_answer
  req_listen s hdr bpp = fsm_sendreq pdc (starting s) >>= λ r. req_answer r.0 hdr bpp

  -- From fsmCLOSED on, and alike for other codes: the peer is told, the packet dropped.
  pub out_of_sync : Fsm D → Header → Option (Fsm D)
  out_of_sync s hdr = fsm_sendtermack pdc s hdr.id >>= λ r. some r.0

  pub proc_config_req : State → Fsm D → Header → List ℕ → Option (Fsm D)
  unfolding req_listen out_of_sync
  proc_config_req opened s hdr bpp = req_listen (fsm_reset pdc (closing s)) hdr bpp
  proc_config_req listen s hdr bpp = req_listen s hdr bpp
  proc_config_req req_sent s hdr bpp = req_answer s hdr bpp
  proc_config_req ack_sent s hdr bpp = req_answer s hdr bpp
  proc_config_req ack_rcvd s hdr bpp =
      call_request s hdr bpp >>= λ r. some (if r.1 then fsm_opening pdc r.0 else fsm_timer pdc r.0)
  proc_config_req closed s hdr bpp = out_of_sync s hdr
  proc_config_req term_sent s hdr bpp = some s

  -- From fsmACK_Rcvd on in the next three functions.
  ask_again : Fsm D → Option (Fsm D)
  ask_again s = fsm_sendreq pdc s >>= λ r. some (record r.0 { state = req_sent })

  -- From fsmOPENED on in the next three functions.
  reopen : Fsm D → Option (Fsm D)
  unfolding ask_again
  reopen s = ask_again (fsm_reset pdc (starting (closing s)))

  pub proc_config_ack : State → Fsm D → Header → List ℕ → Option (Fsm D)
  unfolding call_check reopen out_of_sync
  proc_config_ack req_sent s hdr bpp =
      let (s', ok) = call_check pdc.ack s hdr bpp in
      some (if ok then record s' { state = ack_rcvd } else s')
  proc_config_ack ack_sent s hdr bpp =
      let (s', ok) = call_check pdc.ack s hdr bpp in some (if ok then fsm_opening pdc s' else s')
  proc_config_ack opened s hdr bpp = reopen s
  proc_config_ack ack_rcvd s hdr bpp = ask_again s
  proc_config_ack closed s hdr bpp = out_of_sync s hdr
  proc_config_ack listen s hdr bpp = out_of_sync s hdr
  proc_config_ack term_sent s hdr bpp = some s

  -- `nak` or `reject` takes the refused options in, and a new request goes out.
  revise : (D → ℕ → Header → List ℕ → Bool × D) → Fsm D → Header → List ℕ → Option (Fsm D)
  unfolding call_check
  revise check s hdr bpp =
      let (s', ok) = call_check check s hdr bpp in
      if ok then (fsm_sendreq pdc s' >>= λ r. some r.0) else some s'

  pub proc_config_nak : State → Fsm D → Header → List ℕ → Option (Fsm D)
  unfolding revise reopen out_of_sync
  proc_config_nak req_sent s hdr bpp = revise pdc.nak s hdr bpp
  proc_config_nak ack_sent s hdr bpp = revise pdc.nak s hdr bpp
  proc_config_nak opened s hdr bpp = reopen s
  proc_config_nak ack_rcvd s hdr bpp = ask_again s
  proc_config_nak closed s hdr bpp = out_of_sync s hdr
  proc_config_nak listen s hdr bpp = out_of_sync s hdr
  proc_config_nak term_sent s hdr bpp = some s

  pub proc_config_rej : State → Fsm D → Header → List ℕ → Option (Fsm D)
  unfolding revise reopen out_of_sync
  proc_config_rej req_sent s hdr bpp = revise pdc.reject s hdr bpp
  proc_config_rej ack_sent s hdr bpp = revise pdc.reject s hdr bpp
  proc_config_rej opened s hdr bpp = reopen s
  proc_config_rej ack_rcvd s hdr bpp = ask_again s
  proc_config_rej closed s hdr bpp = out_of_sync s hdr
  proc_config_rej listen s hdr bpp = out_of_sync s hdr
  proc_config_rej term_sent s hdr bpp = some s

  pub proc_term_req : State → Fsm D → Header → Option (Fsm D)
  unfolding out_of_sync
  proc_term_req opened s hdr =
      fsm_sendtermack pdc s hdr.id >>= λ r. some (fsm_reset pdc (stopping (closing r.0)))
  proc_term_req ack_rcvd s hdr = out_of_sync (record s { state = req_sent }) hdr
  proc_term_req ack_sent s hdr = out_of_sync (record s { state = req_sent }) hdr
  proc_term_req _ s hdr = out_of_sync s hdr

  proc_term_ack : State → Fsm D → Option (Fsm D)
  proc_term_ack term_sent s = some (fsm_reset pdc (stopping (record s { timer = false })))
  proc_term_ack opened s = fsm_sendreq pdc (fsm_reset pdc (closing s)) >>= λ r.
      some (if r.1 then record r.0 { state = req_sent } else r.0)
  proc_term_ack ack_sent s = some (record s { state = req_sent })
  proc_term_ack ack_rcvd s = some (record s { state = req_sent })
  proc_term_ack _ s = some s

  proc_echo_req : State → Fsm D → Header → List ℕ → Option (Fsm D)
  unfolding out_of_sync
  proc_echo_req opened s hdr bpp = fsm_send pdc s echo_reply hdr.id (some bpp) >>= λ r. some r.0
  proc_echo_req closed s hdr bpp = out_of_sync s hdr
  proc_echo_req listen s hdr bpp = out_of_sync s hdr
  proc_echo_req _ s hdr bpp = some s

  -- The default case: the whole packet is sent back.
  proc_unknown : State → Fsm D → Header → List ℕ → Option (Fsm D)
  proc_unknown st s hdr bpp =
      let hdr' = record hdr { len = u32 (hdr.len + 4) } in
      fsm_send pdc s code_rej hdr.id (some (htoncnf hdr' bpp)) >>= λ r.
      some (if is_negotiating st then record r.0 { state = listen } else r.0)

  -- The switch on the code, for a header whose length no longer counts the header.
  fsm_dispatch : Fsm D → Header → List ℕ → Option (Fsm D)
  unfolding proc_config_req proc_config_ack proc_config_nak proc_config_rej proc_term_req
      proc_term_ack proc_echo_req proc_unknown
  fsm_dispatch s hdr bpp =
      let c = hdr.code in
      if c == 1
      then proc_config_req s.state s hdr bpp
      else if c == 2
      then proc_config_ack s.state s hdr bpp
      else if c == 3
      then proc_config_nak s.state s hdr bpp
      else if c == 4
      then proc_config_rej s.state s hdr bpp
      else if c == 5
      then proc_term_req s.state s hdr
      else if c == 6
      then proc_term_ack s.state s
      else if c == 7
      then some (fsm_reset pdc (stopping s))
      else if c == 8
      then some s
      else if c == 9
      then proc_echo_req s.state s hdr bpp
      else if c == 10 || c == 11 || c == 12
      then some s
      else proc_unknown s.state s hdr bpp

  -- Process an incoming packet. A packet too short for a header is logged, and then processed with
  -- what the header variable holds, `junk`. The length is a `uint`, so one below 4 wraps around.
  pub fsm_proc : Header → Fsm D → List ℕ → Option (Fsm D)
  unfolding fsm_dispatch
  fsm_proc junk s bpp =
      let (found, rest) = ntohcnf bpp in
      let hdr : Header = elim found [ none ↦ junk | some h ↦ h ] in
      let len' = u32 (hdr.len + 2 ^ 32 - 4) in
      fsm_dispatch s (record hdr { len = len' }) (take len' rest)
