-- ===== src/Fsm/Proc/Faults.antt =====
-- Where pppfsm.c reads through a null pointer: `fsm_send` computes the length of `*data`, and the two
-- termination packets are sent with a null `data`.
use ka9q_unix.Base.{ℕ, ◌≤◌, ◌≡◌, ◌≢◌, refl, List, length, get_or, false, none, arith, ltb}
use ka9q_unix.Fsm.{
  Fsm, Header, Protocol, State, closed, listen, req_sent, ack_rcvd, ack_sent, opened, term_sent,
}
use ka9q_unix.Fsm.Send.{fsm_sendtermreq, fsm_sendtermack, ntohcnf}
use ka9q_unix.Fsm.Proc.{proc_term_req, fsm_dispatch, fsm_proc}

module _ {D : Type 0} (pdc : Protocol D) where
  pub fsm_sendtermack_fault : (s : Fsm D) (id : ℕ) → fsm_sendtermack pdc s id ≡ none
  unfolding fsm_sendtermack
  fsm_sendtermack_fault s id = refl

  pub fsm_sendtermreq_fault : (s : Fsm D) → s.retry ≢ 0 → fsm_sendtermreq pdc s ≡ none
  unfolding fsm_sendtermreq
  fsm_sendtermreq_fault s h = ground arith

  pub proc_term_req_fault :
      (st : State) (s : Fsm D) (hdr : Header) → proc_term_req pdc st s hdr ≡ none
  unfolding proc_term_req fsm_sendtermack
  proc_term_req_fault opened s hdr = refl
  proc_term_req_fault ack_rcvd s hdr = refl
  proc_term_req_fault ack_sent s hdr = refl
  proc_term_req_fault closed s hdr = refl
  proc_term_req_fault listen s hdr = refl
  proc_term_req_fault req_sent s hdr = refl
  proc_term_req_fault term_sent s hdr = refl

  fsm_dispatch_term_req :
      (s : Fsm D) (hdr : Header) (bpp : List ℕ) → hdr.code ≡ 5 → fsm_dispatch pdc s hdr bpp ≡ none
  unfolding fsm_dispatch
  fsm_dispatch_term_req s hdr bpp c = rw c (proc_term_req_fault s.state s _)

  -- A Terminate-Request from the peer, in any state of the machine, ends in a read through a null
  -- pointer.
  pub fsm_proc_term_req :
      (junk : Header) (s : Fsm D) (bpp : List ℕ)
      → 4 ≤ length bpp
      → get_or bpp 0 0 ≡ 5
      → fsm_proc pdc junk s bpp ≡ none
  unfolding fsm_proc ntohcnf
  fsm_proc_term_req junk s bpp h c =
      let e : ltb (length bpp) 4 ≡ false = ground arith in
      rw e (
        fsm_dispatch_term_req s (record { code = get_or bpp 0 0; id = get_or bpp 1 0; len = _ }) _
          c)
