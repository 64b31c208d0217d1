-- ===== src/Fsm/Send.antt =====
-- pppfsm.c: headers, and the functions that send. `none` is a read through a null pointer.
pub mod Clock
use ka9q_unix.Base.{
  ℕ, ◌+◌, ◌-◌, ◌<◌, ◌%◌, ◌^◌, List, [], ◌∷◌, ◌++◌, length, take, drop, get_or, Bool, true, false,
  ◌||◌, Option, none, some, ◌==◌, ltb, not, if◌then◌else◌,
}
use ka9q_unix.Base.Word.{u8, u32}
use ka9q_unix.Bytes.{put16, get16}
use ka9q_unix.Fsm.{Fsm, Header, Protocol, Answer, State, closed, listen, opened}

infixl 5 ◌>>=◌
abbrev pub ◌>>=◌ : {A B : Type 0} → Option A → (A → Option B) → Option B
none >>= f = none
some a >>= f = f a

-- The codes of pppfsm.h.
abbrev pub config_req : ℕ
config_req = 1

abbrev pub config_ack : ℕ
config_ack = 2

abbrev pub config_nak : ℕ
config_nak = 3

abbrev pub config_rej : ℕ
config_rej = 4

abbrev pub term_req : ℕ
term_req = 5

abbrev pub term_ack : ℕ
term_ack = 6

abbrev pub code_rej : ℕ
code_rej = 7

abbrev pub prot_rej : ℕ
prot_rej = 8

abbrev pub echo_req : ℕ
echo_req = 9

abbrev pub echo_reply : ℕ
echo_reply = 10

abbrev pub discard_req : ℕ
discard_req = 11

-- Put the header in front of the packet.
unfoldable pub htoncnf : Header → List ℕ → List ℕ
htoncnf cnf bpp = u8 cnf.code ∷ u8 cnf.id ∷ put16 cnf.len bpp

-- `none` is the -1 for a packet that is too short; its bytes are gone all the same.
unfoldable pub ntohcnf : List ℕ → Option Header × List ℕ
ntohcnf bpp = (
  if ltb (length bpp) 4
      then none
      else some (record { code = get_or bpp 0 0; id = get_or bpp 1 0; len = get16 bpp 2 }),
  drop 4 bpp,
)

-- The codes that take a new id of our own; the first three are also remembered in `lastid`.
abbrev remembers_id : ℕ → Bool
remembers_id code = code == config_req || code == term_req || code == echo_req

abbrev takes_own_id : ℕ → Bool
takes_own_id code = remembers_id code || code == prot_rej || code == discard_req

-- The codes that answer with the peer's id.
abbrev takes_peer_id : ℕ → Bool
takes_peer_id code =
    code == config_ack
    || code == config_nak
    || code == config_rej
    || code == term_ack
    || code == code_rej
    || code == echo_reply

-- The codes for which the body is replaced by a fresh mbuf. The magic number is written to its data
-- area, but its `cnt` stays 0, so that no byte of it is in the packet.
abbrev makes_body : ℕ → Bool
makes_body code = code == echo_req || code == echo_reply || code == discard_req

module _ {D : Type 0} (pdc : Protocol D) where
  fsm_output : Fsm D → ℕ → ℕ → List ℕ → Fsm D × Bool
  fsm_output s code id body =
      let packet = htoncnf (record { code = code; id = id; len = length body + 4 }) body in
      let (ok, pdv') = pdc.output s.pdv packet in
      (record s { out_ncp = s.out_ncp + 1; sent = s.sent ++ packet ∷ []; pdv = pdv' }, ok)

  -- Send a packet. `body` is `*data`, or `none` where `data` itself is null. The result is `true`
  -- for a return value of 0.
  unfoldable pub fsm_send : Fsm D → ℕ → ℕ → Option (List ℕ) → Option (Fsm D × Bool)
  unfolding fsm_output
  fsm_send s code id body =
      let own = record s {
        ppp_id = u8 (s.ppp_id + 1);
        lastid = if remembers_id code then s.ppp_id else s.lastid;
      } in
      if not (takes_own_id code || takes_peer_id code)
      then some (s, false)
      else body >>= λ b.
          let b' = if makes_body code then [] else b in
          some
            (if takes_own_id code then fsm_output own code s.ppp_id b' else fsm_output s code id b')

  -- The timer starts, unless its duration is 0.
  unfoldable pub fsm_timer : Fsm D → Fsm D
  fsm_timer s = record s { timer = not (s.duration == 0) }

  unfoldable pub fsm_sendreq : Fsm D → Option (Fsm D × Bool)
  unfolding fsm_timer fsm_send
  fsm_sendreq s =
      let s' = fsm_timer (record s { retry = s.retry - 1 }) in
      let (bp, pdv') = pdc.makereq s'.pdv in
      if s.retry == 0
      then some (s, false)
      else fsm_send (record s' { pdv = pdv' }) config_req 0 (some bp)

  -- The data pointer is null in this call and the next.
  unfoldable pub fsm_sendtermreq : Fsm D → Option (Fsm D × Bool)
  unfolding fsm_timer fsm_send
  fsm_sendtermreq s =
      if s.retry == 0
      then some (s, false)
      else fsm_send (fsm_timer (record s { retry = s.retry - 1 })) term_req 0 none

  unfoldable pub fsm_sendtermack : Fsm D → ℕ → Option (Fsm D × Bool)
  unfolding fsm_send
  fsm_sendtermack s id = fsm_send s term_ack id none

  -- Back to Listen or Closed, with the counters full again.
  unfoldable pub fsm_reset : Fsm D → Fsm D
  fsm_reset s = record s {
    state = if s.active || s.passive then listen else closed;
    retry = s.try_req;
    retry_nak = s.try_nak;
    pdv = pdc.reset s.pdv;
  }

  unfoldable pub fsm_opening : Fsm D → Fsm D
  fsm_opening s = record s { timer = false; pdv = pdc.opening s.pdv; state = opened }
