-- ===== src/Fsm.antt =====
-- net/ppp/pppfsm.c and pppfsm.h: the state machine that LCP and IPCP share. `Fsm D` is `struct fsm_s`
-- with the fields of `struct ppp_s` that it uses; `D` is all that only the protocol's own functions
-- see and change, and those functions are the record `Protocol`, for the pointers in `pdc`. Packets
-- are their bytes. Tracing is left out.
pub mod Send
pub mod Proc
pub mod Events
mod Tests
use ka9q_unix.Base.{ℕ, List, Bool}

pub data State : Type 0 where
  closed listen req_sent ack_rcvd ack_sent opened term_sent : State

-- `sent` are the packets handed to `iface->output`, oldest first; `timer` says whether the timer runs.
pub record Fsm (D : Type 0) : Type 0 where
  pub state : State
  pub lastid : ℕ
  pub active : Bool
  pub passive : Bool
  pub retry : ℕ
  pub try_req : ℕ
  pub try_terminate : ℕ
  pub retry_nak : ℕ
  pub try_nak : ℕ
  pub timer : Bool
  pub duration : ℕ
  pub ppp_id : ℕ
  pub out_ncp : ℕ
  pub has_pdv : Bool
  pub pdv : D
  pub sent : List (List ℕ)

pub record Header : Type 0 where
  pub code : ℕ
  pub id : ℕ
  pub len : ℕ

-- What `request` does: its verdict (`true` for 0), the counter of naks left, and the packets it sent
-- in answer, each a code and a body.
pub record Answer (D : Type 0) : Type 0 where
  pub accepted : Bool
  pub pdv : D
  pub retry_nak : ℕ
  pub replies : List (ℕ × List ℕ)

-- The constants and functions of a protocol, and the interface's output (`true` for 0). `ack`, `nak`
-- and `reject` are given `lastid`.
pub record Protocol (D : Type 0) : Type 0 where
  pub try_req : ℕ
  pub try_nak : ℕ
  pub try_terminate : ℕ
  pub duration : ℕ
  pub reset : D → D
  pub starting : D → D
  pub opening : D → D
  pub closing : D → D
  pub stopping : D → D
  pub free : D → D
  pub makereq : D → List ℕ × D
  pub request : D → ℕ → Header → List ℕ → Answer D
  pub ack : D → ℕ → Header → List ℕ → Bool × D
  pub nak : D → ℕ → Header → List ℕ → Bool × D
  pub reject : D → ℕ → Header → List ℕ → Bool × D
  pub output : D → List ℕ → Bool × D
