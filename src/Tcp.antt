-- ===== src/Tcp.antt =====
-- net/inet: TCP. Sequence numbers are 32-bit patterns; `Tcp` is the header of a segment in host form
-- (struct tcp) and `Tcb` the part of a connection's control block that the receive side uses.
pub mod Seq
pub mod Trim
pub mod Resequence
pub mod Header
pub mod Output
pub mod Update
mod Tests
use ka9q_unix.Base.{ℕ, Bool, List}
use ka9q_unix.Mbuf.{Packet}

pub record TcpFlags : Type 0 where
  pub congest : Bool
  pub urg : Bool
  pub ack : Bool
  pub psh : Bool
  pub rst : Bool
  pub syn : Bool
  pub fin : Bool
  pub has_mss : Bool
  pub has_wscale : Bool
  pub has_tstamp : Bool

pub record Tcp : Type 0 where
  pub source : ℕ
  pub dest : ℕ
  pub seq : ℕ
  pub ack : ℕ
  pub wnd : ℕ
  pub checksum : ℕ
  pub up : ℕ
  pub mss : ℕ
  pub wsopt : ℕ
  pub tsval : ℕ
  pub tsecr : ℕ
  pub flags : TcpFlags

-- An entry of the queue of segments that arrived out of order.
pub record Reseq : Type 0 where
  pub seg : Tcp
  pub bp : Packet
  pub len : ℕ
  pub tos : ℕ

pub record Rcv : Type 0 where
  pub nxt : ℕ
  pub wnd : ℕ

pub record Tcb : Type 0 where
  pub rcv : Rcv
  pub window : ℕ
  pub rerecv : ℕ
  pub reseq : List Reseq
