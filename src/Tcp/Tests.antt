-- ===== src/Tcp/Tests.antt =====
-- The theorems on sequence numbers and the receive window at concrete ones.
use ka9q_unix.Base.{ℕ, ◌≡◌, ◌<◌, ◌≤◌, ◌↔◌, true, false, [], ◌∷◌, arith, refl}
use mathlib.Core.List.{Perm}
use ka9q_unix.Mbuf.{Packet}
use ka9q_unix.Tcp.{Tcp, TcpFlags, Tcb, Reseq}
use ka9q_unix.Tcp.Seq.{seq_within, ahead, seq_within-ahead, seq_within_wrong}
use ka9q_unix.Tcp.Trim.{trim, seg_len}
use ka9q_unix.Tcp.Trim.Accepts.{IsStraight, Overlaps, Keeps, trim-accepted, trim-Keeps}
use ka9q_unix.Tcp.Resequence.{add_reseq}
use ka9q_unix.Tcp.Resequence.Order.{IsSorted, add_reseq-IsSorted}

seq_within-ahead_example :
    (seq_within 5 0xfffffff0 0x10 ≡ true) ↔ (ahead 0xfffffff0 5 ≤ ahead 0xfffffff0 0x10)
seq_within-ahead_example =
    seq_within-ahead 5 0xfffffff0 0x10 (omega arith) (omega arith) (omega arith) (omega arith)

-- The number in the middle of the window is refused.
seq_within_wrong_example :
    (seq_within 0x80000000 0x7ffffff0 0x80000010 ≡ true)
    ↔ (ahead 0x7ffffff0 0x80000010 < ahead 0x7ffffff0 0x80000000)
seq_within_wrong_example =
    seq_within_wrong 0x80000000 0x7ffffff0 0x80000010 (omega arith) (omega arith) (omega arith)
      (omega arith) (omega arith) (omega arith)

middle_refused : seq_within 0x80000000 0x7ffffff0 0x80000010 ≡ false
unfolding seq_within
middle_refused = refl

abbrev ack_only : TcpFlags
ack_only = record {
  congest = false;
  urg = false;
  ack = true;
  psh = false;
  rst = false;
  syn = false;
  fin = false;
  has_mss = false;
  has_wscale = false;
  has_tstamp = false;
}

abbrev segment : ℕ → Tcp
segment seq = record {
  source = 23;
  dest = 1024;
  seq = seq;
  ack = 1;
  wnd = 512;
  checksum = 0;
  up = 0;
  mss = 0;
  wsopt = 0;
  tsval = 0;
  tsecr = 0;
  flags = ack_only;
}

-- Ready for 100 to 103.
abbrev small : Tcb
small = record { rcv = record { nxt = 100; wnd = 4 }; window = 4; rerecv = 0; reseq = [] }

abbrev eight : Packet
eight =
    record {
      size = 32;
      refcnt = 1;
      is_dup = false;
      room = 0;
      bytes = 1 ∷ 2 ∷ 3 ∷ 4 ∷ 5 ∷ 6 ∷ 7 ∷ 8 ∷ [];
    }
    ∷ []

small-IsStraight : IsStraight small (segment 98) 8
small-IsStraight = record {
  nxt = omega arith;
  open_window = omega arith;
  window = omega arith;
  seq = omega arith;
  no_syn = refl;
  size = omega arith;
  window_end = omega arith;
  segment_end = omega arith;
}

trim-accepted_example :
    ((trim small (segment 98) eight 8).accepted ≡ true) ↔ Overlaps small (segment 98) 8
trim-accepted_example = trim-accepted small-IsStraight eight

trim-Keeps_example : Keeps small (segment 98) eight 8 (trim small (segment 98) eight 8)
unfolding seg_len
trim-Keeps_example = trim-Keeps small-IsStraight eight refl (omega arith, omega arith)

abbrev entry : ℕ → Reseq
entry seq = record { seg = segment seq; bp = []; len = 0; tos = 0 }

abbrev queued : Tcb
queued = record small { reseq = entry 0xffffffff ∷ entry 3 ∷ [] }

add_reseq-IsSorted_example :
    let q = (add_reseq true queued 0 (segment 1) [] 0).reseq in
    IsSorted 0xfffffff0 q × Perm q (entry 1 ∷ queued.reseq)
add_reseq-IsSorted_example =
    add_reseq-IsSorted 0xfffffff0 queued 0 (segment 1) [] 0 (omega arith) (omega arith, omega arith)
      ((omega arith, omega arith), ((omega arith, omega arith), tt))
      (omega arith, (omega arith, tt))
