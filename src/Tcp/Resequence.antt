-- ===== src/Tcp/Resequence.antt =====
-- net/inet/tcpin.c: the queue of segments that arrived out of order, in the order of their sequence
-- numbers: `add_reseq`, `get_reseq` and the loop of tcp_input that looks for a segment it can handle.
pub mod Order
use ka9q_unix.Base.{ℕ, Bool, true, false, List, [], ◌∷◌, Option, none, some, if◌then◌else◌, not}
use ka9q_unix.Mbuf.{Packet}
use ka9q_unix.Tcp.{Tcp, Tcb, Reseq}
use ka9q_unix.Tcp.Seq.{seq_lt, seq_ge}
use ka9q_unix.Tcp.Trim.{Trimmed, trim}

-- The place of `rp` behind `rp1`: just after the last entry that is not greater.
pub add_after : Reseq → Reseq → List Reseq → List Reseq
add_after rp rp1 [] = rp1 ∷ rp ∷ []
add_after rp rp1 (r ∷ rs) =
    if seq_lt rp.seg.seq r.seg.seq then rp1 ∷ rp ∷ r ∷ rs else rp1 ∷ add_after rp r rs

pub place : Reseq → List Reseq → List Reseq
unfolding add_after
place rp [] = rp ∷ []
place rp (rp1 ∷ rs) = if seq_lt rp.seg.seq rp1.seg.seq then rp ∷ rp1 ∷ rs else add_after rp rp1 rs

-- Without memory the segment is dropped.
unfoldable pub add_reseq : Bool → Tcb → ℕ → Tcp → Packet → ℕ → Tcb
unfolding place
add_reseq malloc_ok tcb tos seg bp len =
    if malloc_ok
    then record tcb {
      reseq = place (record { seg = seg; bp = bp; len = len; tos = tos }) tcb.reseq;
    }
    else tcb

-- The first entry, and the control block without it.
unfoldable pub get_reseq : Tcb → Option (Reseq × Tcb)
get_reseq tcb = elim tcb.reseq [ [] ↦ none | rp ∷ rs ↦ some (rp, record tcb { reseq = rs }) ]

-- What the scan of the queue ends with: a segment to process, with its type of service, or none.
pub data Scanned : Type 0 where
  found : ℕ → Trimmed → Scanned
  idle : Tcb → Scanned

-- Obsolete segments are dropped until one can be handled or the next lies in the future.
pub scan_reseq : Tcb → List Reseq → Scanned
scan_reseq tcb [] = idle (record tcb { reseq = [] })
scan_reseq tcb (rp ∷ rs) =
    let t = trim (record tcb { reseq = rs }) rp.seg rp.bp rp.len in
    let rest = scan_reseq t.tcb rs in
    if not (seq_ge tcb.rcv.nxt rp.seg.seq)
    then idle (record tcb { reseq = rp ∷ rs })
    else if t.accepted
    then found rp.tos t
    else rest
