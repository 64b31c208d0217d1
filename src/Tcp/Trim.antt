-- ===== src/Tcp/Trim.antt =====
-- net/inet/tcpin.c: `in_window` and `trim`, which cuts an incoming segment down to the receive window.
pub mod Accepts
use ka9q_unix.Base.{ℕ, ◌+◌, [], Bool, true, false, ◌&&◌, ◌||◌, not, ◌==◌, if◌then◌else◌}
use ka9q_unix.Base.Word.{u32, sub32, add32, is_positive}
use ka9q_unix.Mbuf.{Packet}
use ka9q_unix.Mbuf.Chain.{pullup, trim_mbuf}
use ka9q_unix.Tcp.{Tcp, Tcb}
use ka9q_unix.Tcp.Seq.{seq_within}

-- Must not be used when the window is closed.
unfoldable pub in_window : Tcb → ℕ → Bool
unfolding seq_within
in_window tcb seq = seq_within seq tcb.rcv.nxt (sub32 (add32 tcb.rcv.nxt tcb.rcv.wnd) 1)

-- What `trim` leaves in the variables that it is given; `bp` is null if the segment was freed.
pub record Trimmed : Type 0 where
  pub accepted : Bool
  pub tcb : Tcb
  pub seg : Tcp
  pub bp : Packet
  pub len : ℕ

-- The length of a segment in sequence numbers, its flags included.
unfoldable pub seg_len : Tcp → ℕ → ℕ
seg_len seg len =
    u32 (u32 (len + (if seg.flags.syn then 1 else 0)) + (if seg.flags.fin then 1 else 0))

unfoldable pub acceptable : Tcb → Tcp → ℕ → Bool
unfolding in_window seq_within
acceptable tcb seg n =
    is_positive tcb.rcv.wnd
    && (in_window tcb seg.seq
        || not (n == 0)
          && (in_window tcb (sub32 (add32 seg.seq n) 1)
              || seq_within tcb.rcv.nxt seg.seq (sub32 (add32 seg.seq n) 1)))

-- Cut off `dupcnt` bytes of data at the front, if that is more than none.
unfoldable pub trim_dup : ℕ → Trimmed → Trimmed
trim_dup dupcnt t =
    if is_positive dupcnt
    then record t {
      bp = (pullup dupcnt t.bp).rest;
      seg = record t.seg { seq = add32 t.seg.seq dupcnt };
      len = sub32 t.len dupcnt;
    }
    else t

-- The bytes that were received before, the SYN first.
unfoldable pub trim_front : Trimmed → Trimmed
unfolding trim_dup
trim_front t =
    let dupcnt = sub32 t.tcb.rcv.nxt t.seg.seq in
    let flags' = record t.seg.flags { syn = false } in
    let t' = record t { tcb = record t.tcb { rerecv = add32 t.tcb.rerecv dupcnt } } in
    let no_syn = record t' { seg = record t.seg { seq = add32 t.seg.seq 1; flags = flags' } } in
    if not (is_positive dupcnt)
    then t
    else if t.seg.flags.syn
    then trim_dup (sub32 dupcnt 1) no_syn
    else trim_dup dupcnt t'

-- The bytes behind the window, and the FIN with them.
unfoldable pub trim_back : Trimmed → Trimmed
trim_back t =
    let excess = sub32 (add32 t.seg.seq t.len) (add32 t.tcb.rcv.nxt t.tcb.rcv.wnd) in
    if is_positive excess
    then record t {
      tcb = record t.tcb { rerecv = add32 t.tcb.rerecv excess };
      len = sub32 t.len excess;
      bp = trim_mbuf (sub32 t.len excess) t.bp;
      seg = record t.seg { flags = record t.seg.flags { fin = false } };
    }
    else t

-- With a closed window a segment that is refused is not freed.
unfoldable pub trim : Tcb → Tcp → Packet → ℕ → Trimmed
unfolding acceptable seg_len trim_back trim_front seq_within
trim tcb seg bp len =
    let n = seg_len seg len in
    let t : Trimmed = record { accepted = true; tcb = tcb; seg = seg; bp = bp; len = len } in
    if tcb.rcv.wnd == 0
    then record t {
      accepted = n == 0 && seq_within seg.seq tcb.rcv.nxt (add32 tcb.rcv.nxt tcb.window);
    }
    else if acceptable tcb seg n
    then trim_back (trim_front t)
    else record t { accepted = false; tcb = record tcb { rerecv = add32 tcb.rerecv n }; bp = [] }
