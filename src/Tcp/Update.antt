-- ===== src/Tcp/Update.antt =====
-- net/inet/tcpin.c: `update`, what an acknowledgement and a window change on the send side. An int32 is its
-- 32-bit pattern, and a long has 64 bits. What msclock gives during one call is an argument.
pub mod Alike
pub mod Acknowledge
pub mod Lost
pub mod Keeps
mod Tests
use ka9q_unix.Base.{
  ℕ, zero, suc, ◌+◌, ◌-◌, ◌*◌, ◌/◌, ◌^◌, Bool, true, false, not, ltb, leb, ◌==◌, ◌&&◌, ◌||◌, List,
  [], ◌∷◌, Option, none, some, if◌then◌else◌,
}
use ka9q_unix.Base.Word.{u32, sub32, add32, quot32, magnitude, biased, is_negative}
use ka9q_unix.Mbuf.Chain.{pullup}
use ka9q_unix.Tcp.{Tcp}
use ka9q_unix.Tcp.Output.{
  TcpState, tcp_established, tcp_close_wait, Settings, Sender, Sent, less, min32, max32, tcp_output,
}
use ka9q_unix.Tcp.Seq.{seq_lt, seq_gt, seq_ge}

-- The control block, the segments sent, and the arguments of the calls of rtt_add and t_upcall.
pub record Updated : Type 0 where
  pub tcb : Sender
  pub sent : List Sent
  pub rtt_added : Option ℕ
  pub notified : Option ℕ

abbrev pub quiet : Sender → Updated
quiet tcb = record { tcb = tcb; sent = []; rtt_added = none; notified = none }

-- The window that the segment offers, and whether it is larger than the one before.
unfoldable pub offered : Tcp → Sender → ℕ
offered seg tcb =
    if seg.flags.syn || not tcb.ws_ok then seg.wnd else u32 (seg.wnd * 2 ^ tcb.wind_scale)

unfoldable pub update_window : Tcp → Sender → Sender × Bool
unfolding offered
update_window seg tcb =
    let swind = offered seg tcb in
    let winupd = less tcb.wnd swind in
    if seq_gt seg.seq tcb.wl1 || seg.seq == tcb.wl1 && seq_ge seg.ack tcb.wl2
    then (
      record tcb {
        ptr = if winupd && tcb.wnd == 0 then tcb.una else tcb.ptr;
        wnd = swind;
        wl1 = seg.seq;
        wl2 = seg.ack;
      },
      winupd,
    )
    else (tcb, false)

-- No more than is on the send queue, and no less than a packet.
unfoldable pub clamp : Sender → Sender
clamp tcb = record tcb { cwind = max32 (min32 tcb.cwind tcb.sndcnt) tcb.mss }

unfoldable pub lost_packet : Sender → Sender
lost_packet tcb = record tcb {
  ssthresh = max32 (quot32 tcb.cwind 2) tcb.mss;
  ptr = tcb.una;
  cwind = tcb.mss;
}

-- A duplicate acknowledgement: at the third the packet that is lost is sent again.
unfoldable pub duplicate : Settings → ℕ → Sender → Option Updated
unfolding clamp lost_packet
duplicate cfg clock tcb =
    let counted = record tcb { dupacks = tcb.dupacks + 1 } in
    if counted.dupacks == 3
    then elim (tcp_output cfg clock (lost_packet counted)) [
      | none ↦ none
      | some (t, out) ↦
          let t' = record t { ptr = tcb.ptr; cwind = add32 t.ssthresh (3 * t.mss) } in
          some (record { tcb = clamp t'; sent = out; rtt_added = none; notified = none })
    ]
    else if ltb 3 counted.dupacks
    then some (quiet (clamp (record counted { cwind = add32 tcb.cwind tcb.mss })))
    else some (quiet (clamp counted))

-- The congestion window at an acknowledgement of `acked` octets.
unfoldable pub deflate : Sender → Sender
deflate tcb = record tcb {
  cwind = if leb 3 tcb.dupacks && less tcb.ssthresh tcb.cwind then tcb.ssthresh else tcb.cwind;
  dupacks = 0;
}

-- The quotient is that of signed numbers; `none` is the division by zero.
unfoldable pub grown : ℕ → Sender → Option ℕ
grown acked tcb =
    let extra = magnitude tcb.mss * magnitude tcb.mss / magnitude tcb.cwind in
    if less tcb.cwind tcb.ssthresh
    then some (add32 tcb.cwind (min32 acked tcb.mss))
    else if tcb.cwind == 0
    then none
    else some
        (if is_negative tcb.cwind then sub32 tcb.cwind (u32 extra) else u32 (tcb.cwind + extra))

unfoldable pub expand : ℕ → Sender → Option Sender
unfolding grown
expand acked tcb =
    if less tcb.cwind tcb.wnd && not tcb.retran
    then elim (grown acked tcb) [
      | none ↦ none
      | some cwind ↦ some (record tcb { cwind = if less tcb.wnd cwind then tcb.wnd else cwind })
    ]
    else some tcb

-- The time of a round trip, where one was measured.
unfoldable pub measured : ℕ → Tcp → Sender → Option ℕ
measured clock seg tcb =
    let since = sub32 clock tcb.rtt_time in
    if tcb.ts_ok && seg.flags.has_tstamp
    then some (sub32 clock seg.tsecr)
    else if tcb.rtt_run && seq_ge seg.ack tcb.rttseq && not tcb.retran && not (is_negative since)
    then some since
    else none

unfoldable pub stop_timing : Tcp → Sender → Sender
stop_timing seg tcb =
    if not (tcb.ts_ok && seg.flags.has_tstamp) && tcb.rtt_run && seq_ge seg.ack tcb.rttseq
    then record tcb { rtt_run = false }
    else tcb

-- The integrators, whose right shifts keep the sign.
unfoldable pub smooth : ℕ → ℕ → ℕ
smooth rtt srtt = sub32 (u32 ((biased (u32 (7 * srtt)) + rtt + 4) / 8)) (2 ^ 28)

unfoldable pub deviate : ℕ → ℕ → ℕ → ℕ
deviate rtt srtt mdev =
    let abserr = if ltb (biased srtt) (rtt + 2 ^ 31) then sub32 rtt srtt else sub32 srtt rtt in
    sub32 (biased (u32 (3 * mdev + abserr + 2)) / 4) (2 ^ 29)

unfoldable pub estimate : ℕ → Tcp → Option ℕ → Sender → Sender
unfolding smooth deviate
estimate clock seg none tcb = tcb
estimate clock seg (some rtt) tcb = record tcb {
  rtt = rtt;
  srtt = smooth rtt tcb.srtt;
  mdev = deviate rtt tcb.srtt tcb.mdev;
  backoff = 0;
  outlen = quot32 (u32 (7 * tcb.outlen + seg.ack + 2 ^ 32 - tcb.rttack)) 8;
  outrate = quot32 (u32 (7 * tcb.outrate + clock + 2 ^ 32 - tcb.lastack)) 8;
  lastack = clock;
}

-- The octets of the send queue among `acked`, without the SYN.
abbrev pub acked_data : Sender → ℕ → ℕ
acked_data tcb acked = if tcb.synack then acked else sub32 acked 1

unfoldable pub acknowledge : ℕ → ℕ → Sender → Sender
acknowledge ack acked tcb = record tcb {
  sndcnt = sub32 tcb.sndcnt acked;
  una = ack;
  synack = true;
  sndq = (pullup (acked_data tcb acked) tcb.sndq).rest;
  timer_runs = not (ack == tcb.nxt);
  ptr = if seq_lt tcb.ptr ack then ack else tcb.ptr;
  retran = false;
}

abbrev pub may_send : TcpState → Bool
may_send tcp_established = true
may_send tcp_close_wait = true
may_send _ = false

-- An acknowledgement of something new, behind the congestion window.
unfoldable pub take_ack : ℕ → Tcp → Sender → Sender → Updated
unfolding measured stop_timing estimate acknowledge
take_ack clock seg tcb clamped =
    let acked = sub32 seg.ack tcb.una in
    let rtt = measured clock seg clamped in
    let tcb' = acknowledge seg.ack acked (estimate clock seg rtt (stop_timing seg clamped)) in
    record {
      tcb = tcb';
      sent = [];
      rtt_added = rtt;
      notified =
          if not (acked_data tcb acked == 0) && tcb.has_upcall && may_send tcb.state
          then some (sub32 tcb.window tcb'.sndcnt)
          else none;
    }

unfoldable pub advance_una : ℕ → Tcp → Sender → Option Updated
unfolding deflate expand clamp take_ack
advance_una clock seg tcb = elim (expand (sub32 seg.ack tcb.una) (deflate tcb)) [
  | none ↦ none
  | some expanded ↦ some (take_ack clock seg tcb (clamp expanded))
]

-- `none` where the code divides by zero, or `tcp_output` does not end within its rounds.
unfoldable pub update : Settings → ℕ → Tcp → ℕ → Sender → Option Updated
unfolding update_window duplicate advance_una
update cfg clock seg len tcb =
    let w = update_window seg tcb in
    if seq_gt seg.ack tcb.nxt
    then some (quiet (record tcb { force = true }))
    else if seq_lt seg.ack tcb.una
    then some (quiet w.0)
    else if not (seg.ack == tcb.una)
    then advance_una clock seg w.0
    else if tcb.sndcnt == 0 || w.1 || not (len == 0) || seg.flags.syn || seg.flags.fin
    then some (quiet w.0)
    else duplicate cfg clock w.0
