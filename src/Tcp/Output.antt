-- ===== src/Tcp/Output.antt =====
-- net/inet/tcpout.c: `tcp_output`. `Sender` is the part of a connection's control block (struct tcb) that
-- the send side uses; an int32 is its 32-bit pattern. What msclock gives while the segments of one call
-- are made is an argument, and the segments that are handed to htontcp and ip_send are the result.
pub mod Bounds
pub mod Window
pub mod Ends
pub mod Forced
pub mod Timeout
mod Tests
use ka9q_unix.Base.{
  ℕ, zero, suc, ◌+◌, ◌-◌, ◌*◌, ◌/◌, ◌^◌, Bool, true, false, not, ltb, ◌==◌, ◌&&◌, ◌||◌, List, [],
  ◌∷◌, length, Option, none, some, if◌then◌else◌,
}
use ka9q_unix.Base.Word.{u32, sub32, add32, biased, is_positive}
use ka9q_unix.Mbuf.{Packet}
use ka9q_unix.Mbuf.Chain.{extract}
use ka9q_unix.Tcp.{Tcp, TcpFlags}
use ka9q_unix.Tcp.Seq.{seq_gt}

pub data TcpState : Type 0 where
  tcp_closed : TcpState
  tcp_listen : TcpState
  tcp_syn_sent : TcpState
  tcp_syn_received : TcpState
  tcp_established : TcpState
  tcp_finwait1 : TcpState
  tcp_finwait2 : TcpState
  tcp_close_wait : TcpState
  tcp_last_ack : TcpState
  tcp_closing : TcpState
  tcp_time_wait : TcpState

-- The macros `min` and `max` on int32, and on unsigned numbers.
abbrev pub less : ℕ → ℕ → Bool
less x y = ltb (biased x) (biased y)

abbrev pub min32 : ℕ → ℕ → ℕ
min32 x y = if less x y then x else y

abbrev pub max32 : ℕ → ℕ → ℕ
max32 x y = if less y x then x else y

abbrev pub min_uint : ℕ → ℕ → ℕ
min_uint x y = if ltb x y then x else y

-- The settings of tcpcmd.c.
pub record Settings : Type 0 where
  pub tcp_mss : ℕ
  pub tcp_syndata : Bool
  pub tcp_tstamps : Bool

pub record Sender : Type 0 where
  pub state : TcpState
  pub source : ℕ
  pub dest : ℕ
  pub una : ℕ
  pub nxt : ℕ
  pub ptr : ℕ
  pub wl1 : ℕ
  pub wl2 : ℕ
  pub wnd : ℕ
  pub wind_scale : ℕ
  pub iss : ℕ
  pub resent : ℕ
  pub cwind : ℕ
  pub ssthresh : ℕ
  pub dupacks : ℕ
  pub rcv_nxt : ℕ
  pub rcv_wnd : ℕ
  pub rcv_scale : ℕ
  pub last_ack_sent : ℕ
  pub ts_recent : ℕ
  pub mss : ℕ
  pub force : Bool
  pub retran : Bool
  pub synack : Bool
  pub rtt_run : Bool
  pub congest : Bool
  pub ts_ok : Bool
  pub ws_ok : Bool
  pub backoff : ℕ
  pub sndq : Packet
  pub sndcnt : ℕ
  pub timer_runs : Bool
  pub interval : ℕ
  pub rtt_time : ℕ
  pub rttseq : ℕ
  pub rttack : ℕ
  pub srtt : ℕ
  pub mdev : ℕ
  pub rtt : ℕ
  pub timeouts : ℕ
  pub window : ℕ
  pub has_upcall : Bool
  pub lastack : ℕ
  pub outlen : ℕ
  pub outrate : ℕ

-- A segment that is sent, with its data.
pub record Sent : Type 0 where
  pub seg : Tcp
  pub bytes : List ℕ

abbrev pub in_flight : Sender → ℕ
in_flight tcb = sub32 tcb.ptr tcb.una

unfoldable pub usable : Sender → ℕ
usable tcb =
    let sent = in_flight tcb in
    let window = min32 tcb.wnd tcb.cwind in
    if less sent window then sub32 window sent else if window == 0 && sent == 0 then 1 else 0

is_finwait1 : TcpState → Bool
is_finwait1 tcp_finwait1 = true
is_finwait1 _ = false

-- What could be sent, then Nagle's rule, the rule for data on a SYN and the one for a forced segment.
unfoldable pub could_send : Sender → ℕ
unfolding usable
could_send tcb = min_uint (min32 (sub32 tcb.sndcnt (in_flight tcb)) (usable tcb)) tcb.mss

unfoldable pub held_back : Sender → ℕ → Bool
unfolding is_finwait1
held_back tcb ssize =
    not tcb.force
    && not (in_flight tcb == 0)
    && ltb ssize tcb.mss
    && not (is_finwait1 tcb.state && ssize == sub32 tcb.sndcnt (in_flight tcb))

unfoldable pub segment_size : Settings → Sender → ℕ
unfolding could_send held_back
segment_size cfg tcb =
    let ssize = could_send tcb in
    let after_nagle = if held_back tcb ssize then 0 else ssize in
    let after_syn =
      if not tcb.synack && not cfg.tcp_syndata
      then (if tcb.ptr == tcb.iss then min_uint 1 after_nagle else 0)
      else after_nagle in
    if tcb.force && not (tcb.ptr == tcb.nxt) then 0 else after_syn

is_syn_sent : TcpState → Bool
is_syn_sent tcp_syn_sent = true
is_syn_sent _ = false

abbrev pub sends_syn : Sender → Bool
sends_syn tcb = not tcb.synack && tcb.ptr == tcb.iss

-- The size of the segment less SYN, and the place of its data in the send queue.
unfoldable pub data_size : Sender → ℕ → ℕ
data_size tcb ssize = if sends_syn tcb then sub32 ssize 1 else ssize

unfoldable pub data_offset : Sender → ℕ
data_offset tcb =
    let sent = in_flight tcb in if not tcb.synack && not (sent == 0) then sub32 sent 1 else sent

unfoldable pub segment_data : Sender → ℕ → List ℕ
unfolding data_size data_offset
segment_data tcb ssize =
    if data_size tcb ssize == 0
    then []
    else extract (data_offset tcb) (data_size tcb ssize) tcb.sndq

-- The header; if the data end early, it carries a FIN.
unfoldable pub segment_header : Settings → ℕ → Sender → ℕ → Tcp
unfolding segment_data is_syn_sent
segment_header cfg clock tcb ssize =
    let dsize = data_size tcb ssize in
    let sends_fin = not (dsize == 0) && not (length (segment_data tcb ssize) == dsize) in
    let left = if sends_fin then sub32 dsize 1 else dsize in
    let sends_ack = not (is_syn_sent tcb.state) in
    let syn_stamp = sends_syn tcb && cfg.tcp_tstamps in
    let stamp = tcb.ts_ok && sends_ack in
    record {
      source = tcb.source;
      dest = tcb.dest;
      seq = if ssize == 0 then tcb.nxt else tcb.ptr;
      ack = tcb.rcv_nxt;
      wnd = if sends_syn tcb || not tcb.ws_ok then tcb.rcv_wnd else tcb.rcv_wnd / 2 ^ tcb.rcv_scale;
      checksum = 0;
      up = 0;
      mss = if sends_syn tcb then cfg.tcp_mss else 0;
      wsopt = 0;
      tsval = if syn_stamp || stamp then clock else 0;
      tsecr = if stamp then tcb.ts_recent else 0;
      flags = record {
        congest = tcb.congest;
        urg = false;
        ack = sends_ack;
        psh = not (left == 0) && add32 (in_flight tcb) ssize == tcb.sndcnt;
        rst = false;
        syn = sends_syn tcb;
        fin = sends_fin;
        has_mss = sends_syn tcb;
        has_wscale = sends_syn tcb;
        has_tstamp = syn_stamp || stamp;
      };
    }

-- The pointers behind a segment.
unfoldable pub advance : Sender → ℕ → Sender
advance tcb ssize =
    let again = if less tcb.ptr tcb.nxt then min_uint (sub32 tcb.nxt tcb.ptr) ssize else 0 in
    let ptr' = add32 tcb.ptr ssize in
    record tcb {
      force = false;
      last_ack_sent = tcb.rcv_nxt;
      resent = add32 tcb.resent again;
      ptr = ptr';
      nxt = if seq_gt ptr' tcb.nxt then ptr' else tcb.nxt;
    }

unfoldable pub backoff : ℕ → ℕ
backoff n = 2 ^ (if ltb 31 n then 31 else n)

-- The timers, where something was sent.
unfoldable pub set_timers : ℕ → Sender → ℕ → Sender
unfolding backoff
set_timers clock tcb ssize =
    let rto = u32 (backoff tcb.backoff * (4 * tcb.mdev + tcb.srtt)) in
    let timed = record tcb { interval = max32 500 rto; timer_runs = true } in
    let started = record timed {
      rtt_run = true;
      rtt_time = clock;
      rttseq = tcb.ptr;
      rttack = tcb.una;
    } in
    if ssize == 0 then tcb else if tcb.ts_ok || not tcb.rtt_run then started else timed

unfoldable pub send_segment : Settings → ℕ → Sender → ℕ → Sender × Sent
unfolding segment_header advance set_timers
send_segment cfg clock tcb ssize = (
  set_timers clock (advance tcb ssize) ssize,
  record { seg = segment_header cfg clock tcb ssize; bytes = segment_data tcb ssize },
)

abbrev pub is_silent : TcpState → Bool
is_silent tcp_closed = true
is_silent tcp_listen = true
is_silent _ = false

-- At most `n` rounds of the loop; `none` if it does not end within them.
unfoldable pub output_loop : Settings → ℕ → ℕ → Sender → Option (Sender × List Sent)
unfolding segment_size send_segment
output_loop cfg clock zero tcb = none
output_loop cfg clock (suc n) tcb =
    let ssize = segment_size cfg tcb in
    let s = send_segment cfg clock tcb ssize in
    let rest = output_loop cfg clock n s.0 in
    if ssize == 0 && not tcb.force
    then some (tcb, [])
    else elim rest [ none ↦ none | some (tcb', more) ↦ some (tcb', s.1 ∷ more) ]

-- Each round but the first sends something that the window admits.
unfoldable pub rounds : Sender → ℕ
rounds tcb = min32 tcb.wnd tcb.cwind + 3

unfoldable pub tcp_output : Settings → ℕ → Sender → Option (Sender × List Sent)
unfolding output_loop rounds
tcp_output cfg clock tcb =
    if is_silent tcb.state then some (tcb, []) else output_loop cfg clock (rounds tcb) tcb
