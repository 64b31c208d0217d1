-- ===== src/Tcp/Output/Bounds.antt =====
-- The send pointers stay in order, and a segment stays in the window.
use ka9q_unix.Base.{
  length, ℕ, ◌+◌, ◌-◌, ◌^◌, ◌<◌, ◌≤◌, ◌≡◌, ◌≢◌, ◌⊎◌, Bool, true, false, not, ◌==◌, ◌&&◌,
  if◌then◌else◌, arith, min, max,
}
use ka9q_unix.Mbuf.{contents}
use ka9q_unix.Base.Word.{IsU32, sub32, add32}
use ka9q_unix.Tcp.Seq.{seq_gt}
use ka9q_unix.Tcp.Output.{
  Sender, Settings, min_uint, in_flight, usable, could_send, held_back, segment_size, advance,
  set_timers, send_segment,
}

-- The pointers stand in the order una, ptr, nxt, what was sent is on the send queue, and what is counted is
-- an unacknowledged SYN, the octets of the queue and a FIN at most.
pub record IsSender (t : Sender) : Type 0 where
  pub una : IsU32 t.una
  pub ptr : IsU32 t.ptr
  pub nxt : IsU32 t.nxt
  pub ordered : in_flight t ≤ sub32 t.nxt t.una
  pub queued : sub32 t.nxt t.una ≤ t.sndcnt
  pub count : t.sndcnt < 2 ^ 31
  pub held : t.sndcnt ≤ (if t.synack then 0 else 1) + length (contents t.sndq) + 1
  pub wnd : t.wnd < 2 ^ 31
  pub cwind : t.cwind < 2 ^ 31
  pub mss_low : 0 < t.mss
  pub mss : t.mss < 2 ^ 31

-- The smaller of the offered window and the congestion window, but 1 to probe a closed one.
abbrev pub window : Sender → ℕ
window t = max 1 (min t.wnd t.cwind)

usable_lem : (t : Sender) → IsSender t → (usable t ≡ 0) ⊎ (in_flight t + usable t ≤ window t)
unfolding usable
usable_lem t h =
    let a = h.ordered in
    let b = h.queued in let c = h.count in let d = h.wnd in let e = h.cwind in ground arith

usable_small : (t : Sender) → IsSender t → usable t < 2 ^ 31
unfolding usable
usable_small t h =
    let a = h.ordered in
    let b = h.queued in let c = h.count in let d = h.wnd in let e = h.cwind in ground arith

-- The sizes as numbers.
pub usable_idle : (t : Sender) → IsSender t → in_flight t ≡ 0 → usable t ≡ window t
unfolding usable
usable_idle t h z = let d = h.wnd in let e = h.cwind in rw z (ground arith)

pub usable_busy :
    (t : Sender) → IsSender t → in_flight t ≢ 0 → usable t ≡ min t.wnd t.cwind - in_flight t
unfolding usable
usable_busy t h ne =
    let a = h.ordered in
    let b = h.queued in let c = h.count in let d = h.wnd in let e = h.cwind in ground arith

pub could_send_size :
    (t : Sender) → IsSender t → could_send t ≡ min (min (t.sndcnt - in_flight t) (usable t)) t.mss
unfolding could_send
could_send_size t h =
    let u = usable_small t h in
    let a = h.ordered in let b = h.queued in let c = h.count in ground arith

could_send_lem :
    (t : Sender) → IsSender t → (could_send t ≤ usable t) × (in_flight t + could_send t ≤ t.sndcnt)
unfolding could_send
could_send_lem t h =
    let u = usable_small t h in
    let a = h.ordered in let b = h.queued in let c = h.count in (ground arith, ground arith)

if_le : (c : Bool) (x y n : ℕ) → x ≤ n → y ≤ n → (if c then x else y) ≤ n
if_le true x y n a b = a
if_le false x y n a b = b

min_uint_le : (x n : ℕ) → x ≤ n → min_uint 1 x ≤ n
min_uint_le x n le = ground arith

pub segment_size_le : (cfg : Settings) (t : Sender) → segment_size cfg t ≤ could_send t
unfolding segment_size
segment_size_le cfg t =
    let n = could_send t in
    let nagle = if held_back t n then 0 else n in
    let a : nagle ≤ n = if_le (held_back t n) 0 n n (omega arith) (omega arith) in
    let b : min_uint 1 nagle ≤ n = min_uint_le nagle n a in
    let syn = if t.ptr == t.iss then min_uint 1 nagle else 0 in
    let c : syn ≤ n = if_le (t.ptr == t.iss) (min_uint 1 nagle) 0 n b (omega arith) in
    let whole = if not t.synack && not cfg.tcp_syndata then syn else nagle in
    let d : whole ≤ n = if_le (not t.synack && not cfg.tcp_syndata) syn nagle n c a in
    if_le (t.force && not (t.ptr == t.nxt)) 0 whole n (omega arith) d

-- A segment is on the send queue, and either empty or in the window.
pub segment_size_lem :
    (cfg : Settings) (t : Sender)
    → IsSender t
    → (in_flight t + segment_size cfg t ≤ t.sndcnt)
      × ((segment_size cfg t ≡ 0) ⊎ (in_flight t + segment_size cfg t ≤ window t))
segment_size_lem cfg t h =
    let a = segment_size_le cfg t in
    let b = could_send_lem t h in
    let c = usable_lem t h in (omega (arith, a, b), ground (arith, a, b, c))

-- What one segment changes of the pointers.
pub record Advances (t s : Sender) (n : ℕ) : Type 0 where
  pub una : s.una ≡ t.una
  pub wnd : s.wnd ≡ t.wnd
  pub cwind : s.cwind ≡ t.cwind
  pub ssthresh : s.ssthresh ≡ t.ssthresh
  pub sndcnt : s.sndcnt ≡ t.sndcnt
  pub sndq : s.sndq ≡ t.sndq
  pub synack : s.synack ≡ t.synack
  pub iss : s.iss ≡ t.iss
  pub mss : s.mss ≡ t.mss
  pub force : s.force ≡ false
  pub in_flight : in_flight s ≡ in_flight t + n
  pub nxt_grows : sub32 t.nxt t.una ≤ sub32 s.nxt s.una
  pub ptr : s.ptr ≡ add32 t.ptr n

advance_lem :
    (t : Sender) (n : ℕ)
    → IsSender t
    → in_flight t + n ≤ t.sndcnt
    → IsSender (advance t n) × Advances t (advance t n) n
unfolding advance seq_gt
advance_lem t n h le = let a = h.ordered in let b = h.queued in let c = h.count in ground arith

-- The timers do not touch the pointers.
set_timers_lem :
    (clock : ℕ) (t s : Sender) (n : ℕ)
    → IsSender s × Advances t s n
    → IsSender (set_timers clock s n) × Advances t (set_timers clock s n) n
unfolding set_timers
set_timers_lem clock t s n h = let i = h.0 in let a = h.1 in ground arith

-- One segment keeps the pointers in order and moves the send pointer by its size.
pub send_segment_lem :
    (cfg : Settings) (clock : ℕ) (t : Sender)
    → IsSender t
    → let n = segment_size cfg t in
      let s = (send_segment cfg clock t n).0 in IsSender s × Advances t s n
unfolding send_segment
send_segment_lem cfg clock t h =
    let n = segment_size cfg t in
    set_timers_lem clock t (advance t n) n (advance_lem t n h (segment_size_lem cfg t h).0)
