-- ===== src/Tcp/Update/Acknowledge.antt =====
-- An acknowledgement of something new.
use ka9q_unix.Base.{
  Bool, true, [], length, length-drop, ◌*◌, ◌/◌, ◌==◌, ◌-◌, ap, ℕ, ◌+◌, ◌^◌, ◌<◌, ◌≤◌, ◌≡◌, ◌≢◌,
  inl, inr, false, not, ◌&&◌, if◌then◌else◌, Bool-cases, refl, ◌∙◌, arith, subst, drop, Option,
  some, none,
}
use ka9q_unix.Base.Word.{IsU32, sub32, add32, u32, magnitude, is_negative}
use ka9q_unix.Mbuf.{contents}
use ka9q_unix.Mbuf.Chain.{pullup}
use ka9q_unix.Mbuf.Chain.Contents.{pullup-contents}
use ka9q_unix.Tcp.{Tcp}
use ka9q_unix.Tcp.Output.{Sender, less, min32}
use ka9q_unix.Tcp.Output.Bounds.{IsSender}
use ka9q_unix.Tcp.Seq.{seq_lt, seq_gt, seq_ge}
use ka9q_unix.Tcp.Update.{
  Updated, take_ack, clamp, deflate, grown, expand, measured, stop_timing, estimate, acked_data,
  acknowledge, advance_una,
}
use ka9q_unix.Tcp.Update.Alike.{IsReady, Alike, Alike-IsReady, Alike-resized, clamp-Alike}

deflate-Alike :
    (t : Sender)
    → IsReady t
    → Alike t (deflate t) × ((0 < (deflate t).cwind) × ((deflate t).cwind < 2 ^ 31))
unfolding deflate
deflate-Alike t r = (
  record {
    una = refl;
    ptr = refl;
    nxt = refl;
    wnd = refl;
    mss = refl;
    iss = refl;
    synack = refl;
    sndcnt = refl;
    sndq = refl;
    ssthresh_low = r.threshold_low;
    ssthresh = r.threshold;
  },
  ground (arith, r.threshold_low, r.cwind_low, r.threshold, r.sender.cwind),
)

if_u32 : (n : Bool) (c x : ℕ) → IsU32 (if n then sub32 c (u32 x) else u32 (c + x))
if_u32 true c x = omega arith
if_u32 false c x = omega arith

-- A positive congestion window can be expanded.
grown_lem :
    (acked : ℕ) (s : Sender)
    → 0 < s.cwind
    → s.cwind < 2 ^ 31
    → (c : ℕ) × ((grown acked s ≡ some c) × IsU32 c)
unfolding grown
grown_lem acked s pos small =
    let z : (s.cwind == 0) ≡ false = ground arith in
    let extra = magnitude s.mss * magnitude s.mss / magnitude s.cwind in
    elim (Bool-cases (less s.cwind s.ssthresh)) [
      | inl e ↦ (add32 s.cwind (min32 acked s.mss), (rw e refl, omega arith))
      | inr e ↦ (
        if is_negative s.cwind then sub32 s.cwind (u32 extra) else u32 (s.cwind + extra),
        (rw (e, z) refl, if_u32 (is_negative s.cwind) s.cwind extra),
      )
    ]

expand-Alike :
    (t s : Sender) (acked : ℕ)
    → IsSender t
    → Alike t s
    → 0 < s.cwind
    → s.cwind < 2 ^ 31
    → (x : Sender) × ((expand acked s ≡ some x) × (Alike t x × IsU32 x.cwind))
unfolding expand
expand-Alike t s acked h a pos small = elim (Bool-cases (less s.cwind s.wnd && not s.retran)) [
  | inr e ↦ (s, (rw e refl, (a, omega (arith, small))))
  | inl e ↦
      let g = grown_lem acked s pos small in
      let c = if less s.wnd g.0 then s.wnd else g.0 in
      (
        record s { cwind = c },
        (rw (e, g.1.0) refl, (Alike-resized t s a c, ground (arith, a.wnd, h.wnd, g.1.1))),
      )
]

stop_timing-Alike :
    (t s : Sender) (seg : Tcp)
    → Alike t s
    → Alike t (stop_timing seg s) × ((stop_timing seg s).cwind ≡ s.cwind)
unfolding stop_timing
stop_timing-Alike t s seg a =
    elim (Bool-cases
      (not (s.ts_ok && seg.flags.has_tstamp) && s.rtt_run && seq_ge seg.ack s.rttseq)) [
        | inr e ↦ rw e (a, refl)
        | inl e ↦ rw e (
          record {
            una = a.una;
            ptr = a.ptr;
            nxt = a.nxt;
            wnd = a.wnd;
            mss = a.mss;
            iss = a.iss;
            synack = a.synack;
            sndcnt = a.sndcnt;
            sndq = a.sndq;
            ssthresh_low = a.ssthresh_low;
            ssthresh = a.ssthresh;
          },
          refl,
        )
      ]

estimate-Alike :
    (t s : Sender) (clock : ℕ) (seg : Tcp) (rtt : Option ℕ)
    → Alike t s
    → Alike t (estimate clock seg rtt s) × ((estimate clock seg rtt s).cwind ≡ s.cwind)
unfolding estimate
estimate-Alike t s clock seg none a = (a, refl)
estimate-Alike t s clock seg (some x) a = (
  record {
    una = a.una;
    ptr = a.ptr;
    nxt = a.nxt;
    wnd = a.wnd;
    mss = a.mss;
    iss = a.iss;
    synack = a.synack;
    sndcnt = a.sndcnt;
    sndq = a.sndq;
    ssthresh_low = a.ssthresh_low;
    ssthresh = a.ssthresh;
  },
  refl,
)

taken :
    (s : Sender) (acked : ℕ)
    → contents (pullup (acked_data s acked) s.sndq).rest
      ≡ drop (acked_data s acked) (contents s.sndq)
taken s acked = (pullup-contents (acked_data s acked) s.sndq).1

held_lem :
    (s : Sender) (acked : ℕ)
    → length (contents (pullup (acked_data s acked) s.sndq).rest)
      ≡ length (contents s.sndq) - acked_data s acked
held_lem s acked = ap length (taken s acked) ∙ length-drop (acked_data s acked) (contents s.sndq)

-- An acknowledgement between the oldest octet in flight and the next to be sent.
acknowledge-IsReady :
    (s : Sender) (ack : ℕ)
    → IsReady s
    → IsU32 ack
    → seq_gt ack s.nxt ≡ false
    → seq_lt ack s.una ≡ false
    → ack ≢ s.una
    → IsReady (acknowledge ack (sub32 ack s.una) s)
      × ((acknowledge ack (sub32 ack s.una) s).sndcnt + sub32 ack s.una ≡ s.sndcnt)
unfolding acknowledge seq_lt seq_gt
acknowledge-IsReady s ack r w above below ne =
    let h = r.sender in
    let b = h.ptr in
    let c = h.nxt in
    let d = h.ordered in
    let e = h.queued in
    let f = h.count in
    let x : sub32 ack s.una ≤ sub32 s.nxt s.una = ground arith in
    (
      record {
        sender = record {
          una = w;
          ptr = ground arith;
          nxt = c;
          ordered = ground arith;
          queued = omega (arith, h.una);
          count = omega arith;
          held = ground (arith, held_lem s (sub32 ack s.una), h.una, ne, h.held);
          wnd = h.wnd;
          cwind = h.cwind;
          mss_low = h.mss_low;
          mss = h.mss;
        };
        unacked = λ e. absurd (ground (arith, e));
        threshold_low = r.threshold_low;
        threshold = r.threshold;
        cwind_low = r.cwind_low;
      },
      omega arith,
    )

-- The octets of the send queue that an acknowledgement covers: all but the SYN.
abbrev pub covered : Sender → ℕ → ℕ
covered t ack = if t.synack then sub32 ack t.una else sub32 ack t.una - 1

acked_data-covered :
    (t : Sender) (ack : ℕ)
    → IsU32 ack
    → IsU32 t.una
    → ack ≢ t.una
    → acked_data t (sub32 ack t.una) ≡ covered t ack
acked_data-covered t ack h k ne = ground (arith, ne)

-- What an acknowledgement of something new leaves.
pub record Acknowledged (t : Sender) (ack : ℕ) (s : Sender) : Type 0 where
  pub ready : IsReady s
  pub una : s.una ≡ ack
  pub nxt : s.nxt ≡ t.nxt
  pub sndcnt : s.sndcnt + sub32 ack t.una ≡ t.sndcnt
  pub sndq : contents s.sndq ≡ drop (covered t ack) (contents t.sndq)

pub advance_una-Acknowledged :
    (clock : ℕ) (seg : Tcp) (t : Sender)
    → IsReady t
    → IsU32 seg.ack
    → seq_gt seg.ack t.nxt ≡ false
    → seq_lt seg.ack t.una ≡ false
    → seg.ack ≢ t.una
    → (r : Updated) × ((advance_una clock seg t ≡ some r)
        × ((r.sent ≡ []) × Acknowledged t seg.ack r.tcb))
unfolding advance_una take_ack
advance_una-Acknowledged clock seg t r w above below ne =
    let acked = sub32 seg.ack t.una in
    let d = deflate-Alike t r in
    let e = expand-Alike t (deflate t) acked r.sender d.0 d.1.0 d.1.1 in
    let s1 = clamp e.0 in
    let c = clamp-Alike t e.0 r e.1.1.0 e.1.1.1 in
    let f = stop_timing-Alike t s1 seg c.1 in
    let s2 = stop_timing seg s1 in
    let rtt = measured clock seg s1 in
    let g = estimate-Alike t s2 clock seg rtt f.0 in
    let s3 = estimate clock seg rtt s2 in
    let small : (0 < s3.cwind) × (s3.cwind < 2 ^ 31) =
      rw (g.1, f.1) (c.0.cwind_low, c.0.sender.cwind) in
    let i = Alike-IsReady t s3 r g.0 small in
    let k =
      acknowledge-IsReady s3 seg.ack i w (rw g.0.nxt above) (rw g.0.una below)
        (λ q. ne (q ∙ g.0.una)) in
    let l =
      subst
        (λ (n : ℕ).
          IsReady (acknowledge seg.ack (sub32 seg.ack n) s3)
          × ((acknowledge seg.ack (sub32 seg.ack n) s3).sndcnt + sub32 seg.ack n ≡ s3.sndcnt))
        g.0.una k in
    (
      take_ack clock seg t s1,
      (
        rw (advance_una, e.1.0) refl,
        (
          refl,
          record {
            ready = l.0;
            una = refl;
            nxt = g.0.nxt;
            sndcnt = l.1 ∙ g.0.sndcnt;
            sndq =
                taken s3 acked
                ∙ rw (g.0.sndq, g.0.synack)
                    (ap (λ (n : ℕ). drop n (contents t.sndq))
                      (acked_data-covered t seg.ack w r.sender.una ne));
          },
        ),
      ),
    )
