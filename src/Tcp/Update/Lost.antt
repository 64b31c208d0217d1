-- ===== src/Tcp/Update/Lost.antt =====
-- Duplicate acknowledgements and the packet that is sent again.
use ka9q_unix.Base.{
  ℕ, ◌+◌, ◌*◌, ◌^◌, ◌<◌, ◌≤◌, ◌≡◌, inl, inr, true, false, ltb, ◌==◌, Bool-cases, refl, sym, ◌∙◌,
  arith, Option, some, none,
}
use native.Mathlib.Decide.{ℕ_discrete}
use ka9q_unix.Base.Word.{sub32, add32}
use ka9q_unix.Tcp.Output.{Settings, Sender, min32, max32, is_silent}
use ka9q_unix.Tcp.Output.Bounds.{IsSender}
use ka9q_unix.Tcp.Output.Ends.{IsTimely, tcp_output-Ends}
use ka9q_unix.Tcp.Update.{Updated, quiet, clamp, lost_packet, duplicate}
use ka9q_unix.Tcp.Update.Alike.{IsReady, Alike-IsReady, clamp_low, clamp-Alike, self-Alike}

lost_packet-IsReady : (t : Sender) → IsReady t → IsReady (lost_packet t)
unfolding lost_packet
lost_packet-IsReady t r =
    let h = r.sender in
    record {
      sender = record {
        una = h.una;
        ptr = h.una;
        nxt = h.nxt;
        ordered = omega (arith, h.una);
        queued = h.queued;
        count = h.count;
        held = h.held;
        wnd = h.wnd;
        cwind = h.mss;
        mss_low = h.mss_low;
        mss = h.mss;
      };
      unacked = r.unacked;
      threshold_low = ground (arith, h.cwind, h.mss, h.mss_low);
      threshold = ground (arith, h.cwind, h.mss);
      cwind_low = h.mss_low;
    }

-- After a retransmission the pointer is put back.
resend-IsReady :
    (t s : Sender) (c : ℕ)
    → IsReady t
    → IsSender s
    → s.una ≡ t.una
    → s.iss ≡ t.iss
    → s.synack ≡ t.synack
    → (0 < s.ssthresh) × (s.ssthresh < 2 ^ 31)
    → sub32 t.nxt t.una ≤ sub32 s.nxt s.una
    → (0 < c) × (c < 2 ^ 31)
    → IsReady (record s { ptr = t.ptr; cwind = c })
resend-IsReady t s c r k una iss syn th le low =
    let h = r.sender in
    record {
      sender = record {
        una = k.una;
        ptr = h.ptr;
        nxt = k.nxt;
        ordered = omega (arith, h.ordered, le, una);
        queued = k.queued;
        count = k.count;
        held = k.held;
        wnd = k.wnd;
        cwind = low.1;
        mss_low = k.mss_low;
        mss = k.mss;
      };
      unacked = λ e. una ∙ r.unacked (sym syn ∙ e) ∙ sym iss;
      threshold_low = th.0;
      threshold = th.1;
      cwind_low = low.0;
    }

abbrev pub Gives : Option Updated → Type 0
Gives o = (r : Updated) × ((o ≡ some r) × IsReady r.tcb)

again-Gives :
    (cfg : Settings) (clock : ℕ) (t : Sender)
    → IsReady t
    → is_silent t.state ≡ false
    → (t.force ≡ true → t.synack ≡ true)
    → t.dupacks + 1 ≡ 3
    → Gives (duplicate cfg clock t)
unfolding duplicate clamp lost_packet
again-Gives cfg clock t r loud f three =
    let m = lost_packet (record t { dupacks = t.dupacks + 1 }) in
    let counted =
      Alike-IsReady t (record t { dupacks = t.dupacks + 1 }) r
        (self-Alike t (t.dupacks + 1) r t.cwind t.force) (r.cwind_low, r.sender.cwind) in
    let k : IsReady m = lost_packet-IsReady (record t { dupacks = t.dupacks + 1 }) counted in
    let timely : IsTimely m = λ e s. absurd (ground (arith, f e, s)) in
    let o = tcp_output-Ends cfg clock m k.sender k.unacked timely loud in
    let s = o.0 in
    let h = o.1.1.1 in
    let c = add32 s.ssthresh (3 * s.mss) in
    let low =
      clamp_low c s.sndcnt s.mss (omega arith) h.sender.count h.sender.mss_low h.sender.mss in
    let th : (0 < s.ssthresh) × (s.ssthresh < 2 ^ 31) =
      (omega (arith, h.ssthresh, k.threshold_low), omega (arith, h.ssthresh, k.threshold)) in
    let three' : (t.dupacks + 1 == 3) ≡ true = ground (arith, three) in
    (
      record {
        tcb = record s { ptr = t.ptr; cwind = max32 (min32 c s.sndcnt) s.mss };
        sent = o.1.0;
        rtt_added = none;
        notified = none;
      },
      (
        rw (three', o.1.1.0) refl,
        resend-IsReady t s (max32 (min32 c s.sndcnt) s.mss) r h.sender h.una h.iss h.synack th
            h.nxt_grows low,
      ),
    )

pub duplicate-Gives :
    (cfg : Settings) (clock : ℕ) (t : Sender)
    → IsReady t
    → is_silent t.state ≡ false
    → (t.force ≡ true → t.synack ≡ true)
    → Gives (duplicate cfg clock t)
unfolding duplicate
duplicate-Gives cfg clock t r loud f = elim (ℕ_discrete (t.dupacks + 1) 3) [
  | yes e ↦ again-Gives cfg clock t r loud f e
  | no ne ↦
      let e : (t.dupacks + 1 == 3) ≡ false = ground (arith, ne) in
      let n = t.dupacks + 1 in
      let more =
        clamp-Alike t (record t { dupacks = n; cwind = add32 t.cwind t.mss }) r
          (self-Alike t n r (add32 t.cwind t.mss) t.force) (omega arith) in
      let same =
        clamp-Alike t (record t { dupacks = n }) r (self-Alike t n r t.cwind t.force)
          (omega (arith, r.sender.cwind)) in
      elim (Bool-cases (ltb 3 n)) [
        | inl g ↦ (
          quiet (clamp (record t { dupacks = n; cwind = add32 t.cwind t.mss })),
          (rw (e, g) refl, more.0),
        )
        | inr g ↦ (quiet (clamp (record t { dupacks = n })), (rw (e, g) refl, same.0))
      ]
]
