-- ===== src/Tcp/Update/Alike.antt =====
-- What keeps the send side in order whatever it does to the congestion window.
use ka9q_unix.Base.{ℕ, ◌^◌, ◌<◌, ◌≡◌, Bool, refl, sym, ◌∙◌, arith}
use ka9q_unix.Base.Word.{IsU32}
use ka9q_unix.Tcp.Output.{Sender, min32, max32}
use ka9q_unix.Tcp.Output.Bounds.{IsSender}
use ka9q_unix.Tcp.Output.Window.{Unacked}
use ka9q_unix.Tcp.Update.{clamp}

-- The pointers are in order, an unacknowledged SYN stands at the start of the sequence space, and the
-- threshold and the congestion window are positive.
pub record IsReady (t : Sender) : Type 0 where
  pub sender : IsSender t
  pub unacked : Unacked t
  pub threshold_low : 0 < t.ssthresh
  pub threshold : t.ssthresh < 2 ^ 31
  pub cwind_low : 0 < t.cwind

-- Two states that differ in the congestion window and in what is not of the send side.
pub record Alike (t s : Sender) : Type 0 where
  pub una : s.una ≡ t.una
  pub ptr : s.ptr ≡ t.ptr
  pub nxt : s.nxt ≡ t.nxt
  pub wnd : s.wnd ≡ t.wnd
  pub mss : s.mss ≡ t.mss
  pub iss : s.iss ≡ t.iss
  pub synack : s.synack ≡ t.synack
  pub sndcnt : s.sndcnt ≡ t.sndcnt
  pub sndq : s.sndq ≡ t.sndq
  pub ssthresh_low : 0 < s.ssthresh
  pub ssthresh : s.ssthresh < 2 ^ 31

pub Alike-resized : (t s : Sender) → Alike t s → (c : ℕ) → Alike t (record s { cwind = c })
Alike-resized t s a c = record {
  una = a.una;
  ptr = a.ptr;
  nxt = a.nxt;
  wnd = a.wnd;
  mss = a.mss;
  iss = a.iss;
  synack = a.synack;
  sndcnt = a.sndcnt;
  sndq = a.sndq;
  ssthresh_low = a.ssthresh_low;
  ssthresh = a.ssthresh;
}

pub clamp_low :
    (c s m : ℕ)
    → IsU32 c
    → s < 2 ^ 31
    → 0 < m
    → m < 2 ^ 31
    → (0 < max32 (min32 c s) m) × (max32 (min32 c s) m < 2 ^ 31)
clamp_low c s m a b p d = ground arith

pub Alike-IsReady :
    (t s : Sender) → IsReady t → Alike t s → (0 < s.cwind) × (s.cwind < 2 ^ 31) → IsReady s
Alike-IsReady t s r a c =
    let h = r.sender in
    record {
      sender = record {
        una = omega (arith, h.una, a.una);
        ptr = omega (arith, h.ptr, a.ptr);
        nxt = omega (arith, h.nxt, a.nxt);
        ordered = rw (a.ptr, a.una, a.nxt) h.ordered;
        queued = rw (a.una, a.nxt, a.sndcnt) h.queued;
        count = omega (arith, h.count, a.sndcnt);
        held = rw (a.synack, a.sndcnt, a.sndq) h.held;
        wnd = omega (arith, h.wnd, a.wnd);
        cwind = c.1;
        mss_low = omega (arith, h.mss_low, a.mss);
        mss = omega (arith, h.mss, a.mss);
      };
      unacked = λ e. a.una ∙ r.unacked (sym a.synack ∙ e) ∙ sym a.iss;
      threshold_low = a.ssthresh_low;
      threshold = a.ssthresh;
      cwind_low = c.0;
    }

pub clamp-Alike :
    (t s : Sender) → IsReady t → Alike t s → IsU32 s.cwind → IsReady (clamp s) × Alike t (clamp s)
unfolding clamp
clamp-Alike t s r a c =
    let h = r.sender in
    let low =
      clamp_low s.cwind s.sndcnt s.mss c (omega (arith, h.count, a.sndcnt))
        (omega (arith, h.mss_low, a.mss)) (omega (arith, h.mss, a.mss)) in
    let alike : Alike t (clamp s) = Alike-resized t s a (max32 (min32 s.cwind s.sndcnt) s.mss) in
    (Alike-IsReady t (clamp s) r alike low, alike)

pub self-Alike :
    (t : Sender) (n : ℕ)
    → IsReady t
    → (c : ℕ) (f : Bool) → Alike t (record t { dupacks = n; cwind = c; force = f })
self-Alike t n r c f = record {
  una = refl;
  ptr = refl;
  nxt = refl;
  wnd = refl;
  mss = refl;
  iss = refl;
  synack = refl;
  sndcnt = refl;
  sndq = refl;
  ssthresh_low = r.threshold_low;
  ssthresh = r.threshold;
}
