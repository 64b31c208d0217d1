-- ===== src/Tcp/Update/Keeps.antt =====
-- An acknowledgement keeps the send side in order, on every branch.
use ka9q_unix.Base.{
  ℕ, ◌^◌, ◌<◌, ◌≡◌, ◌≢◌, inl, inr, true, false, not, ◌==◌, ◌&&◌, ◌||◌, Bool-cases, refl, sym, ap₂,
  ◌∙◌, arith, [], drop, some,
}
use ka9q_unix.Base.Word.{IsU32}
use ka9q_unix.Mbuf.{Packet, contents}
use ka9q_unix.Tcp.{Tcp}
use ka9q_unix.Tcp.Output.{Settings, Sender, is_silent}
use ka9q_unix.Tcp.Output.Bounds.{IsSender}
use ka9q_unix.Tcp.Seq.{seq_lt, seq_gt, seq_ge}
use ka9q_unix.Tcp.Update.{Updated, quiet, offered, update_window, update}
use ka9q_unix.Tcp.Update.Alike.{IsReady, Alike-IsReady, self-Alike}
use ka9q_unix.Tcp.Update.Acknowledge.{covered, Acknowledged, advance_una-Acknowledged}
use ka9q_unix.Tcp.Update.Lost.{duplicate-Gives}

-- The acknowledgement and the window of a segment are in range.
pub record IsOffer (seg : Tcp) (t : Sender) : Type 0 where
  pub ack : IsU32 seg.ack
  pub offer : offered seg t < 2 ^ 31

offer_lem : (seg : Tcp) (t : Sender) → IsSender t → IsOffer seg t → IsSender (update_window seg t).0
unfolding update_window
offer_lem seg t h o =
    let a = h.una in
    let b = h.ptr in
    let c = h.nxt in
    let d = h.ordered in
    let e = h.queued in
    let f = h.count in
    let g = h.wnd in
    let i = h.cwind in let j = h.mss_low in let k = h.mss in ground (arith, o.offer)

-- What a window does not change.
record Widens (t s : Sender) : Type 0 where
  pub una : s.una ≡ t.una
  pub nxt : s.nxt ≡ t.nxt
  pub iss : s.iss ≡ t.iss
  pub synack : s.synack ≡ t.synack
  pub sndcnt : s.sndcnt ≡ t.sndcnt
  pub sndq : s.sndq ≡ t.sndq
  pub ssthresh : s.ssthresh ≡ t.ssthresh
  pub cwind : s.cwind ≡ t.cwind
  pub state : s.state ≡ t.state
  pub force : s.force ≡ t.force

window-Widens : (seg : Tcp) (t : Sender) → Widens t (update_window seg t).0
unfolding update_window
window-Widens seg t =
    elim (Bool-cases (seq_gt seg.seq t.wl1 || seg.seq == t.wl1 && seq_ge seg.ack t.wl2)) [
      | inl e ↦ rw e (record {
        una = refl;
        nxt = refl;
        iss = refl;
        synack = refl;
        sndcnt = refl;
        sndq = refl;
        ssthresh = refl;
        cwind = refl;
        state = refl;
        force = refl;
      })
      | inr e ↦ rw e (record {
        una = refl;
        nxt = refl;
        iss = refl;
        synack = refl;
        sndcnt = refl;
        sndq = refl;
        ssthresh = refl;
        cwind = refl;
        state = refl;
        force = refl;
      })
    ]

window-IsReady :
    (seg : Tcp) (t : Sender) → IsReady t → IsOffer seg t → IsReady (update_window seg t).0
window-IsReady seg t r o =
    let w = window-Widens seg t in
    record {
      sender = offer_lem seg t r.sender o;
      unacked = λ e. w.una ∙ r.unacked (sym w.synack ∙ e) ∙ sym w.iss;
      threshold_low = omega (arith, w.ssthresh, r.threshold_low);
      threshold = omega (arith, w.ssthresh, r.threshold);
      cwind_low = omega (arith, w.cwind, r.cwind_low);
    }

Widens-Acknowledged :
    (t w s : Sender) (ack : ℕ) → Widens t w → Acknowledged w ack s → Acknowledged t ack s
Widens-Acknowledged t w s ack v h =
    let e : covered t ack ≡ covered w ack = rw (v.una, v.synack) refl in
    record {
      ready = h.ready;
      una = h.una;
      nxt = h.nxt ∙ v.nxt;
      sndcnt = omega (arith, h.sndcnt, v.una, v.sndcnt);
      sndq = h.sndq ∙ ap₂ (λ (n : ℕ) (p : Packet). drop n (contents p)) (sym e) v.sndq;
    }

-- update returns for every segment whose acknowledgement and window are in range, and keeps a send
-- side in order that was so before: whether it ignores the segment, takes only its window, counts
-- a duplicate, sends a lost packet again, or takes octets off the send queue. A send side in order
-- has a congestion window and a threshold that are positive, as the code divides by the former. It
-- is assumed that the connection is not closed or listening and that no segment is forced while
-- the SYN is unacknowledged.
pub update-IsReady :
    (cfg : Settings) (clock : ℕ) (seg : Tcp) (len : ℕ) (t : Sender)
    → IsReady t
    → IsOffer seg t
    → is_silent t.state ≡ false
    → (t.force ≡ true → t.synack ≡ true)
    → (r : Updated) × ((update cfg clock seg len t ≡ some r) × IsReady r.tcb)
unfolding update
update-IsReady cfg clock seg len t r o loud f =
    let w = update_window seg t in
    let v = window-Widens seg t in
    let k = window-IsReady seg t r o in
    elim (Bool-cases (seq_gt seg.ack t.nxt)) [
      | inl a ↦ (
        quiet (record t { force = true }),
        (
          rw a refl,
          Alike-IsReady t (record t { force = true }) r (self-Alike t t.dupacks r t.cwind true)
              (r.cwind_low, r.sender.cwind),
        ),
      )
      | inr a ↦ elim (Bool-cases (seq_lt seg.ack t.una)) [
        | inl b ↦ (quiet w.0, (rw (a, b) refl, k))
        | inr b ↦ elim (Bool-cases (seg.ack == t.una)) [
          | inr c ↦
              let a' =
                advance_una-Acknowledged clock seg w.0 k o.ack (rw v.nxt a) (rw v.una b)
                  (λ e. ground (arith, c, e ∙ v.una)) in
              (a'.0, (rw (a, b, c) a'.1.0, a'.1.1.1.ready))
          | inl c ↦
              elim (Bool-cases
                (t.sndcnt == 0 || w.1 || not (len == 0) || seg.flags.syn || seg.flags.fin)) [
                  | inl d ↦ (quiet w.0, (rw (a, b, c, d) refl, k))
                  | inr d ↦
                      rw (a, b, c, d)
                        (duplicate-Gives cfg clock w.0 k (rw v.state loud)
                          (λ e. v.synack ∙ f (sym v.force ∙ e)))
                ]
        ]
      ]
    ]

-- An acknowledgement of octets in flight makes update take just these off the send queue, less the
-- SYN if that was still unacknowledged, count them off, move the start of what is in flight to
-- them, and send nothing; the send side stays in order. It is assumed that it was so before, with
-- a positive congestion window and threshold, that the acknowledgement and the window are in
-- range, and that the number lies between the oldest octet in flight and the next to be sent, and
-- is not the former.
pub update-Acknowledged :
    (cfg : Settings) (clock : ℕ) (seg : Tcp) (len : ℕ) (t : Sender)
    → IsReady t
    → IsOffer seg t
    → seq_gt seg.ack t.nxt ≡ false
    → seq_lt seg.ack t.una ≡ false
    → seg.ack ≢ t.una
    → (r : Updated) × ((update cfg clock seg len t ≡ some r)
        × ((r.sent ≡ []) × Acknowledged t seg.ack r.tcb))
unfolding update
update-Acknowledged cfg clock seg len t r o a b ne =
    let w = update_window seg t in
    let v = window-Widens seg t in
    let k = window-IsReady seg t r o in
    let c : (seg.ack == t.una) ≡ false = ground (arith, ne) in
    let h =
      advance_una-Acknowledged clock seg w.0 k o.ack (rw v.nxt a) (rw v.una b)
        (λ e. ne (e ∙ v.una)) in
    (h.0, (rw (a, b, c) h.1.0, (h.1.1.0, Widens-Acknowledged t w.0 h.0.tcb seg.ack v h.1.1.1)))
