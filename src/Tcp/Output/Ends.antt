-- ===== src/Tcp/Output/Ends.antt =====
-- The loop of `tcp_output` ends, and what it has sent by then.
use ka9q_unix.Base.{
  ℕ, zero, suc, ◌+◌, ◌<◌, ◌≤◌, ◌≡◌, ◌≢◌, ◌⊎◌, inl, inr, Bool, true, false, not, ◌==◌, ◌&&◌,
  Bool-cases, refl, sym, ap, ◌∙◌, arith, List, [], ◌∷◌, Option, some, All, subst,
}
use native.Mathlib.Decide.{ℕ_discrete}
use ka9q_unix.Base.Word.{sub32, add32}
use ka9q_unix.Mbuf.{contents}
use ka9q_unix.Tcp.Output.{
  Sender, Settings, Sent, in_flight, sends_syn, segment_size, send_segment, output_loop, rounds,
  tcp_output, is_silent, could_send, usable, held_back,
}
use ka9q_unix.Tcp.Output.Bounds.{IsSender, window, Advances, segment_size_lem, send_segment_lem}
use ka9q_unix.Tcp.Output.Window.{
  Unacked, IsPiece, position, span, header_seq, segment_span, segment-IsPiece,
}
use ka9q_unix.Tcp.{Tcp}

-- Segments that take up the sequence numbers from `at` to `end`, one behind the other.
abbrev pub Covers : ℕ → List Sent → ℕ → Type 0
Covers at [] end = end ≡ at
Covers at (x ∷ xs) end = ((span x ≡ 0) ⊎ (x.seg.seq ≡ at)) × Covers (add32 at (span x)) xs end

-- What the loop leaves: the pointers in order, no more in flight than the window admits, nothing more
-- that could be sent, and only pieces of the send queue on their way, from the send pointer on without a gap.
pub record HasSent (cfg : Settings) (t t' : Sender) (out : List Sent) : Type 0 where
  pub sender : IsSender t'
  pub una : t'.una ≡ t.una
  pub iss : t'.iss ≡ t.iss
  pub ssthresh : t'.ssthresh ≡ t.ssthresh
  pub synack : t'.synack ≡ t.synack
  pub ptr_grows : in_flight t ≤ in_flight t'
  pub in_flight : (in_flight t' ≡ in_flight t) ⊎ (in_flight t' ≤ window t)
  pub nxt_grows : sub32 t.nxt t.una ≤ sub32 t'.nxt t'.una
  pub unforced : t'.force ≡ false
  pub idle : segment_size cfg t' ≡ 0
  pub pieces : All (IsPiece t) out
  pub covers : Covers t.ptr out t'.ptr

abbrev pub Ends : Settings → Sender → Option (Sender × List Sent) → Type 0
Ends cfg t r = (t' : Sender) × ((out : List Sent) × ((r ≡ some (t', out)) × HasSent cfg t t' out))

-- A forced segment is not a SYN without its place in the sequence space.
abbrev pub IsTimely : Sender → Type 0
IsTimely t = t.force ≡ true → sends_syn t ≡ true → (t.ptr ≡ t.nxt) × (0 < t.sndcnt)

pub stop_lem :
    (cfg : Settings) (clock n : ℕ) (t : Sender)
    → segment_size cfg t ≡ 0
    → t.force ≡ false
    → output_loop cfg clock (suc n) t ≡ some (t, [])
unfolding output_loop
stop_lem cfg clock n t z f = rw (z, f) refl

goes_on : (n : ℕ) (f : Bool) → (n ≢ 0) ⊎ (f ≡ true) → (n == 0 && not f) ≡ false
goes_on n f w = ground (arith, w)

pub round_lem :
    (cfg : Settings) (clock n : ℕ) (t t' : Sender) (out : List Sent)
    → (segment_size cfg t ≢ 0) ⊎ (t.force ≡ true)
    → let s = send_segment cfg clock t (segment_size cfg t) in
      output_loop cfg clock n s.0 ≡ some (t', out)
      → output_loop cfg clock (suc n) t ≡ some (t', s.1 ∷ out)
unfolding output_loop
round_lem cfg clock n t t' out w e = rw (goes_on (segment_size cfg t) t.force w, e) refl

position_same :
    (t s : Sender) (n : ℕ) (seg : Tcp) → Advances t s n → position t seg ≡ position s seg
unfolding position
position_same t s n seg a = rw (a.una, a.synack) refl

same-IsPiece : (t s : Sender) (n : ℕ) → Advances t s n → (x : Sent) → IsPiece s x → IsPiece t x
same-IsPiece t s n a x p =
    let at = position_same t s n x.seg a in
    let q : contents t.sndq ≡ contents s.sndq = ap contents (sym a.sndq) in
    record {
      piece = rw (at, q) p.piece;
      within = ground (arith, p.within, a.una, a.wnd, a.cwind);
      last = rw (at, q) p.last;
    }

All-same-IsPiece :
    (t s : Sender) (n : ℕ)
    → Advances t s n
    → (xs : List Sent) → All (IsPiece s) xs
    → All (IsPiece t) xs
All-same-IsPiece t s n a [] ps = tt
All-same-IsPiece t s n a (x ∷ xs) (p, ps) =
    (same-IsPiece t s n a x p, All-same-IsPiece t s n a xs ps)

-- What one round and the rounds behind it have sent.
HasSent-cons :
    (cfg : Settings) (t s t' : Sender) (n : ℕ) (x : Sent) (out : List Sent)
    → Advances t s n
    → (n ≡ 0) ⊎ (in_flight t + n ≤ window t)
    → IsPiece t x
    → span x ≡ n
    → (span x ≡ 0) ⊎ (x.seg.seq ≡ t.ptr)
    → HasSent cfg s t' out
    → HasSent cfg t t' (x ∷ out)
HasSent-cons cfg t s t' n x out a w p full at h = record {
  sender = h.sender;
  una = h.una ∙ a.una;
  iss = h.iss ∙ a.iss;
  ssthresh = h.ssthresh ∙ a.ssthresh;
  synack = h.synack ∙ a.synack;
  in_flight = ground (arith, h.in_flight, a.in_flight, a.wnd, a.cwind, w);
  ptr_grows = omega (arith, h.ptr_grows, a.in_flight);
  nxt_grows = ground (arith, h.nxt_grows, a.nxt_grows, a.una, h.una);
  unforced = h.unforced;
  idle = h.idle;
  pieces = (p, All-same-IsPiece t s n a out h.pieces);
  covers =
      (at, subst (λ (k : ℕ). Covers k out t'.ptr) (a.ptr ∙ ap (add32 t.ptr) (sym full)) h.covers);
}

next-Unacked : (t s : Sender) (n : ℕ) → Advances t s n → Unacked t → Unacked s
next-Unacked t s n a u e = a.una ∙ u (sym a.synack ∙ e) ∙ sym a.iss

-- A round and what the rest of the loop does.
round-Ends :
    (cfg : Settings) (clock n : ℕ) (t : Sender)
    → IsSender t
    → Unacked t
    → (segment_size cfg t ≢ 0) ⊎ (t.force ≡ true)
    → (segment_size cfg t ≢ 0) ⊎ (sends_syn t ≡ false)
    → let s = (send_segment cfg clock t (segment_size cfg t)).0 in
      Ends cfg s (output_loop cfg clock n s) → Ends cfg t (output_loop cfg clock (suc n) t)
unfolding send_segment
round-Ends cfg clock n t h u w v (t', (out, (e, r))) =
    let size = segment_size cfg t in
    let s = send_segment cfg clock t size in
    let b = segment_size_lem cfg t h in
    let a = (send_segment_lem cfg clock t h).1 in
    let p = segment-IsPiece cfg clock t h u v in
    let full = segment_span cfg clock t h u v in
    let at : (span s.1 ≡ 0) ⊎ (s.1.seg.seq ≡ t.ptr) = elim (ℕ_discrete size 0) [
      | yes z ↦ inl (full ∙ z)
      | no ne ↦ inr (header_seq cfg clock t size ne)
    ] in
    (
      t',
      (
        s.1 ∷ out,
        (
          round_lem cfg clock n t t' out w e,
          HasSent-cons cfg t s.0 t' size s.1 out a b.1 p full at r,
        ),
      ),
    )

-- The loop ends when there are more rounds than places in the window behind what is in flight.
loop-Ends :
    (cfg : Settings) (clock n : ℕ) (t : Sender)
    → IsSender t
    → Unacked t
    → t.force ≡ false
    → 0 < n
    → window t < n + in_flight t
    → Ends cfg t (output_loop cfg clock n t)
loop-Ends cfg clock zero t h u f pos w = absurd (ground (arith, pos))
loop-Ends cfg clock (suc n) t h u f pos w =
    let size = segment_size cfg t in
    elim (ℕ_discrete size 0) [
      | yes z ↦ (
        t,
        (
          [],
          (
            stop_lem cfg clock n t z f,
            record {
              sender = h;
              una = refl;
              iss = refl;
              ssthresh = refl;
              synack = refl;
              in_flight = inl refl;
              ptr_grows = omega arith;
              nxt_grows = omega arith;
              unforced = f;
              idle = z;
              pieces = tt;
              covers = refl;
            },
          ),
        ),
      )
      | no ne ↦
          let l = send_segment_lem cfg clock t h in
          let s = (send_segment cfg clock t size).0 in
          let b = (segment_size_lem cfg t h).1 in
          let a = l.1 in
          let more : (0 < n) × (window s < n + in_flight s) =
            ground (arith, a.in_flight, a.wnd, a.cwind, b, ne, w) in
          round-Ends cfg clock n t h u (inl ne) (inl ne)
            (loop-Ends cfg clock n s l.0 (next-Unacked t s size a u) a.force more.0 more.1)
    ]

pub rounds_lem : (t : Sender) → IsSender t → (2 ≤ rounds t) × (window t + 1 < rounds t)
unfolding rounds
rounds_lem t h = let d = h.wnd in let e = h.cwind in ground arith

pub start_lem : (t : Sender) → IsSender t → in_flight t ≡ 0 → 0 < t.sndcnt → could_send t ≢ 0
unfolding could_send usable
start_lem t h z pos =
    let b = h.count in let c = h.mss_low in let d = h.wnd in let e = h.cwind in rw z (ground arith)

forced_lem :
    (cfg : Settings) (t : Sender)
    → t.force ≡ true
    → t.ptr ≡ t.nxt
    → t.ptr ≡ t.iss
    → could_send t ≢ 0
    → segment_size cfg t ≢ 0
unfolding segment_size held_back
forced_lem cfg t f p i c =
    let e : (t.ptr == t.nxt) ≡ true = ground (arith, p) in
    let j : (t.ptr == t.iss) ≡ true = ground (arith, i) in rw (f, e, j) (ground (arith, c))

-- A forced segment at its time is not an empty SYN.
first_lem :
    (cfg : Settings) (t : Sender)
    → IsSender t
    → Unacked t
    → IsTimely t
    → t.force ≡ true
    → (segment_size cfg t ≢ 0) ⊎ (sends_syn t ≡ false)
first_lem cfg t h u q f = elim (Bool-cases (sends_syn t)) [
  | inr e ↦ inr e
  | inl e ↦
      let r = q f e in
      let s : (t.synack ≡ false) × (t.ptr ≡ t.iss) = ground (arith, e) in
      let a = u s.0 in
      let z : in_flight t ≡ 0 = omega (arith, a, s.1) in
      inl (forced_lem cfg t f r.0 s.1 (start_lem t h z r.1))
]

from-Ends :
    (cfg : Settings) (clock n : ℕ) (t : Sender)
    → IsSender t
    → Unacked t
    → IsTimely t
    → window t + 1 < n
    → Ends cfg t (output_loop cfg clock n t)
from-Ends cfg clock zero t h u q w = absurd (omega (arith, w))
from-Ends cfg clock (suc n) t h u q w = elim (Bool-cases t.force) [
  | inr f ↦ loop-Ends cfg clock (suc n) t h u f (omega arith) (omega (arith, w))
  | inl f ↦
      let l = send_segment_lem cfg clock t h in
      let size = segment_size cfg t in
      let s = (send_segment cfg clock t size).0 in
      let a = l.1 in
      let more : (0 < n) × (window s < n + in_flight s) =
        (omega (arith, w), ground (arith, a.wnd, a.cwind, w)) in
      round-Ends cfg clock n t h u (inr f) (first_lem cfg t h u q f)
        (loop-Ends cfg clock n s l.0 (next-Unacked t s size a u) a.force more.0 more.1)
]

-- tcp_output returns after finitely many segments. It keeps the send pointers in order, moves none
-- back, and leaves no more in flight than before or than the window admits. It stops only when
-- nothing more may be sent. The segments take up the sequence numbers from the old send pointer to
-- the new one, one behind the other, each with its octets, its SYN and its FIN; the octets are
-- those that the send queue holds at the sequence number, a FIN comes only where the queue ends,
-- and a segment is empty or its octets end in the window. It is assumed that the connection is not
-- closed or listening, that the pointers are in order and the count of the send queue is that of
-- its octets with an unacknowledged SYN and a FIN at most, that an unacknowledged SYN stands at
-- the start of the sequence space, and that a segment which is forced while that SYN is next to be
-- sent is not a retransmission.
pub tcp_output-Ends :
    (cfg : Settings) (clock : ℕ) (t : Sender)
    → IsSender t
    → Unacked t
    → IsTimely t
    → is_silent t.state ≡ false
    → Ends cfg t (tcp_output cfg clock t)
unfolding tcp_output
tcp_output-Ends cfg clock t h u q loud =
    rw loud (from-Ends cfg clock (rounds t) t h u q (rounds_lem t h).1)
