-- ===== src/Tcp/Output/Timeout.antt =====
-- net/inet/tcptimer.c: `tcp_timeout`, and that it sends the oldest packet again and nothing else.
use ka9q_unix.Base.{
  if◌then◌else◌, max, ℕ, suc, ◌+◌, ◌-◌, ◌<◌, ◌≤◌, ◌≡◌, ◌≢◌, ◌⊎◌, inl, inr, Bool, true, false, not,
  ◌==◌, ◌&&◌, if◌then◌else◌, Bool-cases, refl, sym, ◌∙◌, arith, min, List, [], ◌∷◌, subst, Option,
  some, none,
}
use ka9q_unix.Base.Word.{add32, sub32, quot32}
use ka9q_unix.Tcp.Output.{
  TcpState, tcp_time_wait, Sender, Settings, Sent, in_flight, usable, could_send, held_back,
  segment_size, send_segment, output_loop, rounds, tcp_output, is_silent, min32, max32, min_uint,
}
use ka9q_unix.Tcp.Output.Bounds.{
  usable_idle, usable_busy, could_send_size, IsSender, Advances, segment_size_le, send_segment_lem,
}
use ka9q_unix.Tcp.Output.Ends.{stop_lem, round_lem, start_lem}
use ka9q_unix.Tcp.Output.Window.{
  header_seq, header_syn, span, segment_span, Unacked, IsPiece, segment-IsPiece,
}

-- In TIME_WAIT the connection is closed (`close_self`), with its timer stopped.
pub data TimeoutResult : Type 0 where
  closes : Sender → TimeoutResult
  retransmits : Option (Sender × List Sent) → TimeoutResult

abbrev pub is_time_wait : TcpState → Bool
is_time_wait tcp_time_wait = true
is_time_wait _ = false

-- Slow start again from the first octet that is not acknowledged.
unfoldable pub back_to_una : Sender → Sender
back_to_una tcb = record tcb {
  timer_runs = false;
  timeouts = add32 tcb.timeouts 1;
  retran = true;
  backoff = tcb.backoff + 1;
  ssthresh = max32 (quot32 tcb.cwind 2) tcb.mss;
  cwind = tcb.mss;
  ptr = tcb.una;
}

unfoldable pub tcp_timeout : Settings → ℕ → Sender → TimeoutResult
unfolding back_to_una
tcp_timeout cfg clock tcb =
    if is_time_wait tcb.state
    then closes (record tcb { timer_runs = false })
    else retransmits (elim (tcp_output cfg clock (back_to_una tcb)) [
      | none ↦ none
      | some (tcb', out) ↦ some (record tcb' { ptr = tcb.ptr }, out)
    ])

one_lem : (x : ℕ) → min_uint 1 x ≢ 0 → min_uint 1 x ≡ 1
one_lem x ne = ground (arith, ne)

-- The size of the first segment where nothing is in flight.
idle_size :
    (cfg : Settings) (t : Sender)
    → in_flight t ≡ 0
    → t.force ≡ false
    → segment_size cfg t ≡ (
        if not t.synack && not cfg.tcp_syndata
        then (if t.ptr == t.iss then min_uint 1 (could_send t) else 0)
        else could_send t)
unfolding segment_size held_back
idle_size cfg t z f = rw (f, z) refl

-- It is as large as it may be, or a SYN without data.
whole_or_syn :
    (cfg : Settings) (t : Sender)
    → in_flight t ≡ 0
    → t.force ≡ false
    → segment_size cfg t ≢ 0
    → (segment_size cfg t ≡ could_send t)
      ⊎ ((segment_size cfg t ≡ 1)
          × ((t.ptr ≡ t.iss) × ((t.synack ≡ false) × (cfg.tcp_syndata ≡ false))))
whole_or_syn cfg t z f ne =
    let size = idle_size cfg t z f in
    elim (Bool-cases t.synack) [
      | inl s ↦ inl (size ∙ rw s refl)
      | inr s ↦ elim (Bool-cases cfg.tcp_syndata) [
        | inl d ↦ inl (size ∙ rw (s, d) refl)
        | inr d ↦ elim (Bool-cases (t.ptr == t.iss)) [
          | inl i ↦
              let e : segment_size cfg t ≡ min_uint 1 (could_send t) = size ∙ rw (s, d, i) refl in
              inr (e ∙ one_lem (could_send t) (λ k. ne (e ∙ k)), (ground (arith, i), (s, d)))
          | inr i ↦ absurd (ne (size ∙ rw (s, d, i) refl))
        ]
      ]
    ]

-- With a congestion window of one packet nothing can follow it.
full_lem :
    (t s : Sender)
    → IsSender t
    → IsSender s
    → t.cwind ≡ t.mss
    → in_flight t ≡ 0
    → Advances t s (could_send t)
    → could_send t ≢ 0
    → could_send s ≡ 0
full_lem t s h k c z a ne =
    let m = h.mss_low in
    let u = usable_idle t h z in
    let v : usable s ≡ min s.wnd s.cwind - in_flight s =
      usable_busy s k (ground (arith, a.in_flight, ne)) in
    let x = could_send_size t h in
    let y = could_send_size s k in ground (arith, a.in_flight, a.sndcnt, a.wnd, a.cwind, a.mss)

-- Nothing follows a SYN that is not acknowledged, unless data may.
syn_lem :
    (cfg : Settings) (t s : Sender)
    → Unacked t
    → Advances t s 1
    → t.ptr ≡ t.iss
    → t.synack ≡ false
    → cfg.tcp_syndata ≡ false
    → in_flight t ≡ 0
    → segment_size cfg s ≡ 0
unfolding segment_size
syn_lem cfg t s u a i n d z =
    let ne : (s.ptr == s.iss) ≡ false = ground (arith, a.in_flight, a.una, a.iss, u n, z) in
    rw (a.synack, a.force, n, d, ne) refl

-- One segment is all that goes out.
one_segment :
    (cfg : Settings) (clock n : ℕ) (t : Sender)
    → IsSender t
    → Unacked t
    → t.cwind ≡ t.mss
    → in_flight t ≡ 0
    → t.force ≡ false
    → segment_size cfg t ≢ 0
    → let s = send_segment cfg clock t (segment_size cfg t) in
      output_loop cfg clock (suc (suc n)) t ≡ some (s.0, s.1 ∷ [])
one_segment cfg clock n t h u c z f ne =
    let size = segment_size cfg t in
    let s = send_segment cfg clock t size in
    let l = send_segment_lem cfg clock t h in
    let a = l.1 in
    let last : segment_size cfg s.0 ≡ 0 = elim (whole_or_syn cfg t z f ne) [
      | inl e ↦
          let b = segment_size_le cfg s.0 in
          let full = full_lem t s.0 h l.0 c z (subst (Advances t s.0) e a) (λ k. ne (e ∙ k)) in
          omega (arith, b, full)
      | inr (e, (i, (k, d))) ↦ syn_lem cfg t s.0 u (subst (Advances t s.0) e a) i k d z
    ] in
    round_lem cfg clock (suc n) t s.0 [] (inl ne) (stop_lem cfg clock n s.0 last a.force)

-- There is something to send again while the peer owes an acknowledgement.
some_size :
    (cfg : Settings) (t : Sender)
    → IsSender t
    → Unacked t
    → in_flight t ≡ 0
    → t.force ≡ false
    → t.ptr ≡ t.una
    → 0 < t.sndcnt
    → segment_size cfg t ≢ 0
some_size cfg t h u z f p pos e =
    let ne = start_lem t h z pos in
    let size = idle_size cfg t z f in
    elim (Bool-cases t.synack) [
      | inl s ↦ ne (sym (size ∙ rw s refl) ∙ e)
      | inr s ↦
          let i : (t.ptr == t.iss) ≡ true = ground (arith, u s, p) in
          elim (Bool-cases cfg.tcp_syndata) [
            | inl d ↦ ne (sym (size ∙ rw (s, d) refl) ∙ e)
            | inr d ↦
                let k : segment_size cfg t ≡ min_uint 1 (could_send t) = size ∙ rw (s, d, i) refl in
                ne (ground (arith, sym k ∙ e))
          ]
    ]

back-IsSender : (t : Sender) → IsSender t → IsSender (back_to_una t)
unfolding back_to_una
back-IsSender t h = record {
  una = h.una;
  ptr = h.una;
  nxt = h.nxt;
  ordered = omega (arith, h.una);
  queued = h.queued;
  count = h.count;
  held = h.held;
  wnd = h.wnd;
  cwind = h.mss;
  mss_low = h.mss_low;
  mss = h.mss;
}

-- With the pointer back where it was the pointers are still in order.
restore-IsSender :
    (m t : Sender)
    → IsSender m
    → IsSender t
    → m.una ≡ t.una
    → sub32 t.nxt t.una ≤ sub32 m.nxt m.una
    → IsSender (record m { ptr = t.ptr })
restore-IsSender m t k h e le = record {
  una = k.una;
  ptr = h.ptr;
  nxt = k.nxt;
  ordered = omega (arith, h.ordered, le, e);
  queued = k.queued;
  count = k.count;
  held = k.held;
  wnd = k.wnd;
  cwind = k.cwind;
  mss_low = k.mss_low;
  mss = k.mss;
}

back-Unacked : (t : Sender) → Unacked t → Unacked (back_to_una t)
unfolding back_to_una
back-Unacked t u = u

back-in_flight : (t : Sender) → IsSender t → in_flight (back_to_una t) ≡ 0
unfolding back_to_una
back-in_flight t h = omega (arith, h.una)

one_output :
    (cfg : Settings) (clock : ℕ) (t : Sender)
    → IsSender t
    → Unacked t
    → t.cwind ≡ t.mss
    → in_flight t ≡ 0
    → t.force ≡ false
    → is_silent t.state ≡ false
    → segment_size cfg t ≢ 0
    → let s = send_segment cfg clock t (segment_size cfg t) in
      tcp_output cfg clock t ≡ some (s.0, s.1 ∷ [])
unfolding tcp_output rounds
one_output cfg clock t h u c z f loud ne =
    let k : min32 t.wnd t.cwind + 3 ≡ suc (suc (min32 t.wnd t.cwind + 1)) = omega arith in
    rw (loud, k) (one_segment cfg clock (min32 t.wnd t.cwind + 1) t h u c z f ne)

-- A segment as large as it may be, or a SYN alone.
abbrev pub IsWhole : Sender → Sent → Type 0
IsWhole t x =
    (span x ≡ min (min t.sndcnt (max 1 (min t.wnd t.mss))) t.mss)
    ⊎ ((span x ≡ 1) × (x.seg.flags.syn ≡ true))

segment-IsWhole :
    (cfg : Settings) (clock : ℕ) (t : Sender)
    → IsSender t
    → Unacked t
    → t.cwind ≡ t.mss
    → in_flight t ≡ 0
    → t.force ≡ false
    → segment_size cfg t ≢ 0
    → IsWhole t (send_segment cfg clock t (segment_size cfg t)).1
unfolding send_segment
segment-IsWhole cfg clock t h u c z f ne =
    let full = segment_span cfg clock t h u (inl ne) in
    elim (whole_or_syn cfg t z f ne) [
      | inl e ↦
          let a = could_send_size t h in
          let b = usable_idle t h z in inl (full ∙ e ∙ omega (arith, a, b, z, c))
      | inr (e, (i, (s, d))) ↦
          inr (full ∙ e, header_syn cfg clock t (segment_size cfg t) ∙ ground (arith, i, s))
    ]

-- When the retransmission timer runs out (in any state but TIME_WAIT, LISTEN and CLOSED) and the
-- peer owes an acknowledgement, exactly one segment goes out. It begins at the first octet that is
-- not acknowledged, and its octets, SYN and FIN take up as many sequence numbers as are on the
-- send queue, in the offered window (1 if that is closed) and in a packet; or it is a SYN alone.
-- Its octets are those of the send queue at that place, with a FIN only where the queue ends. The
-- send pointer stays, and the pointers stay in order. It is assumed that they were in order before
-- and the count of the send queue is that of its octets with an unacknowledged SYN and a FIN at
-- most, that no segment is forced, and that an unacknowledged SYN stands at the start of the
-- sequence space.
pub tcp_timeout-oldest :
    (cfg : Settings) (clock : ℕ) (t : Sender)
    → IsSender t
    → Unacked t
    → t.force ≡ false
    → is_silent t.state ≡ false
    → is_time_wait t.state ≡ false
    → 0 < t.sndcnt
    → (t' : Sender) × ((x : Sent) × ((tcp_timeout cfg clock t ≡ retransmits (some (t', x ∷ [])))
          × ((x.seg.seq ≡ t.una)
              × (IsWhole t x × (IsPiece (back_to_una t) x × (IsSender t' × (t'.ptr ≡ t.ptr)))))))
unfolding tcp_timeout send_segment
tcp_timeout-oldest cfg clock t h u f loud waits pos =
    let m = back_to_una t in
    let k = back-IsSender t h in
    let v = back-Unacked t u in
    let z = back-in_flight t h in
    let ne = some_size cfg m k v z f refl pos in
    let size = segment_size cfg m in
    let s = send_segment cfg clock m size in
    let l = send_segment_lem cfg clock m k in
    let e = one_output cfg clock m k v refl z f loud ne in
    let piece = segment-IsPiece cfg clock m k v (inl ne) in
    let whole = segment-IsWhole cfg clock m k v refl z f ne in
    (
      record s.0 { ptr = t.ptr },
      (
        s.1,
        (
          rw (waits, e) refl,
          (
            header_seq cfg clock m size ne,
            (whole, (piece, (restore-IsSender s.0 t l.0 h l.1.una l.1.nxt_grows, refl))),
          ),
        ),
      ),
    )
