-- ===== src/Tcp/Output/Forced.antt =====
-- A segment that is forced while the SYN is to be sent again.
use ka9q_unix.Base.{
  ℕ, ◌-◌, ◌^◌, ◌<◌, ◌≡◌, ◌≢◌, true, false, ◌==◌, refl, ap, ◌∙◌, arith, length, take_all,
}
use ka9q_unix.Mbuf.{contents}
use ka9q_unix.Tcp.Output.{
  Sender, Settings, in_flight, sends_syn, data_size, data_offset, segment_data, segment_header,
  segment_size, send_segment,
}
use ka9q_unix.Tcp.Output.Window.{segment_data_lem}

no_size : (cfg : Settings) (t : Sender) → t.force ≡ true → t.ptr ≢ t.nxt → segment_size cfg t ≡ 0
unfolding segment_size
no_size cfg t f ne = let e : (t.ptr == t.nxt) ≡ false = ground (arith, ne) in rw (f, e) refl

whole_size : (t : Sender) → sends_syn t ≡ true → data_size t 0 ≡ 2 ^ 32 - 1
unfolding data_size
whole_size t e = rw e (omega arith)

whole_offset : (t : Sender) → t.synack ≡ false → in_flight t ≡ 0 → data_offset t ≡ 0
unfolding data_offset
whole_offset t s z = rw (s, z) refl

whole_queue :
    (t : Sender)
    → sends_syn t ≡ true
    → t.synack ≡ false
    → in_flight t ≡ 0
    → length (contents t.sndq) < 2 ^ 32 - 1
    → segment_data t 0 ≡ contents t.sndq
whole_queue t e s z l =
    segment_data_lem t 0
    ∙ rw (whole_size t e, whole_offset t s z)
        (take_all (2 ^ 32 - 1) (contents t.sndq) (omega (arith, l)))

sends_fin_lem :
    (cfg : Settings) (clock : ℕ) (t : Sender)
    → sends_syn t ≡ true
    → length (segment_data t 0) < 2 ^ 32 - 1
    → (segment_header cfg clock t 0).flags.fin ≡ true
unfolding segment_header
sends_fin_lem cfg clock t e l = rw (whole_size t e) (ground (arith, l))

-- Where a segment is forced while an unacknowledged SYN is next to be sent again, with nothing in
-- flight before the send pointer and less than 2^32 - 1 octets on the send queue, the segment is
-- no SYN of its own: its data size underflows, so it is a SYN and a FIN at once, bears the
-- sequence number behind all that was sent, and carries the whole send queue.
pub forced_syn_lem :
    (cfg : Settings) (clock : ℕ) (t : Sender)
    → t.force ≡ true
    → t.synack ≡ false
    → t.ptr ≡ t.iss
    → t.ptr ≢ t.nxt
    → in_flight t ≡ 0
    → length (contents t.sndq) < 2 ^ 32 - 1
    → let s = (send_segment cfg clock t (segment_size cfg t)).1 in
      (s.seg.flags.syn ≡ true)
      × ((s.seg.flags.fin ≡ true) × ((s.seg.seq ≡ t.nxt) × (s.bytes ≡ contents t.sndq)))
unfolding send_segment segment_header
forced_syn_lem cfg clock t f s i ne z l =
    let j : (t.ptr == t.iss) ≡ true = ground (arith, i) in
    let e : sends_syn t ≡ true = rw (s, j) refl in
    let q = whole_queue t e s z l in
    let fin = sends_fin_lem cfg clock t e (omega (arith, ap length q, l)) in
    rw (no_size cfg t f ne) (e, (fin, (refl, q)))
