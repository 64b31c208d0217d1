-- ===== src/Tcp/Trim/Accepts.antt =====
-- What `trim` makes of a data segment, told by the bytes that lie in the window.
use ka9q_unix.Base.{
  ℕ, ◌+◌, ◌-◌, ◌^◌, ◌<◌, ◌≡◌, ◌↔◌, min, max, true, false, arith, length, take, drop, length-drop,
  take_all, ◌∙◌, ap₂, sym,
}
use native.Mathlib.Decide.{dec_lt}
use ka9q_unix.Base.Word.{sub32, add32, biased}
use ka9q_unix.Mbuf.{Packet, contents}
use ka9q_unix.Mbuf.Chain.{pullup, trim_mbuf}
use ka9q_unix.Mbuf.Chain.Contents.{trim_mbuf-contents, pullup-contents}
use ka9q_unix.Tcp.{Tcp, Tcb}
use ka9q_unix.Tcp.Trim.{trim, Trimmed, acceptable, trim_back, trim_front, trim_dup, seg_len}

-- Neither the open window nor the segment reaches across the sign boundary.
pub record IsStraight (tcb : Tcb) (seg : Tcp) (len : ℕ) : Type 0 where
  pub nxt : tcb.rcv.nxt < 2 ^ 32
  pub open_window : 0 < tcb.rcv.wnd
  pub window : tcb.rcv.wnd < 2 ^ 31
  pub seq : seg.seq < 2 ^ 32
  pub no_syn : seg.flags.syn ≡ false
  pub size : len + 1 < 2 ^ 31
  pub window_end : biased tcb.rcv.nxt + tcb.rcv.wnd < 2 ^ 32
  pub segment_end : biased seg.seq + len + 1 < 2 ^ 32

-- The segment has a sequence number in the window.
abbrev pub Overlaps : Tcb → Tcp → ℕ → Type 0
Overlaps tcb seg len =
    let n = seg_len seg len in
    (biased seg.seq < biased tcb.rcv.nxt + tcb.rcv.wnd)
    × (biased tcb.rcv.nxt < biased seg.seq + max 1 n)

-- Where the kept bytes start and end, on the line that the sign boundary leaves.
abbrev pub kept_from : Tcb → Tcp → ℕ
kept_from tcb seg = max (biased seg.seq) (biased tcb.rcv.nxt)

abbrev pub kept_to : Tcb → Tcp → ℕ → ℕ
kept_to tcb seg len = min (biased seg.seq + len) (biased tcb.rcv.nxt + tcb.rcv.wnd)

abbrev pub Keeps : Tcb → Tcp → Packet → ℕ → Trimmed → Type 0
Keeps tcb seg bp len t =
    let n = kept_to tcb seg len - kept_from tcb seg in
    (biased t.seg.seq ≡ kept_from tcb seg)
    × (t.len ≡ n)
    × (contents t.bp ≡ take n (drop (kept_from tcb seg - biased seg.seq) (contents bp)))

module _ {tcb : Tcb} {seg : Tcp} {len : ℕ} (s : IsStraight tcb seg len) where
  acceptable-Overlaps : (acceptable tcb seg (seg_len seg len) ≡ true) ↔ Overlaps tcb seg len
  unfolding acceptable seg_len
  acceptable-Overlaps = (λ h. ground arith, λ h. ground arith)

  module _ (bp : Packet) (whole : length (contents bp) ≡ len) (o : Overlaps tcb seg len) where
    abbrev given : Trimmed
    given = record { accepted = true; tcb = tcb; seg = seg; bp = bp; len = len }

    abbrev old : ℕ
    old = kept_from tcb seg - biased seg.seq

    -- The front is cut off.
    trim_front_lem :
        let t = trim_front given in
        (biased t.seg.seq ≡ kept_from tcb seg)
        × (t.len ≡ len - old)
        × (t.tcb.rcv ≡ tcb.rcv)
        × (contents t.bp ≡ drop old (contents bp))
        × (t.seg.seq < 2 ^ 32)
    unfolding trim_front trim_dup seg_len
    trim_front_lem =
        let d : ℕ = sub32 tcb.rcv.nxt seg.seq in
        let p = pullup-contents d bp in
        elim (dec_lt (biased seg.seq) (biased tcb.rcv.nxt)) [
          | yes h ↦
              let e : d ≡ old = omega arith in
              let b : contents (pullup d bp).rest ≡ drop old (contents bp) = rw (← e) p.1 in
              ground (arith, b)
          | no h ↦ ground arith
        ]

    -- Then the back, of what is left.
    trim_back_lem : Keeps tcb seg bp len (trim_back (trim_front given))
    unfolding trim_back
    trim_back_lem =
        let t = trim_front given in
        let f = trim_front_lem in
        let n : ℕ = kept_to tcb seg len - kept_from tcb seg in
        let rest = drop old (contents bp) in
        let l : length rest ≡ len - old = omega (arith, length-drop old (contents bp), whole) in
        let lt : length (contents t.bp) ≡ len - old = rw f.3 l in
        let excess : ℕ = sub32 (add32 t.seg.seq t.len) (add32 t.tcb.rcv.nxt t.tcb.rcv.wnd) in
        elim (dec_lt (biased tcb.rcv.nxt + tcb.rcv.wnd) (biased seg.seq + len)) [
          | yes h ↦
              let e : sub32 t.len excess ≡ n = ground arith in
              let b = trim_mbuf-contents (sub32 t.len excess) t.bp (omega arith) in
              let b' : contents (trim_mbuf (sub32 t.len excess) t.bp) ≡ take n rest =
                b ∙ ap₂ take e f.3 in
              ground (arith, b')
          | no h ↦
              let b : contents t.bp ≡ take n rest = f.3 ∙ sym (take_all n rest (omega arith)) in
              ground (arith, b)
        ]

  -- Where window and segment do not cross the sign boundary, a segment without SYN is accepted by an
  -- open window exactly if it has a sequence number in it.
  pub trim-accepted : (bp : Packet) → ((trim tcb seg bp len).accepted ≡ true) ↔ Overlaps tcb seg len
  unfolding trim
  trim-accepted bp =
      let a = acceptable-Overlaps in (λ h. a.0 (ground arith), λ o. ground (arith, a.1 o))

  -- A data segment without SYN that has a sequence number in the receive window is cut down to the
  -- bytes in the window: `trim` leaves just those, their number, and the sequence number of the
  -- first. Window and segment do not cross the sign boundary.
  pub trim-Keeps :
      (bp : Packet)
      → length (contents bp) ≡ len
      → Overlaps tcb seg len
      → Keeps tcb seg bp len (trim tcb seg bp len)
  trim-Keeps bp whole o =
      let e : trim tcb seg bp len ≡ trim_back (trim_front (given bp whole o)) =
        unfold trim in ground (arith, acceptable-Overlaps.1 o) in
      rw e (trim_back_lem bp whole o)
