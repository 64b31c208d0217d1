-- ===== src/Tcp/Resequence/Order.antt =====
-- The queue of out-of-order segments is a list sorted along the circle of sequence numbers.
use ka9q_unix.Base.{ℕ, ◌^◌, ◌<◌, ◌≤◌, ◌≡◌, true, false, List, [], ◌∷◌, if_cases, arith, All}
use mathlib.Core.List.{Perm}
use mathlib.Core.List.Perm
use ka9q_unix.Base.Word.{IsU32}
use ka9q_unix.Mbuf.{Packet}
use ka9q_unix.Tcp.{Tcp, Tcb, Reseq}
use ka9q_unix.Tcp.Seq.{seq_lt, ahead}
use ka9q_unix.Tcp.Resequence.{add_after, place, add_reseq}

-- All entries lie within half of the circle ahead of `base`.
abbrev pub Near : ℕ → Reseq → Type 0
Near base r = IsU32 r.seg.seq × (ahead base r.seg.seq < 2 ^ 31)

-- The entries stand in the order in which they lie ahead of `base`, none before `floor`.
abbrev pub SortedAbove : ℕ → ℕ → List Reseq → Type 0
SortedAbove base floor [] = Unit
SortedAbove base floor (r ∷ rs) =
    (floor ≤ ahead base r.seg.seq) × SortedAbove base (ahead base r.seg.seq) rs

abbrev pub IsSorted : ℕ → List Reseq → Type 0
IsSorted base q = SortedAbove base 0 q

seq_lt-Near :
    (base : ℕ) (r s : Reseq)
    → IsU32 base
    → Near base r
    → Near base s
    → (seq_lt r.seg.seq s.seg.seq ≡ true → ahead base r.seg.seq < ahead base s.seg.seq)
      × (seq_lt r.seg.seq s.seg.seq ≡ false → ahead base s.seg.seq ≤ ahead base r.seg.seq)
unfolding seq_lt
seq_lt-Near base r s b h k = (λ e. ground arith, λ e. ground arith)

module _ (base : ℕ) (b : IsU32 base) (rp : Reseq) (near : Near base rp) where
  add_after-SortedAbove :
      (floor : ℕ) (rp1 : Reseq) (rs : List Reseq)
      → Near base rp1
      → All (Near base) rs
      → ahead base rp1.seg.seq ≤ ahead base rp.seg.seq
      → SortedAbove base floor (rp1 ∷ rs)
      → SortedAbove base floor (add_after rp rp1 rs)
  unfolding add_after
  add_after-SortedAbove floor rp1 [] n1 ns le s = (s.0, (le, tt))
  add_after-SortedAbove floor rp1 (r ∷ rs) n1 ns le s =
      let o = seq_lt-Near base rp r b near ns.0 in
      if_cases (SortedAbove base floor) (seq_lt rp.seg.seq r.seg.seq)
        (λ e. (s.0, (le, (omega (arith, o.0 e), s.1.1))))
        (λ e. (s.0, add_after-SortedAbove (ahead base rp1.seg.seq) r rs ns.0 ns.1 (o.1 e) s.1))

  place-IsSorted :
      (q : List Reseq) → All (Near base) q → IsSorted base q → IsSorted base (place rp q)
  unfolding place
  place-IsSorted [] ns s = (omega arith, tt)
  place-IsSorted (r ∷ rs) ns s =
      let o = seq_lt-Near base rp r b near ns.0 in
      if_cases (IsSorted base) (seq_lt rp.seg.seq r.seg.seq)
        (λ e. (omega arith, (omega (arith, o.0 e), s.1)))
        (λ e. add_after-SortedAbove 0 r rs ns.0 ns.1 (o.1 e) s)

add_after-perm : (rp rp1 : Reseq) (rs : List Reseq) → Perm (add_after rp rp1 rs) (rp ∷ rp1 ∷ rs)
unfolding add_after
add_after-perm rp rp1 [] = Perm.swap rp rp1 []
add_after-perm rp rp1 (r ∷ rs) =
    if_cases (λ q. Perm q (rp ∷ rp1 ∷ r ∷ rs)) (seq_lt rp.seg.seq r.seg.seq)
      (λ e. Perm.swap rp rp1 (r ∷ rs))
      (λ e. Perm.trans (Perm.cons rp1 (add_after-perm rp r rs)) (Perm.swap rp rp1 (r ∷ rs)))

place-perm : (rp : Reseq) (q : List Reseq) → Perm (place rp q) (rp ∷ q)
unfolding place
place-perm rp [] = Perm.refl (rp ∷ [])
place-perm rp (r ∷ rs) =
    if_cases (λ q. Perm q (rp ∷ r ∷ rs)) (seq_lt rp.seg.seq r.seg.seq)
      (λ e. Perm.refl (rp ∷ r ∷ rs)) (λ e. add_after-perm rp r rs)

-- With memory, a segment that is put on a sorted queue is added at its place: if all lie within
-- half of the circle ahead of one number, the queue stays sorted, and it gains this segment and
-- keeps all others.
pub add_reseq-IsSorted :
    (base : ℕ) (tcb : Tcb) (tos : ℕ) (seg : Tcp) (bp : Packet) (len : ℕ)
    → IsU32 base
    → Near base (record { seg = seg; bp = bp; len = len; tos = tos })
    → All (Near base) tcb.reseq
    → IsSorted base tcb.reseq
    → let q = (add_reseq true tcb tos seg bp len).reseq in
      IsSorted base q × Perm q (record { seg = seg; bp = bp; len = len; tos = tos } ∷ tcb.reseq)
unfolding add_reseq
add_reseq-IsSorted base tcb tos seg bp len b n ns s =
    let rp : Reseq = record { seg = seg; bp = bp; len = len; tos = tos } in
    (place-IsSorted base b rp n tcb.reseq ns s, place-perm rp tcb.reseq)
