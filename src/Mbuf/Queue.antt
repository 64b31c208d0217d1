-- ===== src/Mbuf/Queue.antt =====
-- mbuf.c: queues of packets, chained through `anext` of each packet's first mbuf. The wakeup of a
-- process that waits for the queue (`ksignal`) is not part of the model.
use ka9q_unix.Base.{
  ℕ, zero, suc, ◌+◌, ◌≡◌, refl, ap, ◌∙◌, sym, arith, List, [], ◌∷◌, ◌++◌, length, append-nil,
  append_assoc,
}
use ka9q_unix.Base.{Option, none, some}
use ka9q_unix.Mbuf.{Mbuf, Packet}

abbrev pub Queue : Type 0
Queue = List Packet

-- A null packet is not queued.
pub enqueue : Queue → Packet → Queue
enqueue q [] = q
enqueue q (b ∷ p) = q ++ (b ∷ p) ∷ []

pub dequeue : Queue → Option (Packet × Queue)
dequeue [] = none
dequeue (p ∷ q) = some (p, q)

len_q_loop : ℕ → Queue → ℕ
len_q_loop cnt [] = cnt
len_q_loop cnt (p ∷ q) = len_q_loop (cnt + 1) q

pub len_q : Queue → ℕ
unfolding len_q_loop
len_q q = len_q_loop 0 q

-- Everything that a queue gives, first packet first.
pub drain : ℕ → Queue → List Packet
unfolding dequeue
drain zero q = []
drain (suc n) q = elim (dequeue q) [ none ↦ [] | some (p, rest) ↦ p ∷ drain n rest ]

abbrev pub enqueue_all : Queue → List (Mbuf × Packet) → Queue
enqueue_all q [] = q
enqueue_all q ((b, p) ∷ ps) = enqueue_all (enqueue q (b ∷ p)) ps

abbrev pub packets : List (Mbuf × Packet) → List Packet
packets [] = []
packets ((b, p) ∷ ps) = (b ∷ p) ∷ packets ps

enqueue_all-append : (q : Queue) (ps : List (Mbuf × Packet)) → enqueue_all q ps ≡ q ++ packets ps
unfolding enqueue
enqueue_all-append q [] = sym (append-nil q)
enqueue_all-append q ((b, p) ∷ ps) =
    enqueue_all-append (q ++ (b ∷ p) ∷ []) ps ∙ append_assoc q ((b ∷ p) ∷ []) (packets ps)

drain_all : (n : ℕ) (q : Queue) → n ≡ length q → drain n q ≡ q
unfolding drain
drain_all zero [] h = refl
drain_all zero (p ∷ q) h = absurd (omega arith)
drain_all (suc n) [] h = refl
drain_all (suc n) (p ∷ q) h = ap (◌∷◌ p) (drain_all n q (omega arith))

len_q_loop-length : (cnt : ℕ) (q : Queue) → len_q_loop cnt q ≡ cnt + length q
unfolding len_q_loop
len_q_loop-length cnt [] = omega arith
len_q_loop-length cnt (p ∷ q) = omega (arith, len_q_loop-length (cnt + 1) q)

pub len_q-length : (q : Queue) → len_q q ≡ length q
unfolding len_q
len_q-length q = omega (arith, len_q_loop-length 0 q)

-- A queue is first in, first out: after any packets are put on an empty queue, as many calls of
-- `dequeue` as `len_q` counts give them back in the order in which they came.
pub drain-enqueue_all :
    (ps : List (Mbuf × Packet)) → drain (len_q (enqueue_all [] ps)) (enqueue_all [] ps) ≡ packets ps
drain-enqueue_all ps =
    drain_all (len_q (enqueue_all [] ps)) (enqueue_all [] ps) (len_q-length (enqueue_all [] ps))
    ∙ enqueue_all-append [] ps
