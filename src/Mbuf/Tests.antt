-- ===== src/Mbuf/Tests.antt =====
-- The theorems on packets at concrete ones.
use ka9q_unix.Base.{◌≡◌, refl, [], ◌∷◌, true, false, arith, some}
use ka9q_unix.Mbuf.{Mbuf, Packet, contents}
use ka9q_unix.Mbuf.Chain.{pullup, pushdown, dup_p}
use ka9q_unix.Mbuf.Chain.Duplicates.{Duplicates, dup_p-Duplicates}
use ka9q_unix.Mbuf.Chain.Front.{pullup-pushdown}
use ka9q_unix.Mbuf.Fields.{mbuf_crunch, mbuf_crunch-contents}
use ka9q_unix.Mbuf.Queue.{drain, len_q, enqueue_all, drain-enqueue_all}

abbrev front : Mbuf
front = record { size = 32; refcnt = 1; is_dup = false; room = 4; bytes = 1 ∷ 2 ∷ 3 ∷ [] }

abbrev back : Mbuf
back = record { size = 32; refcnt = 2; is_dup = false; room = 9; bytes = 4 ∷ 5 ∷ [] }

abbrev two : Packet
two = front ∷ back ∷ []

dup_p-Duplicates_example : Duplicates 2 2 two (dup_p (true ∷ true ∷ []) two 2 2)
dup_p-Duplicates_example = dup_p-Duplicates (true ∷ true ∷ []) two 2 2 (refl, (refl, tt))

pullup-pushdown_example :
    let r = pullup 2 (pushdown (0 ∷ 0 ∷ []) (some (8 ∷ 9 ∷ [])) 2 two) in
    (r.buf ≡ 8 ∷ 9 ∷ []) × (r.tot ≡ 2) × (contents r.rest ≡ contents two)
pullup-pushdown_example = pullup-pushdown (0 ∷ 0 ∷ []) (8 ∷ 9 ∷ []) two

mbuf_crunch-contents_example :
    (q : Packet) × (mbuf_crunch true two ≡ some q) × (contents q ≡ contents two)
mbuf_crunch-contents_example = mbuf_crunch-contents true front (back ∷ []) (omega arith)

drain-enqueue_all_example :
    drain
      (len_q (enqueue_all [] ((front, []) ∷ (back, []) ∷ [])))
      (enqueue_all [] ((front, []) ∷ (back, []) ∷ []))
    ≡ (front ∷ []) ∷ (back ∷ []) ∷ []
drain-enqueue_all_example = drain-enqueue_all ((front, []) ∷ (back, []) ∷ [])
