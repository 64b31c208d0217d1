-- ===== src/Mbuf/Chain/Front.antt =====
-- mbuf.c: `pushdown` and `append`, the inverse of `pullup`, and when `pushdown` writes in place.
use ka9q_unix.Base.{
  ℕ, suc, ◌<◌, ◌≡◌, refl, sym, ap, ◌∙◌, ◌⊎◌, List, [], ◌∷◌, ◌++◌, length, take, drop, append_assoc,
  true, some, arith, take-append_le, take_all, length-append, drop-append_past, All,
}
use ka9q_unix.Mbuf.{Mbuf, Packet, ambufw, contents}
use ka9q_unix.Mbuf.Chain.{push_front, pushdown, pullup, append, incref, incref_p}
use ka9q_unix.Mbuf.Chain.Contents.{pullup-contents}

push_front-contents :
    (new : List ℕ) (size : ℕ) (p : Packet) → contents (push_front new size p) ≡ new ++ contents p
unfolding push_front ambufw
push_front-contents new size [] = refl
push_front-contents new size (b ∷ p) = ground (arith, append_assoc new b.bytes (contents p))

-- Whether or not there is room in the first mbuf, `pushdown` puts the given bytes in front.
pub pushdown-contents :
    (stale new : List ℕ) (p : Packet)
    → contents (pushdown stale (some new) (length new) p) ≡ new ++ contents p
unfolding pushdown
pushdown-contents stale [] p = refl
pushdown-contents stale (x ∷ new) p =
    ground (arith, push_front-contents (x ∷ new) (suc (length new)) p)

-- `pullup` is the inverse of `pushdown`: it returns the bytes pushed, their number, and a packet
-- with the contents from before.
pub pullup-pushdown :
    (stale new : List ℕ) (p : Packet)
    → let r = pullup (length new) (pushdown stale (some new) (length new) p) in
      (r.buf ≡ new) × (r.tot ≡ length new) × (contents r.rest ≡ contents p)
pullup-pushdown stale new p =
    let pushed = pushdown stale (some new) (length new) p in
    let r = pullup-contents (length new) pushed in
    let c = pushdown-contents stale new p in
    let l = length-append new (contents p) in
    (
      r.0
          ∙ ap (take (length new)) c
          ∙ take-append_le (length new) new (contents p) (omega arith)
          ∙ take_all (length new) new (omega arith),
      omega (arith, r.2, ap length c, l),
      r.1
          ∙ ap (drop (length new)) c
          ∙ drop-append_past (length new) 0 new (contents p) (omega arith),
    )

-- `append` joins the contents.
pub append-contents : (p q : Packet) → contents (append p q) ≡ contents p ++ contents q
unfolding append
append-contents [] q = refl
append-contents (b ∷ p) q =
    ap (◌++◌ b.bytes) (append-contents p q) ∙ sym (append_assoc b.bytes (contents p) (contents q))

-- Whose data is shared: a duplicate, or the original of one.
abbrev pub Shared : Mbuf → Type 0
Shared b = (b.is_dup ≡ true) ⊎ (1 < b.refcnt)

-- `pushdown` never writes into a shared mbuf: a shared first mbuf stays as it was, behind a new one.
pub pushdown-Shared :
    (stale new : List ℕ) (n : ℕ) (b : Mbuf) (p : Packet)
    → 0 < n
    → Shared b
    → pushdown stale (some new) n (b ∷ p) ≡ record (ambufw n) { bytes = new } ∷ b ∷ p
unfolding pushdown push_front
pushdown-Shared stale new n b p h s = ground arith

incref-Shared : (b : Mbuf) → 0 < b.refcnt → Shared (incref b)
unfolding incref
incref-Shared b h = ground arith

-- After `incref_p` every mbuf of a packet is shared, if each was referred to before.
pub incref_p-Shared : (p : Packet) → All (λ b. 0 < b.refcnt) p → All Shared (incref_p p)
unfolding incref_p
incref_p-Shared [] h = tt
incref_p-Shared (b ∷ p) h = (incref-Shared b h.0, incref_p-Shared p h.1)
