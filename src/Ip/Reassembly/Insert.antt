-- ===== src/Ip/Reassembly/Insert.antt =====
-- What a fragment makes of the list if it reaches into no fragment behind its start: the list stays
-- collected, and covers what it covered and the fragment.
use ka9q_unix.Base.{
  ℕ, suc, ◌≤◌, ◌≡◌, Bool, true, false, ◌||◌, List, [], ◌∷◌, arith, refl, ◌∙◌, some,
}
use native.Mathlib.Decide.{ℕ_discrete}
use ka9q_unix.Mbuf.Chain.{append}
use ka9q_unix.Ip.Reassembly.{Frag, Piece, Joined, set_stale, unwind, join}
use ka9q_unix.Ip.Reassembly.Pieces.{
  Datagram, Holds, Collected, Zip, Zip-Collected, in_range, covers, covers-unwind, Beyond,
  Holds-append,
}

-- The piece starts where or after the fragment before it ends.
abbrev pub After : ℕ → List Frag → Type 0
After o [] = Unit
After o (b ∷ bs) = b.last ≤ o

module _ (d : Datagram) where
  set_stale-Collected :
      (floor : ℕ) (fs : List Frag) → Collected d floor fs → Collected d floor (set_stale false fs)
  set_stale-Collected floor [] c = tt
  set_stale-Collected floor (f ∷ fs) c = (c.0, (c.1.0, refl), c.2)

  covers-set_stale : (fs : List Frag) (x : ℕ) → covers (set_stale false fs) x ≡ covers fs x
  covers-set_stale [] x = refl
  covers-set_stale (f ∷ fs) x = refl

  -- The list `js` is well formed and covers the fragments of the walk and the piece.
  abbrev pub Joins : Piece → List Frag → List Frag → List Frag → Type 0
  Joins p before after js =
      Collected d 0 js
      × ((x : ℕ) → covers js x ≡ (covers before x || covers after x) || in_range p.offset p.last x)

  module _ (p : Piece) (h : Holds d p.offset p.last p.bp) where
    abbrev new : Frag
    new = record { offset = p.offset; last = p.last; buf = p.bp; stale = false }

    abbrev prepended : Frag → Frag
    prepended a = record a { buf = append p.bp a.buf; offset = p.offset }

    abbrev appended : Frag → Frag
    appended b = record b { buf = append b.buf p.bp; last = p.last }

    abbrev merged : Frag → Frag → Frag
    merged b a = record b { buf = append (append b.buf p.bp) a.buf; last = a.last }

    preceded :
        (a : Frag)
        → Holds d a.offset a.last a.buf
        → a.offset ≡ p.last
        → Holds d p.offset a.last (append p.bp a.buf)
    preceded a k e = Holds-append d p.offset p.last a.last p.bp a.buf h (rw (← e) k)

    extended :
        (b : Frag)
        → Holds d b.offset b.last b.buf
        → b.last ≡ p.offset
        → Holds d b.offset p.last (append b.buf p.bp)
    extended b k e = Holds-append d b.offset b.last p.last b.buf p.bp k (rw e h)

    merged-Holds :
        (b a : Frag)
        → Holds d b.offset p.last (append b.buf p.bp)
        → Holds d a.offset a.last a.buf
        → a.offset ≡ p.last
        → Holds d b.offset a.last (append (append b.buf p.bp) a.buf)
    merged-Holds b a k l e =
        Holds-append d b.offset p.last a.last (append b.buf p.bp) a.buf k (rw (← e) l)

    abbrev pub Joining : List Frag → List Frag → Type 0
    Joining before after =
        (j : Joined) × (join true p before (record { past = []; next = after }) ≡ some j)
        × Joins p before after j.frags

    -- It is enough to say where the walk is left, at `before'` and `js`.
    joining :
        (before after before' js : List Frag) (pre : Bool)
        → join true p before (record { past = []; next = after })
          ≡ some (record { frags = unwind before' js; prepended = pre })
        → Zip d before' js
        → ((x : ℕ)
            → (covers before' x || covers js x)
              ≡ (covers before x || covers after x) || in_range p.offset p.last x)
        → Joining before after
    joining before after before' js pre e z c = (
      record { frags = unwind before' js; prepended = pre },
      e,
      (Zip-Collected d before' js z, λ x. covers-unwind before' js x ∙ c x),
    )

    -- The piece in a place of its own.
    inserted :
        (before after : List Frag)
        → join true p before (record { past = []; next = after })
          ≡ some (record { frags = unwind before (new ∷ set_stale false after); prepended = false })
        → Zip d before (new ∷ set_stale false after)
        → Joining before after
    inserted before after e z =
        joining before after before (new ∷ set_stale false after) false e z
          (λ x. ground (arith, covers-set_stale after x))

    pub join-Joins :
        (before after : List Frag)
        → Zip d before after
        → After p.offset before
        → Beyond p.offset p.last after
        → Joining before after
    unfolding join
    join-Joins [] [] z a b = inserted [] [] refl (omega arith, (h, refl), tt)
    join-Joins [] (a ∷ fs) z b y = elim (ℕ_discrete a.offset p.last) [
      | yes e ↦
          joining [] (a ∷ fs) [] (prepended a ∷ fs) true (ground arith)
            (omega arith, (preceded a z.1.0 e, z.1.1), z.2) (λ x. ground (arith, z.1.0.some_data))
      | no n ↦
          inserted [] (a ∷ fs) (ground arith)
            (omega arith, (h, refl), (omega arith, (z.1.0, refl), z.2))
    ]
    join-Joins (b ∷ bs) [] z a y = elim (ℕ_discrete b.last p.offset) [
      | yes e ↦
          joining (b ∷ bs) [] (appended b ∷ bs) [] false (ground arith)
            ((extended b z.0.0 e, z.0.1), z.1, tt)
            (λ x. ground (arith, z.0.0.some_data, h.some_data))
      | no n ↦ inserted (b ∷ bs) [] (ground arith) (z.0, z.1, (omega arith, (h, refl), tt))
    ]
    join-Joins (b ∷ bs) (a ∷ fs) z ab y = elim (ℕ_discrete b.last p.offset) [
      | yes e ↦ elim (ℕ_discrete a.offset p.last) [
        | yes e' ↦
            joining (b ∷ bs) (a ∷ fs) (merged b a ∷ bs) (set_stale false fs) false (ground arith)
              (
                (merged-Holds b a (extended b z.0.0 e) z.2.1.0 e', z.0.1),
                z.1,
                set_stale-Collected (suc a.last) fs z.2.2,
              )
              (λ x.
                ground
                  (arith, covers-set_stale fs x, z.0.0.some_data, z.2.1.0.some_data, h.some_data))
        | no n' ↦
            joining (b ∷ bs) (a ∷ fs) (appended b ∷ bs) (a ∷ fs) false (ground arith)
              ((extended b z.0.0 e, z.0.1), z.1, (omega arith, z.2.1, z.2.2))
              (λ x. ground (arith, z.0.0.some_data, h.some_data))
      ]
      | no n ↦ elim (ℕ_discrete a.offset p.last) [
        | yes e' ↦
            joining (b ∷ bs) (a ∷ fs) (b ∷ bs) (prepended a ∷ fs) true (ground arith)
              (z.0, z.1, (omega arith, (preceded a z.2.1.0 e', z.2.1.1), z.2.2))
              (λ x. ground (arith, z.2.1.0.some_data, h.some_data))
        | no n' ↦
            inserted (b ∷ bs) (a ∷ fs) (ground arith)
              (z.0, z.1, (omega arith, (h, refl), (omega arith, (z.2.1.0, refl), z.2.2)))
      ]
    ]
