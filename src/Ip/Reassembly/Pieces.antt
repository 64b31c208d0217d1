-- ===== src/Ip/Reassembly/Pieces.antt =====
-- The list of fragments of one datagram: sorted, with a gap between any two, each with the bytes of
-- the datagram at its place.
use ka9q_unix.Base.{
  ℕ, suc, ◌<◌, ◌≤◌, ◌≡◌, Bool, true, false, ◌&&◌, ◌||◌, ltb, leb, List, [], ◌∷◌, ◌++◌, arith,
  length, All, if_cases, refl, ◌∙◌, ap₂,
}
use ka9q_unix.Base.Slices.{slice, slice-append}
use ka9q_unix.Mbuf.{Packet, contents}
use ka9q_unix.Mbuf.Chain.{append}
use ka9q_unix.Mbuf.Chain.Front.{append-contents}
use ka9q_unix.Mbuf.Chain.Remains.{Filled}
use ka9q_unix.Ip.Reassembly.{Frag, Place, Piece, find_place, unwind}

-- The data of a datagram, and where its sender cut it (nowhere else do fragments begin or end).
pub record Datagram : Type 0 where
  pub bytes : List ℕ
  pub cut : ℕ → Bool

-- A fragment has data, and the data of the datagram `d` between two cuts.
pub record Holds (d : Datagram) (o l : ℕ) (buf : Packet) : Type 0 where
  pub some_data : o < l
  pub within : l ≤ length d.bytes
  pub bytes : contents buf ≡ slice o l d.bytes
  pub from_cut : d.cut o ≡ true
  pub to_cut : d.cut l ≡ true

abbrev pub HoldsFrag : Datagram → Frag → Type 0
HoldsFrag d f = Holds d f.offset f.last f.buf × (f.stale ≡ false)

-- From `floor` on, in order and with gaps.
abbrev pub Collected : Datagram → ℕ → List Frag → Type 0
Collected d floor [] = Unit
Collected d floor (f ∷ fs) = (floor ≤ f.offset) × HoldsFrag d f × Collected d (suc f.last) fs

-- The same for the fragments behind a walk, which all end before `ceiling`.
abbrev pub Behind : Datagram → ℕ → List Frag → Type 0
Behind d ceiling [] = Unit
Behind d ceiling (f ∷ fs) = (f.last < ceiling) × HoldsFrag d f × Behind d f.offset fs

abbrev pub in_range : ℕ → ℕ → ℕ → Bool
in_range o l x = leb o x && ltb x l

-- Whether byte `x` has arrived.
abbrev pub covers : List Frag → ℕ → Bool
covers [] x = false
covers (f ∷ fs) x = in_range f.offset f.last x || covers fs x

pub Holds-append :
    (d : Datagram) (o m l : ℕ) (p q : Packet)
    → Holds d o m p
    → Holds d m l q
    → Holds d o l (append p q)
Holds-append d o m l p q h k = record {
  some_data = omega arith;
  within = k.within;
  bytes =
      append-contents p q
      ∙ ap₂ ◌++◌ h.bytes k.bytes
      ∙ slice-append o m l d.bytes (omega arith) (omega arith);
  from_cut = h.from_cut;
  to_cut = k.to_cut;
}

-- The piece that arrives, with bytes of the datagram, and no empty mbuf.
pub record IsPiece (d : Datagram) (p : Piece) : Type 0 where
  pub holds : Holds d p.offset p.last p.bp
  pub filled : Filled p.bp

-- It reaches into no fragment behind its start.
abbrev pub Clear : Piece → List Frag → Type 0
Clear p fs = All (λ (f : Frag). p.offset < f.offset → p.last ≤ f.offset) fs

abbrev pub Begun : ℕ → List Frag → Type 0
Begun o [] = Unit
Begun o (b ∷ bs) = b.offset ≤ o

abbrev pub Beyond : ℕ → ℕ → List Frag → Type 0
Beyond o l [] = Unit
Beyond o l (a ∷ fs) = (o < a.offset) × (l ≤ a.offset)

pub covers-unwind :
    (before fs : List Frag) (x : ℕ) → covers (unwind before fs) x ≡ covers before x || covers fs x
unfolding unwind
covers-unwind [] fs x = refl
covers-unwind (f ∷ before) fs x = ground (arith, covers-unwind before (f ∷ fs) x)

module _ (d : Datagram) where
  Collected-lower :
      (low high : ℕ) (fs : List Frag) → low ≤ high → Collected d high fs → Collected d low fs
  Collected-lower low high [] h c = tt
  Collected-lower low high (f ∷ fs) h c = (omega (arith, c.0), c.1, c.2)

  -- A walk back to the front keeps the list.
  unwind-Collected :
      (ceiling : ℕ) (before fs : List Frag)
      → Behind d ceiling before
      → Collected d ceiling fs
      → Collected d 0 (unwind before fs)
  unfolding unwind
  unwind-Collected ceiling [] fs b c = Collected-lower 0 ceiling fs (omega arith) c
  unwind-Collected ceiling (f ∷ before) fs b c =
      unwind-Collected f.offset before (f ∷ fs) b.2
        (omega arith, b.1, Collected-lower (suc f.last) ceiling fs b.0 c)

  -- Where a walk stands: the fragments behind it, nearest first, and those ahead.
  abbrev pub Zip : List Frag → List Frag → Type 0
  Zip [] after = Collected d 0 after
  Zip (b ∷ bs) after = HoldsFrag d b × Behind d b.offset bs × Collected d (suc b.last) after

  pub Zip-Collected :
      (before after : List Frag) → Zip before after → Collected d 0 (unwind before after)
  Zip-Collected [] after z = unfold unwind in z
  Zip-Collected (b ∷ bs) after z =
      unwind-Collected (suc b.last) (b ∷ bs) after (omega arith, z.0, z.1) z.2

  abbrev pub Stands : Piece → List Frag → List Frag → Place → Type 0
  Stands p before fs at =
      Zip at.before at.after
      × Begun p.offset at.before
      × Beyond p.offset p.last at.after
      × ((x : ℕ) → (covers at.before x || covers at.after x) ≡ (covers before x || covers fs x))

  pub find_place-Stands :
      (p : Piece) (before fs : List Frag)
      → Zip before fs
      → Begun p.offset before
      → Clear p fs
      → Stands p before fs (find_place p.offset before fs)
  unfolding find_place
  find_place-Stands p before [] z b c = (z, b, tt, λ x. refl)
  find_place-Stands p before (f ∷ fs) z b c =
      if_cases (Stands p before (f ∷ fs)) (ltb p.offset f.offset)
        (λ e. (z, b, (ground arith, c.0 (ground arith)), λ x. refl))
        (λ e.
          let r = find_place-Stands p (f ∷ before) fs (step before z) (ground arith) c.1 in
          (r.0, r.1, r.2, λ x. ground (arith, r.3 x)))
    where
      step : (before : List Frag) → Zip before (f ∷ fs) → Zip (f ∷ before) fs
      step [] z = (z.1, tt, z.2)
      step (b ∷ bs) z = (z.2.1, (omega arith, z.0, z.1), z.2.2)
