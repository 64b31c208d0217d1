-- ===== src/Ip/Reassembly/Add.antt =====
-- What add_frag does with a fragment that reaches into no fragment behind its start.
use ka9q_unix.Base.{
  ℕ, ◌+◌, ◌-◌, ◌<◌, ◌≤◌, ◌≡◌, Bool, true, ◌||◌, ltb, List, [], ◌∷◌, arith, length, if_cases, refl,
  ◌∙◌, some, Option, none, ap, drop, subst,
}
use mathlib.Core.Path.{fun_ext}
use ka9q_unix.Base.Slices.{drop-slice, length-slice}
use ka9q_unix.Mbuf.{Packet, is_null, contents}
use ka9q_unix.Mbuf.Chain.{pullup}
use ka9q_unix.Mbuf.Chain.Contents.{pullup-contents}
use ka9q_unix.Mbuf.Chain.Remains.{pullup-null, pullup-not_null}
use ka9q_unix.Ip.Reassembly.{
  Frag, Place, Piece, Added, fault, nothing_left, added, find_place, trim_frags, strip,
  add_stripped, add_frag, head_stale,
}
use ka9q_unix.Ip.Reassembly.Pieces.{
  Datagram, Holds, Collected, Zip, in_range, covers, IsPiece, Clear, Begun, Beyond,
  find_place-Stands,
}
use ka9q_unix.Ip.Reassembly.Insert.{After, join-Joins}

trim_frags-Beyond :
    (o l : ℕ) (after : List Frag)
    → Beyond o l after
    → trim_frags l (head_stale after) after ≡ some (record { past = []; next = after })
unfolding trim_frags
trim_frags-Beyond o l [] b = refl
trim_frags-Beyond o l (f ∷ fs) b = ground arith

later-Beyond :
    (o o' l l' : ℕ) (after : List Frag) → o' < l' → l' ≡ l → Beyond o l after → Beyond o' l' after
later-Beyond o o' l l' [] h e b = tt
later-Beyond o o' l l' (f ∷ fs) h e b = (omega arith, omega arith)

module _ (d : Datagram) where
  -- The piece is added to what is covered, `c`.
  abbrev pub Adds : Piece → (ℕ → Bool) → Added → Type 0
  Adds p c fault = ⊥
  Adds p c nothing_left = (x : ℕ) → c x ≡ c x || in_range p.offset p.last x
  Adds p c (added j) =
      Collected d 0 j.frags × ((x : ℕ) → covers j.frags x ≡ c x || in_range p.offset p.last x)

  add_stripped-Adds :
      (p : Piece) (at : Place)
      → Holds d p.offset p.last p.bp
      → Zip d at.before at.after
      → After p.offset at.before
      → Beyond p.offset p.last at.after
      → Adds p (λ x. covers at.before x || covers at.after x) (add_stripped true at p)
  add_stripped-Adds p at h z a b =
      let r = join-Joins d p h at.before at.after z a b in
      let t = trim_frags-Beyond p.offset p.last at.after b in
      let e : add_stripped true at p ≡ added r.0 = unfold add_stripped in ground (arith, t, r.1) in
      rw e r.2

  -- What is left of the piece behind the fragment before it: nothing, if that covers it, or a piece.
  abbrev Strips : Piece → List Frag → Option Piece → Type 0
  Strips p before none = (x : ℕ) → covers before x ≡ covers before x || in_range p.offset p.last x
  Strips p before (some p') =
      Holds d p'.offset p'.last p'.bp
      × After p'.offset before
      × (p.offset ≤ p'.offset)
      × (p'.last ≡ p.last)
      × ((x : ℕ)
          → (covers before x || in_range p'.offset p'.last x)
            ≡ covers before x || in_range p.offset p.last x)

  -- A piece without its first `i` bytes.
  left :
      {p : Piece}
      → IsPiece d p
      → (i : ℕ) (rest : Packet) → contents rest ≡ drop i (contents p.bp)
      → p.offset + i < p.last
      → d.cut (p.offset + i) ≡ true
      → Holds d (p.offset + i) p.last rest
  left {p} h i rest e lt c = record {
    some_data = lt;
    within = h.holds.within;
    bytes = e ∙ ap (drop i) h.holds.bytes ∙ drop-slice i p.offset p.last d.bytes;
    from_cut = c;
    to_cut = h.holds.to_cut;
  }

  -- The fragment before the piece ends at a cut.
  abbrev Ends : List Frag → Type 0
  Ends [] = Unit
  Ends (b ∷ bs) = d.cut b.last ≡ true

  Zip-Ends : (before after : List Frag) → Zip d before after → Ends before
  Zip-Ends [] after z = tt
  Zip-Ends (b ∷ bs) after z = z.0.0.to_cut

  strip-Strips :
      (p : Piece) (before : List Frag)
      → IsPiece d p
      → Begun p.offset before
      → Ends before
      → Strips p before (strip before p)
  unfolding strip
  strip-Strips p [] h b en = (h.holds, tt, omega arith, refl, λ x. refl)
  strip-Strips p (b ∷ bs) h g en =
      let i = b.last - p.offset in
      let q = pullup-contents i p.bp in
      let l : length (contents p.bp) ≡ p.last - p.offset =
        ap length h.holds.bytes ∙ length-slice p.offset p.last d.bytes h.holds.within in
      if_cases (Strips p (b ∷ bs)) (ltb p.offset b.last)
        (λ e.
          if_cases (Strips p (b ∷ bs)) (is_null (pullup i p.bp).rest)
            (λ n x. let m = pullup-null i p.bp n in ground arith)
            (λ n.
              let m = pullup-not_null i p.bp h.filled n in
              let lt : b.last < p.last = ground arith in
              let u : b.last ≡ p.offset + i = ground arith in
              (
                left h i (pullup i p.bp).rest q.1 (omega arith) (rw (← u) en),
                omega arith,
                omega arith,
                refl,
                λ x. ground arith,
              )))
        (λ e. (h.holds, ground arith, omega arith, refl, λ x. refl))

  same-Adds :
      (p q : Piece) (c : ℕ → Bool) (r : Added)
      → Adds p c r
      → ((x : ℕ) → c x || in_range p.offset p.last x ≡ c x || in_range q.offset q.last x)
      → Adds q c r
  same-Adds p q c fault a e = a
  same-Adds p q c nothing_left a e = λ x. a x ∙ e x
  same-Adds p q c (added j) a e = (a.0, λ x. a.1 x ∙ e x)

  -- If the walk stands at its place, the piece is added.
  add_at :
      (p : Piece) (at : Place)
      → IsPiece d p
      → Zip d at.before at.after
      → Begun p.offset at.before
      → Beyond p.offset p.last at.after
      → (o : Option Piece) → Strips p at.before o
      → Adds p
          (λ x. covers at.before x || covers at.after x)
          (elim o [ none ↦ nothing_left | some p' ↦ add_stripped true at p' ])
  add_at p at h z g b none s = λ x. ground (arith, s x)
  add_at p at h z g b (some p') s =
      let r =
        add_stripped-Adds p' at s.0 z s.1
          (later-Beyond p.offset p'.offset p.last p'.last at.after s.0.some_data s.3 b) in
      same-Adds p' p (λ x. covers at.before x || covers at.after x) (add_stripped true at p') r
        (λ x. ground (arith, s.4 x))

  pub add_frag-Adds :
      (p : Piece) (frags : List Frag)
      → IsPiece d p
      → Collected d 0 frags
      → Clear p frags
      → Adds p (covers frags) (add_frag true p frags)
  unfolding add_frag
  add_frag-Adds p frags h c cl =
      let at = find_place p.offset [] frags in
      let s = find_place-Stands d p [] frags c tt cl in
      let r =
        add_at p at h s.0 s.1 s.2 (strip at.before p)
          (strip-Strips p at.before h s.1 (Zip-Ends at.before at.after s.0)) in
      subst (λ c. Adds p c (add_frag true p frags)) (fun_ext s.3) r
