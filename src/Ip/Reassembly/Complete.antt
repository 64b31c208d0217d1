-- ===== src/Ip/Reassembly/Complete.antt =====
-- From the list of fragments to the datagram: a datagram is passed on just when all of it is there.
use ka9q_unix.Base.{
  ℕ, suc, ◌+◌, ◌-◌, ◌^◌, ◌<◌, ◌≤◌, ◌≡◌, ◌≢◌, ◌⊎◌, ◌↔◌, Bool, true, false, ◌||◌, List, [], ◌∷◌,
  if◌then◌else◌, arith, length, Bool-cases, inl, inr, refl, sym, ◌∙◌, some, Option, none, ap, ap₂,
}
use ka9q_unix.Base.Word.{u32}
use ka9q_unix.Base.Slices.{slice, slice_all}
use ka9q_unix.Mbuf.{Packet, contents}
use ka9q_unix.Ip.{Ip}
use ka9q_unix.Ip.Reassembly.{
  Frag, Reasm, Piece, Joined, Added, fault, nothing_left, added, add_frag, whole, Handled,
  incomplete, complete, finish, add_to_reasm, last_of, header_len,
}
use ka9q_unix.Ip.Reassembly.Pieces.{Datagram, Collected, in_range, covers, IsPiece, Clear}
use ka9q_unix.Ip.Reassembly.Add.{Adds, add_frag-Adds}

abbrev pub piece : Ip → Packet → Piece
piece ip bp = record { offset = ip.offset; last = last_of ip; bp = bp }

-- One of several fragments that the datagram `d` was cut into.
pub record IsFragment (d : Datagram) (ip : Ip) (bp : Packet) : Type 0 where
  pub is_piece : IsPiece d (piece ip bp)
  pub uncut : (x : ℕ) → d.cut x ≡ true → ip.offset < x → last_of ip ≤ x
  pub mark : (ip.flags.mf ≡ true) ↔ (last_of ip < length d.bytes)
  pub proper : ip.offset ≡ 0 → ip.flags.mf ≡ true
  pub header : length d.bytes + header_len ip < 2 ^ 32

abbrev pub IsFull : Datagram → (ℕ → Bool) → Type 0
IsFull d c = (x : ℕ) → x < length d.bytes → c x ≡ true

-- A descriptor of the datagram: the length is known once the last byte is there, and not all is.
pub record Collecting (d : Datagram) (rp : Reasm) : Type 0 where
  pub frags : Collected d 0 rp.fraglist
  pub known :
      ((rp.length ≡ 0) × (covers rp.fraglist (length d.bytes - 1) ≡ false))
      ⊎ ((rp.length ≡ length d.bytes) × (covers rp.fraglist (length d.bytes - 1) ≡ true))
  pub pending : ¬ IsFull d (covers rp.fraglist)

module _ (d : Datagram) where
  uncut-Clear :
      {ip : Ip} {bp : Packet}
      → IsFragment d ip bp
      → (floor : ℕ) (fs : List Frag) → Collected d floor fs
      → Clear (piece ip bp) fs
  uncut-Clear h floor [] c = tt
  uncut-Clear h floor (f ∷ fs) c =
      (λ lt. h.uncut f.offset c.1.0.from_cut lt, uncut-Clear h (suc f.last) fs c.2)

  covers-below :
      (floor : ℕ) (fs : List Frag) (x : ℕ) → Collected d floor fs → x < floor → covers fs x ≡ false
  covers-below floor [] x c h = refl
  covers-below floor (f ∷ fs) x c h =
      ground (arith, c.1.0.some_data, covers-below (suc f.last) fs x c.2)

  -- A list that covers the last byte and is one fragment from the start is the whole datagram.
  whole-contents :
      (fs : List Frag) (bp : Packet)
      → Collected d 0 fs
      → covers fs (length d.bytes - 1) ≡ true
      → whole fs ≡ some bp
      → (contents bp ≡ d.bytes) × IsFull d (covers fs)
  unfolding whole
  whole-contents [] bp c e w = cc
  whole-contents (f ∷ []) bp c e w =
      let o : f.offset ≡ 0 = ground arith in
      let l : f.last ≡ length d.bytes = ground (arith, c.1.0.within, c.1.0.some_data) in
      let b : f.buf ≡ bp = ground arith in
      (
        ap contents (sym b)
            ∙ c.1.0.bytes
            ∙ ap₂ (λ (o l : ℕ). slice o l d.bytes) o l
            ∙ slice_all d.bytes,
        λ x h. ground arith,
      )
  whole-contents (f ∷ g ∷ fs) bp c e w = ground arith

  -- A list that covers everything is one fragment from the start.
  whole-IsFull :
      (fs : List Frag)
      → 0 < length d.bytes
      → Collected d 0 fs
      → IsFull d (covers fs)
      → whole fs ≢ none
  unfolding whole
  whole-IsFull [] h c full w = cc (full 0 h)
  whole-IsFull (f ∷ []) h c full w = ground (arith, full 0 h)
  whole-IsFull (f ∷ g ∷ fs) h c full w =
      let b =
        covers-below g.offset (g ∷ fs) f.last (omega arith, c.2.1, c.2.2) (omega (arith, c.2.0)) in
      ground (arith, full f.last (omega (arith, c.2.0, c.2.1.0.some_data, c.2.1.0.within)), b)

  -- What the fragment `ip`, `bp` makes of a descriptor that covers `c`: one that covers the fragment
  -- too, or the datagram, just when nothing is missing.
  abbrev pub Reassembles :
      Ip → (ℕ → Bool) → Reasm → List Reasm → Option (Handled × List Reasm) → Type 0
  Reassembles ip c rp q none = IsFull d (λ x. c x || in_range ip.offset (last_of ip) x)
  Reassembles ip c rp q (some (incomplete, q')) =
      (rp' : Reasm) × (q' ≡ rp' ∷ q)
      × Collecting d rp'
      × ((x : ℕ) → covers rp'.fraglist x ≡ c x || in_range ip.offset (last_of ip) x)
  Reassembles ip c rp q (some (complete ip' bp', q')) =
      (q' ≡ q)
      × (contents bp' ≡ d.bytes)
      × (ip'.length ≡ length d.bytes + header_len ip)
      × (ip'.offset ≡ 0)
      × (ip'.flags.mf ≡ false)
      × IsFull d (λ x. c x || in_range ip.offset (last_of ip) x)

  module _ (ip : Ip) (bp : Packet) (rp : Reasm) (q : List Reasm) (h : IsFragment d ip bp)
      (k : Collecting d rp) where
    abbrev timed : Reasm
    timed = if ip.flags.mf then rp else record rp { length = last_of ip }

    now : ℕ → Bool
    now x = covers rp.fraglist x || in_range ip.offset (last_of ip) x

    -- The length is known once the last byte is there.
    length_known :
        ((timed.length ≡ 0) × (now (length d.bytes - 1) ≡ false))
        ⊎ ((timed.length ≡ length d.bytes) × (now (length d.bytes - 1) ≡ true))
    unfolding now
    length_known =
        ground (arith, h.mark, k.known, h.is_piece.holds.some_data, h.is_piece.holds.within)

    positive : 0 < length d.bytes
    positive = omega (arith, h.is_piece.holds.some_data, h.is_piece.holds.within)

    not_full_without_last : (c : ℕ → Bool) → c (length d.bytes - 1) ≡ false → ¬ IsFull d c
    not_full_without_last c e full = cc (full (length d.bytes - 1) (omega (arith, positive)), e)

    abbrev with_frags : Joined → Reasm
    with_frags j = record timed { fraglist = j.frags }

    abbrev passed_on : Ip
    passed_on = record ip {
      length = u32 (timed.length + header_len ip);
      offset = 0;
      flags = record ip.flags { mf = false };
    }

    waits :
        (j : Joined)
        → Collected d 0 j.frags
        → ((x : ℕ) → covers j.frags x ≡ now x)
        → ¬ IsFull d (covers j.frags)
        → finish ip timed q j ≡ some (incomplete, with_frags j ∷ q)
        → Reassembles ip (covers rp.fraglist) rp q (finish ip timed q j)
    unfolding now
    waits j c e p r =
        let u : covers j.frags (length d.bytes - 1) ≡ now (length d.bytes - 1) =
          e (length d.bytes - 1) in
        rw r (
          with_frags j,
          refl,
          record { frags = c; known = ground (arith, length_known, u); pending = p },
          e,
        )

    passes :
        (j : Joined) (b : Packet)
        → timed.length ≡ length d.bytes
        → Collected d 0 j.frags
        → ((x : ℕ) → covers j.frags x ≡ now x)
        → now (length d.bytes - 1) ≡ true
        → whole j.frags ≡ some b
        → Reassembles ip (covers rp.fraglist) rp q (finish ip timed q j)
    unfolding now
    passes j b l c e u w =
        let r = whole-contents j.frags b c (e (length d.bytes - 1) ∙ u) w in
        let full : IsFull d now = λ x lt. sym (e x) ∙ r.1 x lt in
        let n : timed.length ≢ 0 = omega (arith, l, positive) in
        elim (Bool-cases j.prepended) [
          | inl y ↦
              let f : finish ip timed q j ≡ none = unfold finish in ground (arith, w, n, y) in
              rw f full
          | inr y ↦
              let f : finish ip timed q j ≡ some (complete passed_on b, q) =
                unfold finish in ground (arith, w, n, y) in
              rw f (refl, r.0, omega (arith, l, h.header), refl, refl, full)
        ]

    all_there :
        (j : Joined)
        → Collected d 0 j.frags
        → ((x : ℕ) → covers j.frags x ≡ now x)
        → timed.length ≡ length d.bytes
        → now (length d.bytes - 1) ≡ true
        → (o : Option Packet) → whole j.frags ≡ o
        → Reassembles ip (covers rp.fraglist) rp q (finish ip timed q j)
    unfolding finish
    all_there j c e l u none w =
        waits j c e (λ full. whole-IsFull j.frags positive c full w) (ground (arith, w))
    all_there j c e l u (some b) w = passes j b l c e u w

    finish-Reassembles :
        (j : Joined)
        → Collected d 0 j.frags
        → ((x : ℕ) → covers j.frags x ≡ now x)
        → Reassembles ip (covers rp.fraglist) rp q (finish ip timed q j)
    unfolding finish
    finish-Reassembles j c e = elim length_known [
      | inl (z, u) ↦
          waits j c e (not_full_without_last (covers j.frags) (e (length d.bytes - 1) ∙ u))
            (ground (arith, z))
      | inr (l, u) ↦ all_there j c e l u (whole j.frags) refl
    ]

    same_frags : timed.fraglist ≡ rp.fraglist
    same_frags = ground arith

    -- A fragment that was there already changes nothing.
    nothing_new :
        ((x : ℕ) → covers rp.fraglist x ≡ now x)
        → Reassembles ip (covers rp.fraglist) rp q (some (incomplete, timed ∷ q))
    unfolding now
    nothing_new a = (
      timed,
      refl,
      record {
        frags = rw same_frags k.frags;
        known = rw same_frags (ground (arith, length_known, a (length d.bytes - 1)));
        pending = rw same_frags k.pending;
      },
      λ x. ground (arith, same_frags, a x),
    )

    add_all :
        (a : Added)
        → Adds d (piece ip bp) (covers rp.fraglist) a
        → Reassembles ip (covers rp.fraglist) rp q (elim a [
          | fault ↦ none
          | nothing_left ↦ some (incomplete, timed ∷ q)
          | added j ↦ finish ip timed q j
        ])
    unfolding now
    add_all fault a = absurd a
    add_all nothing_left a = nothing_new a
    add_all (added j) a = finish-Reassembles j a.0 a.1

    -- With memory for its descriptor, a fragment whose mbufs are not empty, between the cuts of
    -- one datagram is added to what was collected, in whatever order the fragments come. The
    -- datagram is passed on, with its bytes and its length, only if none of them is missing then;
    -- as long as some are, the descriptor waits and covers just what came; and an access at fault
    -- happens only when the last missing fragment has come.
    pub add_to_reasm-Reassembles :
        Reassembles ip (covers rp.fraglist) rp q (add_to_reasm true ip bp rp q)
    unfolding add_to_reasm
    add_to_reasm-Reassembles =
        let c = uncut-Clear h 0 rp.fraglist k.frags in
        let a = add_frag-Adds d (piece ip bp) rp.fraglist h.is_piece k.frags c in
        add_all (add_frag true (piece ip bp) rp.fraglist) a
