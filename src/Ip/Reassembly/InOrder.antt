-- ===== src/Ip/Reassembly/InOrder.antt =====
-- Fragments that come in order.
use ka9q_unix.Base.{
  ℕ, ◌+◌, ◌<◌, ◌≤◌, ◌≡◌, true, false, List, [], ◌∷◌, if◌then◌else◌, arith, length, refl, sym, ◌∙◌,
  some, Option, none, ap, subst,
}
use native.Mathlib.Decide.{dec_lt}
use ka9q_unix.Base.Word.{u32}
use ka9q_unix.Base.Slices.{slice, slice_all}
use ka9q_unix.Mbuf.{Packet, contents}
use ka9q_unix.Mbuf.Chain.{append}
use ka9q_unix.Ip.{Ip}
use ka9q_unix.Ip.Reassembly.{
  Frag, Reasm, Piece, added, add_frag, Handled, incomplete, complete, finish, add_to_reasm, last_of,
  header_len, fraghandle, matches, take_reasm, creat_reasm, receive_all, find_place, strip,
  add_stripped, trim_frags, join, unwind, whole,
}
use ka9q_unix.Ip.Reassembly.Pieces.{Datagram, Holds, Holds-append}
use ka9q_unix.Ip.Reassembly.Complete.{IsFragment, piece}

-- The first fragment makes a list of one.
add_frag_first :
    (p : Piece)
    → add_frag true p []
      ≡ added (record {
        frags = record { offset = p.offset; last = p.last; buf = p.bp; stale = false } ∷ [];
        prepended = false;
      })
unfolding add_frag find_place strip add_stripped trim_frags join unwind
add_frag_first p = refl

-- The next one is appended.
add_frag_next :
    (p : Piece) (f : Frag)
    → f.offset ≤ p.offset
    → f.last ≡ p.offset
    → add_frag true p (f ∷ [])
      ≡ added (record {
        frags = record f { buf = append f.buf p.bp; last = p.last } ∷ [];
        prepended = false;
      })
unfolding add_frag find_place strip add_stripped trim_frags join unwind
add_frag_next p f h e = ground arith

-- What the fragments of the datagram `d` up to `o`, in order, have come to.
abbrev Reaches : Datagram → ℕ → Reasm → List Frag → Type 0
Reaches d o rp [] = (o ≡ 0) × (rp.length ≡ 0)
Reaches d o rp (f ∷ fs) =
    (fs ≡ [])
    × (rp.length ≡ 0)
    × (f.offset ≡ 0)
    × (f.last ≡ o)
    × Holds d 0 o f.buf
    × (f.stale ≡ false)

abbrev next_frag : Ip → Packet → List Frag → Frag
next_frag ip bp [] = record { offset = ip.offset; last = last_of ip; buf = bp; stale = false }
next_frag ip bp (f ∷ fs) = record f { buf = append f.buf bp; last = last_of ip }

next_frag-last : (ip : Ip) (bp : Packet) (fs : List Frag) → (next_frag ip bp fs).last ≡ last_of ip
next_frag-last ip bp [] = refl
next_frag-last ip bp (f ∷ fs) = refl

receive_more :
    (ip : Ip) (bp : Packet) (fs : List (Ip × Packet)) (q q' : List Reasm)
    → fraghandle true true ip bp q ≡ some (incomplete, q')
    → receive_all ((ip, bp) ∷ fs) q ≡ receive_all fs q'
unfolding receive_all
receive_more ip bp fs q q' e = ground (arith, e)

receive_done :
    (ip ip' : Ip) (bp bp' : Packet) (fs : List (Ip × Packet)) (q q' : List Reasm)
    → fraghandle true true ip bp q ≡ some (complete ip' bp', q')
    → receive_all ((ip, bp) ∷ fs) q ≡ some (complete ip' bp', q')
unfolding receive_all
receive_done ip ip' bp bp' fs q q' e = ground (arith, e)

module _ (d : Datagram) where
  add_frag-Reaches :
      (ip : Ip) (bp : Packet) (rp : Reasm) (fs : List Frag)
      → Reaches d ip.offset rp fs
      → add_frag true (piece ip bp) fs
        ≡ added (record { frags = next_frag ip bp fs ∷ []; prepended = false })
  add_frag-Reaches ip bp rp [] r = add_frag_first (piece ip bp)
  add_frag-Reaches ip bp rp (f ∷ fs) r = rw r.0 (add_frag_next (piece ip bp) f (omega arith) (r.3))

  next-Holds :
      (ip : Ip) (bp : Packet) (rp : Reasm) (fs : List Frag)
      → IsFragment d ip bp
      → Reaches d ip.offset rp fs
      → Holds d 0 (last_of ip) (next_frag ip bp fs).buf
        × ((next_frag ip bp fs).offset ≡ 0)
        × ((next_frag ip bp fs).stale ≡ false)
  next-Holds ip bp rp [] h r =
      (subst (λ (o : ℕ). Holds d o (last_of ip) bp) r.0 h.is_piece.holds, r.0, refl)
  next-Holds ip bp rp (f ∷ fs) h r =
      (Holds-append d 0 ip.offset (last_of ip) f.buf bp r.4 h.is_piece.holds, r.2, r.5)

  -- More fragments are to come.
  abbrev next_rp : Ip → Packet → Reasm → Reasm
  next_rp ip bp rp = record (if ip.flags.mf then rp else record rp { length = last_of ip }) {
    fraglist = next_frag ip bp rp.fraglist ∷ [];
  }

  module _ (ip : Ip) (bp : Packet) (rp : Reasm) (q : List Reasm) (h : IsFragment d ip bp)
      (r : Reaches d ip.offset rp rp.fraglist) where
    length_zero : rp.length ≡ 0
    length_zero = go rp.fraglist r
      where
        go : (fs : List Frag) → Reaches d ip.offset rp fs → rp.length ≡ 0
        go [] r = r.1
        go (f ∷ fs) r = r.1

    add_more :
        last_of ip < length d.bytes
        → add_to_reasm true ip bp rp q ≡ some (incomplete, next_rp ip bp rp ∷ q)
    unfolding add_to_reasm finish
    add_more lt =
        let a = add_frag-Reaches ip bp rp rp.fraglist r in
        let m : ip.flags.mf ≡ true = h.mark.1 lt in ground (arith, a, m, length_zero)

    add_last :
        last_of ip ≡ length d.bytes
        → (ip' : Ip) × (add_to_reasm true ip bp rp q
            ≡ some (complete ip' (next_frag ip bp rp.fraglist).buf, q))
          × (ip'.length ≡ length d.bytes + header_len ip')
    unfolding add_to_reasm finish whole header_len
    add_last e =
        let a = add_frag-Reaches ip bp rp rp.fraglist r in
        let n = next-Holds ip bp rp rp.fraglist h r in
        let m : ip.flags.mf ≡ false = ground (arith, h.mark) in
        (
          record ip {
            length = u32 (last_of ip + header_len ip);
            offset = 0;
            flags = record ip.flags { mf = false };
          },
          ground (arith, a, m, n.1, n.0.some_data),
          omega (arith, e, h.header),
        )

  -- The descriptor of the datagram whose fragments have the header of `first`.
  abbrev IsKey : Ip → Reasm → Type 0
  IsKey first rp =
      (rp.id ≡ first.id)
      × (rp.source ≡ first.source)
      × (rp.dest ≡ first.dest)
      × (rp.protocol ≡ first.protocol)

  -- The rest of the fragments, from byte `o` on, with the header of `first`.
  abbrev pub InOrder : Ip → ℕ → List (Ip × Packet) → Type 0
  InOrder first o [] = o ≡ length d.bytes
  InOrder first o ((ip, bp) ∷ r) =
      IsFragment d ip bp
      × (ip.offset ≡ o)
      × (ip.id ≡ first.id)
      × (ip.source ≡ first.source)
      × (ip.dest ≡ first.dest)
      × (ip.protocol ≡ first.protocol)
      × InOrder first (last_of ip) r

  -- The datagram comes out, with its data and length, and its descriptor is gone.
  abbrev pub Delivers : List Reasm → Option (Handled × List Reasm) → Type 0
  Delivers q none = ⊥
  Delivers q (some (incomplete, q')) = ⊥
  Delivers q (some (complete ip bp, q')) =
      (contents bp ≡ d.bytes) × (ip.length ≡ length d.bytes + header_len ip) × (q' ≡ q)

  -- A fragment goes to its descriptor at the top of the queue.
  fraghandle-add :
      (first ip : Ip) (bp : Packet) (o : ℕ) (r : List (Ip × Packet)) (rp : Reasm) (q : List Reasm)
      → InOrder first o ((ip, bp) ∷ r)
      → IsKey first rp
      → fraghandle true true ip bp (rp ∷ q) ≡ add_to_reasm true ip bp rp q
  unfolding fraghandle take_reasm matches
  fraghandle-add first ip bp o r rp q h k =
      ground (arith, h.0.proper, h.2, h.3, h.4, h.5, k.0, k.1, k.2, k.3)

  next-Reaches :
      (ip : Ip) (bp : Packet) (rp : Reasm)
      → IsFragment d ip bp
      → Reaches d ip.offset rp rp.fraglist
      → last_of ip < length d.bytes
      → Reaches d (last_of ip) (next_rp ip bp rp) (next_rp ip bp rp).fraglist
  next-Reaches ip bp rp h r lt =
      let n = next-Holds ip bp rp rp.fraglist h r in
      let m : ip.flags.mf ≡ true = h.mark.1 lt in
      let z = length_zero ip bp rp [] h r in
      (refl, rw m z, n.1, next_frag-last ip bp rp.fraglist, n.0, n.2)

  rest_delivered :
      (first : Ip) (o : ℕ) (fs : List (Ip × Packet)) (rp : Reasm) (q : List Reasm)
      → o < length d.bytes
      → IsKey first rp
      → Reaches d o rp rp.fraglist
      → InOrder first o fs
      → Delivers q (receive_all fs (rp ∷ q))
  unfolding receive_all
  rest_delivered first o [] rp q lt k r h = absurd (omega (arith, h))
  rest_delivered first o ((ip, bp) ∷ fs) rp q lt k r h =
      let e = fraghandle-add first ip bp o fs rp q h k in
      let r' : Reaches d ip.offset rp rp.fraglist = rw h.1 r in
      elim (dec_lt (last_of ip) (length d.bytes)) [
        | yes more ↦
            let s =
              receive_more ip bp fs (rp ∷ q) (next_rp ip bp rp ∷ q)
                (e ∙ add_more ip bp rp q h.0 r' more) in
            subst (Delivers q) (sym s) (
              rest_delivered first (last_of ip) fs (next_rp ip bp rp) q more (ground (arith, k))
                (next-Reaches ip bp rp h.0 r' more) h.6)
        | no done ↦
            let l : last_of ip ≡ length d.bytes = omega (arith, h.0.is_piece.holds.within) in
            let a = add_last ip bp rp q h.0 r' l in
            let n = next-Holds ip bp rp rp.fraglist h.0 r' in
            let s =
              receive_done ip a.0 bp (next_frag ip bp rp.fraglist).buf fs (rp ∷ q) q (e ∙ a.1) in
            subst (Delivers q) (sym s)
              (n.0.bytes ∙ ap (λ (l : ℕ). slice 0 l d.bytes) l ∙ slice_all d.bytes, a.2, refl)
      ]

  fraghandle-creat_reasm :
      (ip : Ip) (bp : Packet) (q : List Reasm)
      → IsFragment d ip bp
      → take_reasm ip q ≡ none
      → fraghandle true true ip bp q ≡ add_to_reasm true ip bp (creat_reasm ip) q
  unfolding fraghandle
  fraghandle-creat_reasm ip bp q h e = ground (arith, e, h.proper)

  -- A datagram whose fragments come in order is delivered: from a queue that has no descriptor of it,
  -- fraghandle takes all but the last fragment, and the last one makes it pass on the data and the
  -- length of the datagram, with the queue as it was before. The fragments cover the datagram without
  -- gaps, their protocol is below 128, and there is memory for the descriptors.
  pub receive_all-InOrder :
      (ip : Ip) (bp : Packet) (fs : List (Ip × Packet)) (q : List Reasm)
      → InOrder ip 0 ((ip, bp) ∷ fs)
      → ip.protocol < 128
      → take_reasm ip q ≡ none
      → Delivers q (receive_all ((ip, bp) ∷ fs) q)
  unfolding creat_reasm
  receive_all-InOrder ip bp fs q h p t =
      let e = fraghandle-creat_reasm ip bp q h.0 t in
      let r : Reaches d ip.offset (creat_reasm ip) [] = (h.1, refl) in
      let lt : last_of ip < length d.bytes = h.0.mark.0 (h.0.proper h.1) in
      let s =
        receive_more ip bp fs q (next_rp ip bp (creat_reasm ip) ∷ q)
          (e ∙ add_more ip bp (creat_reasm ip) q h.0 r lt) in
      subst (Delivers q) (sym s) (
        rest_delivered ip (last_of ip) fs (next_rp ip bp (creat_reasm ip)) q lt (ground (arith, p))
          (next-Reaches ip bp (creat_reasm ip) h.0 r lt) h.6)
