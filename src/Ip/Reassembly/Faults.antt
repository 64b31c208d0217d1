-- ===== src/Ip/Reassembly/Faults.antt =====
-- Arrivals that reassembly does not survive, or that it makes a truncated datagram of.
use ka9q_unix.Base.{
  ◌+◌, ◌-◌, ◌<◌, ◌≤◌, ◌≡◌, ◌≢◌, Bool, true, false, List, [], ◌∷◌, arith, length, refl, some, none,
}
use ka9q_unix.Base.Word.{u32}
use ka9q_unix.Mbuf.{Packet, is_null, contents}
use ka9q_unix.Mbuf.Chain.{pullup, append}
use ka9q_unix.Mbuf.Chain.Remains.{Filled, pullup-null, pullup-not_null}
use ka9q_unix.Ip.{Ip}
use ka9q_unix.Ip.Reassembly.{
  Frag, Reasm, Piece, added, fault, add_frag, complete, finish, add_to_reasm, last_of, header_len,
  find_place, strip, add_stripped, trim_frags, join, unwind, whole,
}
use ka9q_unix.Ip.Reassembly.Complete.{piece}

module _ (frag_ok : Bool) (p : Piece) (f : Frag) (before : p.offset < f.offset) where
  abbrev in_front : Frag
  in_front = record f { buf = append p.bp f.buf; offset = p.offset }

  add_frag_front :
      p.last ≡ f.offset
      → add_frag frag_ok p (f ∷ []) ≡ added (record { frags = in_front ∷ []; prepended = true })
  unfolding add_frag find_place strip add_stripped trim_frags join unwind
  add_frag_front e = ground (arith, e)

  add_frag_cover :
      f.offset < p.last
      → Filled f.buf
      → length (contents f.buf) ≤ p.last - f.offset
      → add_frag frag_ok p (f ∷ []) ≡ fault
  unfolding add_frag find_place strip add_stripped trim_frags
  add_frag_cover lt filled l =
      let n = pullup-not_null (p.last - f.offset) f.buf filled in
      let z : is_null (pullup (p.last - f.offset) f.buf).rest ≡ true = ground (arith, n) in
      ground (arith, z)

  -- A trimmed fragment is no longer in the list.
  add_frag_overlap :
      f.offset < p.last
      → p.last - f.offset < length (contents f.buf)
      → frag_ok ≡ true
      → add_frag frag_ok p (f ∷ [])
        ≡ added (record {
          frags = record { offset = p.offset; last = p.last; buf = p.bp; stale = false } ∷ [];
          prepended = false;
        })
  unfolding add_frag find_place strip add_stripped trim_frags join unwind
  add_frag_overlap lt l ok =
      let n = pullup-null (p.last - f.offset) f.buf in
      let z : is_null (pullup (p.last - f.offset) f.buf).rest ≡ false = ground (arith, n) in
      ground (arith, z, ok)

module _ (frag_ok : Bool) (ip : Ip) (bp : Packet) (rp : Reasm) (q : List Reasm) (f : Frag)
    (first : ip.offset ≡ 0) (more : ip.flags.mf ≡ true) (one : rp.fraglist ≡ f ∷ [])
    (known : rp.length ≢ 0) where
  -- Where the rest of a datagram was collected before its first fragment comes, so that this one
  -- completes it at the front, fraghandle writes the result through a null pointer.
  pub add_to_reasm_front :
      0 < f.offset → last_of ip ≡ f.offset → add_to_reasm frag_ok ip bp rp q ≡ none
  unfolding add_to_reasm finish whole
  add_to_reasm_front lt e =
      let a = add_frag_front frag_ok (piece ip bp) f (omega arith) e in ground (arith, one, a)

  -- A first fragment that covers all of the only other one, the last, makes fraghandle read through a
  -- null pointer.
  pub add_to_reasm_cover :
      0 < f.offset
      → f.offset < last_of ip
      → Filled f.buf
      → length (contents f.buf) ≤ last_of ip - f.offset
      → add_to_reasm frag_ok ip bp rp q ≡ none
  unfolding add_to_reasm
  add_to_reasm_cover z lt fl l =
      let a = add_frag_cover frag_ok (piece ip bp) f (omega arith) lt fl l in ground (arith, one, a)

  -- A first fragment that reaches into the last one, but not to its end, completes the datagram by
  -- itself: it is passed on with the length of the whole, and without the bytes behind this fragment.
  pub add_to_reasm_overlap :
      frag_ok ≡ true
      → 0 < f.offset
      → f.offset < last_of ip
      → last_of ip - f.offset < length (contents f.buf)
      → (ip' : Ip) × (add_to_reasm frag_ok ip bp rp q ≡ some (complete ip' bp, q))
        × (ip'.length ≡ u32 (rp.length + header_len ip))
  unfolding add_to_reasm finish whole
  add_to_reasm_overlap ok z lt l =
      let a = add_frag_overlap frag_ok (piece ip bp) f (omega arith) lt l ok in
      (
        record ip {
          length = u32 (rp.length + header_len ip);
          offset = 0;
          flags = record ip.flags { mf = false };
        },
        ground (arith, one, a),
        refl,
      )
