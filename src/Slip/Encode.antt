-- ===== src/Slip/Encode.antt =====
-- What `slip_encode` sends, and that its buffer is large enough.
use ka9q_unix.Base.{
  ℕ, ◌+◌, ◌*◌, ◌^◌, ◌≡◌, ◌≤◌, ◌<◌, refl, sym, ap, subst, ◌∙◌, List, [], ◌∷◌, length, take, drop,
  true, Option, none, some, arith, min,
}
use ka9q_unix.Mbuf.{Mbuf, Packet, contents, alloc_mbuf, size_class}
use ka9q_unix.Mbuf.Chain.{len_p, pullup}
use ka9q_unix.Mbuf.Chain.Contents.{pullup-contents, len_p-contents}
use ka9q_unix.Mbuf.Fields.{pull8}
use ka9q_unix.Slip.{escape, encode_loop, slip_encode, fr_end}
use ka9q_unix.Base.Word.{u32}

-- The bytes of a frame, escaped, and its end.
unfoldable pub escaped_bytes : List ℕ → List ℕ
escaped_bytes [] = 0xc0 ∷ []
escaped_bytes (c ∷ cs) = escape c (escaped_bytes cs)

pull8-nil : (p : Packet) → contents p ≡ [] → (pull8 p).0 ≡ none
unfolding pull8
pull8-nil p e =
    let h = pullup-contents 1 p in
    let none_pulled : (pullup 1 p).tot ≡ 0 = h.2 ∙ ap (λ (xs : List ℕ). min 1 (length xs)) e in
    ground (arith, none_pulled)

pull8-cons :
    (p : Packet) (c : ℕ) (cs : List ℕ)
    → contents p ≡ c ∷ cs
    → ((pull8 p).0 ≡ some c) × (contents (pull8 p).1 ≡ cs)
unfolding pull8
pull8-cons p c cs e =
    let h = pullup-contents 1 p in
    let one_pulled : (pullup 1 p).tot ≡ 1 =
      h.2 ∙ ap (λ (xs : List ℕ). min 1 (length xs)) e ∙ omega arith in
    let its_byte : (pullup 1 p).buf ≡ c ∷ [] = h.0 ∙ ap (take 1) e in
    (rw one_pulled (rw its_byte refl), h.1 ∙ ap (drop 1) e)

encode_loop-contents :
    (bytes : List ℕ) (p : Packet)
    → contents p ≡ bytes
    → encode_loop (length bytes) p ≡ escaped_bytes bytes
unfolding encode_loop escaped_bytes
encode_loop-contents [] p e = refl
encode_loop-contents (c ∷ cs) p e =
    let h = pull8-cons p c cs e in
    ap
      (λ (o : Option ℕ). elim o [
        | none ↦ 0xc0 ∷ []
        | some d ↦ escape d (encode_loop (length cs) (pull8 p).1)
      ])
      h.0
    ∙ ap (escape c) (encode_loop-contents cs (pull8 p).1 h.1)

length-escape : (c : ℕ) (rest : List ℕ) → length (escape c rest) ≤ length rest + 2
unfolding escape
length-escape c rest = ground arith

length-escaped_bytes : (bytes : List ℕ) → length (escaped_bytes bytes) ≤ 2 * length bytes + 1
unfolding escaped_bytes
length-escaped_bytes [] = omega arith
length-escaped_bytes (c ∷ cs) =
    omega (arith, length-escape c (escaped_bytes cs), length-escaped_bytes cs)

size_class-le : (n : ℕ) → n ≤ size_class n
unfolding size_class
size_class-le n = ground arith

-- With memory, and of a packet of fewer than 2^31 - 1 bytes, `slip_encode` sends an end, the bytes
-- of the packet with the two special ones escaped, and another end, and these fit the buffer that
-- it allocates.
pub slip_encode-contents :
    (p : Packet)
    → length (contents p) + 1 < 2 ^ 31
    → (lbp : Mbuf) × (slip_encode true p ≡ some lbp)
      × (lbp.bytes ≡ 0xc0 ∷ escaped_bytes (contents p))
      × (length lbp.bytes ≤ lbp.size)
unfolding slip_encode alloc_mbuf
slip_encode-contents p h =
    let e : len_p p ≡ length (contents p) = len_p-contents p (omega arith) in
    let sent : fr_end ∷ encode_loop (len_p p) p ≡ 0xc0 ∷ escaped_bytes (contents p) =
      ap (λ (n : ℕ). 0xc0 ∷ encode_loop n p) e
      ∙ ap (◌∷◌ 0xc0) (encode_loop-contents (contents p) p refl) in
    let shorter : length (0xc0 ∷ escaped_bytes (contents p)) ≤ u32 (2 * len_p p + 2) =
      omega (arith, e, length-escaped_bytes (contents p)) in
    (
      _,
      refl,
      sent,
      subst (λ (xs : List ℕ). length xs ≤ size_class (u32 (2 * len_p p + 2))) (sym sent)
          (omega (arith, shorter, size_class-le (u32 (2 * len_p p + 2)))),
    )
