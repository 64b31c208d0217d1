-- ===== src/Mbuf/Chain/Copies.antt =====
-- The copying operations of mbuf.c, `extract`, `copy_p` and `dup_p`, told by the bytes of a packet.
use native.Mathlib.Decide.{dec_le}
use ka9q_unix.Base.{
  ℕ, zero, suc, ◌+◌, ◌-◌, ◌≤◌, ◌<◌, ◌≡◌, refl, sym, ap, ◌∙◌, min, List, [], ◌∷◌, ◌++◌, length, take,
  drop, take_all, drop_all, take-append_le, length-drop, take-append_past, drop-append_le,
  drop-append_past, append-nil, true, false, arith,
}
use ka9q_unix.Mbuf.{Mbuf, Packet, cnt, alloc_mbuf, contents}
use ka9q_unix.Mbuf.Chain.{copy_out, extract, copy_loop, copy_p}

-- A first mbuf that the offset does not cover, and the rest of the chain.
pub take-drop_first :
    (offset n : ℕ) (xs ys : List ℕ)
    → offset ≤ length xs
    → take n (drop offset (xs ++ ys))
      ≡ take (min n (length xs - offset)) (drop offset xs)
        ++ take (n - min n (length xs - offset)) ys
take-drop_first offset n xs ys h =
    rw (drop-append_le offset xs ys h) (elim (dec_le (length xs - offset) n) [
      | yes k ↦
          let e : min n (length xs - offset) ≡ length xs - offset = omega arith in
          rw
            (
              e,
              take_all (length xs - offset) (drop offset xs) (omega (arith, length-drop offset xs)),
            )
            (take-append_past n (n - (length xs - offset)) (drop offset xs) ys
              (omega (arith, length-drop offset xs)))
      | no k ↦
          let e : min n (length xs - offset) ≡ n = omega arith in
          let z : n - n ≡ 0 = omega arith in
          rw (e, z)
            (take-append_le n (drop offset xs) ys (omega (arith, length-drop offset xs))
              ∙ sym (append-nil (take n (drop offset xs))))
    ])

copy_out-zero : (offset : ℕ) (p : Packet) → copy_out offset 0 p ≡ []
unfolding copy_out
copy_out-zero offset [] = refl
copy_out-zero offset (b ∷ p) = refl

copy_out-cons :
    (offset n : ℕ) (b : Mbuf) (p : Packet)
    → offset ≤ cnt b
    → let k = min n (cnt b - offset) in
      copy_out offset n (b ∷ p) ≡ take k (drop offset b.bytes) ++ copy_out 0 (n - k) p
copy_out-cons offset zero b p h =
    let e : min 0 (cnt b - offset) ≡ 0 = omega arith in
    rw e (unfold copy_out in sym (copy_out-zero 0 p))
copy_out-cons offset (suc n) b p h = elim (dec_le (cnt b - offset) (suc n)) [
  | yes k ↦
      let e : min (suc n) (cnt b - offset) ≡ cnt b - offset = omega arith in
      rw e (unfold copy_out in ground arith)
  | no k ↦
      let e : min (suc n) (cnt b - offset) ≡ suc n = omega arith in
      let z : suc n - suc n ≡ 0 = omega arith in
      rw (e, z)
        (rw (copy_out-zero 0 p)
          (unfold copy_out in ground (arith, append-nil (take (suc n) (drop offset b.bytes)))))
]

none_left : (n : ℕ) → copy_out 0 n [] ≡ take n []
unfolding copy_out
none_left n = sym (take_all n [] (omega arith))

copy_out-contents :
    (offset n : ℕ) (b : Mbuf) (p : Packet)
    → offset ≤ cnt b
    → copy_out offset n (b ∷ p) ≡ take n (drop offset (contents (b ∷ p)))
copy_out-contents offset n b [] h =
    copy_out-cons offset n b [] h
    ∙ ap (◌++◌ (take (min n (cnt b - offset)) (drop offset b.bytes)))
        (none_left (n - min n (cnt b - offset)))
    ∙ sym (take-drop_first offset n b.bytes [] h)
copy_out-contents offset n b (c ∷ p) h =
    copy_out-cons offset n b (c ∷ p) h
    ∙ ap (◌++◌ (take (min n (cnt b - offset)) (drop offset b.bytes)))
        (copy_out-contents 0 (n - min n (cnt b - offset)) c p (omega arith))
    ∙ sym (take-drop_first offset n b.bytes (contents (c ∷ p)) h)

extract_past :
    (offset len : ℕ) (b : Mbuf) (p : Packet)
    → cnt b ≤ offset
    → extract offset len (b ∷ p) ≡ extract (offset - cnt b) len p
unfolding extract
extract_past offset len b p h = ground arith

extract_here :
    (offset len : ℕ) (b : Mbuf) (p : Packet)
    → offset < cnt b
    → extract offset len (b ∷ p) ≡ copy_out offset len (b ∷ p)
unfolding extract
extract_here offset len b p h = ground arith

extract-nil : (offset len : ℕ) → extract offset len [] ≡ take len (drop offset [])
unfolding extract
extract-nil offset len =
    sym (ap (take len) (drop_all offset [] (omega arith)) ∙ take_all len [] (omega arith))

-- `extract` copies the bytes of the packet from `offset` on, at most `len` of them.
pub extract-contents :
    (offset len : ℕ) (p : Packet) → extract offset len p ≡ take len (drop offset (contents p))
extract-contents offset len [] = extract-nil offset len
extract-contents offset len (b ∷ p) = elim (dec_le (cnt b) offset) [
  | yes h ↦
      let s : length b.bytes + (offset - cnt b) ≡ offset = omega arith in
      rw
        (
          drop-append_past offset (offset - cnt b) b.bytes (contents p) s,
          extract_past offset len b p h,
        )
        (extract-contents (offset - cnt b) len p)
  | no h ↦
      extract_here offset len b p (omega arith) ∙ copy_out-contents offset len b p (omega arith)
]

take_first :
    (n : ℕ) (xs ys : List ℕ)
    → take n (xs ++ ys) ≡ take (min n (length xs)) xs ++ take (n - min n (length xs)) ys
take_first n xs ys =
    let e : length xs - 0 ≡ length xs = omega arith in
    rw e at (take-drop_first 0 n xs ys (omega arith))

copy_loop-contents : (n : ℕ) (p : Packet) → copy_loop n p ≡ take n (contents p)
unfolding copy_loop
copy_loop-contents n [] = sym (take_all n [] (omega arith))
copy_loop-contents zero (b ∷ p) = refl
copy_loop-contents (suc n) (b ∷ p) = ground (
  arith,
  take_first (suc n) b.bytes (contents p),
  copy_loop-contents (suc n - min (suc n) (cnt b)) p,
)

-- `copy_p` makes one mbuf of the first `n` bytes if there is memory for it.
pub copy_p-contents : (p : Packet) (n : ℕ) → contents (copy_p true p n) ≡ take n (contents p)
unfolding copy_p alloc_mbuf
copy_p-contents [] n = sym (take_all n [] (omega arith))
copy_p-contents (b ∷ p) zero = refl
copy_p-contents (b ∷ p) (suc n) =
    ground (arith, append-nil (copy_loop (suc n) (b ∷ p)), copy_loop-contents (suc n) (b ∷ p))

-- Without memory there is no copy.
pub copy_p_fails : (p : Packet) (n : ℕ) → copy_p false p n ≡ []
unfolding copy_p alloc_mbuf
copy_p_fails [] n = refl
copy_p_fails (b ∷ p) zero = refl
copy_p_fails (b ∷ p) (suc n) = ground arith
