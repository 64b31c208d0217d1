-- ===== src/Ax25/Digis.antt =====
-- The digipeaters are read as they were written.
use ka9q_unix.Base.{
  ℕ, zero, suc, ◌+◌, ◌-◌, ◌<◌, ◌≡◌, Bool, true, false, ltb, List, [], ◌∷◌, ◌++◌, length, take, drop,
  get_or, take-append_le, drop-append_le, take_all, drop_all, length-append, append-nil,
  append_assoc, All, Option, some, if◌then◌else◌, min, refl, ap, ◌∙◌, arith,
}
use mathlib.Core.Path.{Path}
use ka9q_unix.Mbuf.{Packet, contents}
use ka9q_unix.Mbuf.Chain.{pullup}
use ka9q_unix.Mbuf.Chain.Contents.{pullup-contents}
use ka9q_unix.Ax25.{Ax25, put_bit, with_ssid, is_none, digi_fields, read_digis}
use ka9q_unix.Ax25.Bits.{IsAddress, Marked, with_ssid-Marked, marked_digi}

-- An address at the front of a packet.
pub pull-address :
    (a rest : List ℕ) (p : Packet)
    → length a ≡ 7
    → contents p ≡ a ++ rest
    → let r = pullup 7 p in (r.buf ≡ a) × ((r.tot ≡ 7) × (contents r.rest ≡ rest))
pull-address a rest p l e =
    let c = pullup-contents 7 p in
    let t : take 7 (a ++ rest) ≡ a =
      take-append_le 7 a rest (omega (arith, l)) ∙ take_all 7 a (omega (arith, l)) in
    let d : drop 7 (a ++ rest) ≡ rest =
      drop-append_le 7 a rest (omega (arith, l))
      ∙ ap (λ (xs : List ℕ). xs ++ rest) (drop_all 7 a (omega (arith, l))) in
    (
      c.0 ∙ ap (take 7) e ∙ t,
      (omega (arith, c.2, ap length e, length-append a rest, l), c.1 ∙ ap (drop 7) e ∙ d),
    )

-- The digipeaters with their bits, of which the first `next` have repeated.
pub data Copies : ℕ → List (List ℕ) → List (List ℕ) → Type 0 where
  done : {n : ℕ} → Copies n [] []
  more :
      {n : ℕ} {a b : List ℕ} {xs ys : List (List ℕ)}
      → Marked (ltb 0 n) (is_none xs) a b
      → Copies (n - 1) xs ys
      → Copies n (a ∷ xs) (b ∷ ys)

ltb_lem : (n : ℕ) → (if ltb 0 n then 1 else 0) ≡ min n 1
ltb_lem n = ground arith

counted :
    (c : Bool) (m next k : ℕ)
    → (if c then 1 else 0) ≡ min next 1
    → (if c then m + 1 else m) + min (next - 1) k ≡ m + min next (suc k)
counted c m next k h = ground (arith, h)

counted_last :
    (c : Bool) (m next : ℕ)
    → (if c then 1 else 0) ≡ min next 1
    → (if c then m + 1 else m) ≡ m + min next 1
counted_last c m next h = ground (arith, h)

pub result_lem :
    (hdr : Ax25) (q : Packet) {j k : ℕ} (xs ys : List (List ℕ)) {m n : ℕ}
    → j ≡ k
    → xs ≡ ys
    → m ≡ n
    → Path
        (Option ℕ × Ax25 × Packet)
        (some (j + 2), record hdr { digis = xs; nextdigi = m }, q)
        (some (k + 2), record hdr { digis = ys; nextdigi = n }, q)
result_lem hdr q xs ys e f g = rw (e, f, g) refl

abbrev add_digi : Bool → List ℕ → Ax25 → Ax25
add_digi c b hdr = record hdr {
  digis = hdr.digis ++ b ∷ [];
  nextdigi = if c then hdr.nextdigi + 1 else hdr.nextdigi;
}

step_lem :
    (n : ℕ) (hdr : Ax25) (p : Packet) (a b rest : List ℕ) (c e : Bool)
    → Marked c e a b
    → contents p ≡ b ++ rest
    → read_digis (suc n) hdr p ≡ (
        if e
        then (some (length (hdr.digis ++ b ∷ []) + 2), add_digi c b hdr, (pullup 7 p).rest)
        else read_digis n (add_digi c b hdr) (pullup 7 p).rest)
unfolding read_digis
step_lem n hdr p a b rest c e m w =
    let r = pull-address b rest p m.len w in rw (r.0, r.1.0, m.high, m.low) refl

-- What is read where the digipeaters `ds` stand at the front.
unfoldable pub Reads : Ax25 → ℕ → List (List ℕ) → List ℕ → Option ℕ × Ax25 × Packet → Type 0
Reads hdr next ds rest r =
    (out : List (List ℕ)) × ((q : Packet) × (Copies next ds out
        × ((contents q ≡ rest)
            × (r ≡ (
              some (length hdr.digis + length ds + 2),
              record hdr {
                digis = hdr.digis ++ out;
                nextdigi = hdr.nextdigi + min next (length ds);
              },
              q,
            )))))

unfoldable pub mark_digi : ℕ → List ℕ → List (List ℕ) → List ℕ
mark_digi next d ds = with_ssid (λ x. put_bit (ltb 0 next) 0x80 (put_bit (is_none ds) 1 x)) d

pub mark_digi-Marked :
    (next : ℕ) (d : List ℕ) (ds : List (List ℕ))
    → IsAddress d
    → Marked (ltb 0 next) (is_none ds) d (mark_digi next d ds)
unfolding mark_digi
mark_digi-Marked next d ds h =
    with_ssid-Marked (ltb 0 next) (is_none ds)
      (λ x. put_bit (ltb 0 next) 0x80 (put_bit (is_none ds) 1 x)) d h
      (marked_digi (ltb 0 next) (is_none ds) (get_or d 6 0) h.ssid)

pub read_digis-Reads :
    (n next : ℕ) (hdr : Ax25) (d : List ℕ) (ds : List (List ℕ)) (rest : List ℕ) (p : Packet)
    → IsAddress d
    → All IsAddress ds
    → length ds < n
    → contents p ≡ digi_fields next (d ∷ ds) ++ rest
    → Reads hdr next (d ∷ ds) rest (read_digis n hdr p)
unfolding digi_fields mark_digi Reads
read_digis-Reads zero next hdr d ds rest p h hs lt w = absurd (omega (arith, lt))
read_digis-Reads (suc n) next hdr d [] rest p h hs lt w =
    let m = mark_digi-Marked next d [] h in
    let b = mark_digi next d [] in
    let v : contents p ≡ b ++ rest = w ∙ ap (λ (xs : List ℕ). xs ++ rest) (append-nil b) in
    let e = step_lem n hdr p d b rest (ltb 0 next) true m v in
    let r = pull-address b rest p m.len v in
    let c = counted_last (ltb 0 next) hdr.nextdigi next (ltb_lem next) in
    (
      b ∷ [],
      (
        (pullup 7 p).rest,
        (
          more m done,
          (
            r.1.1,
            e
                ∙ result_lem hdr (pullup 7 p).rest (hdr.digis ++ b ∷ []) (hdr.digis ++ b ∷ [])
                    (length-append hdr.digis (b ∷ [])) refl c,
          ),
        ),
      ),
    )
read_digis-Reads (suc n) next hdr d (x ∷ xs) rest p h (hx, hs) lt w =
    let m = mark_digi-Marked next d (x ∷ xs) h in
    let b = mark_digi next d (x ∷ xs) in
    let v : contents p ≡ b ++ (digi_fields (next - 1) (x ∷ xs) ++ rest) =
      w ∙ append_assoc b (digi_fields (next - 1) (x ∷ xs)) rest in
    let e = step_lem n hdr p d b (digi_fields (next - 1) (x ∷ xs) ++ rest) (ltb 0 next) false m v in
    let r = pull-address b (digi_fields (next - 1) (x ∷ xs) ++ rest) p m.len v in
    let ih =
      read_digis-Reads n (next - 1) (add_digi (ltb 0 next) b hdr) x xs rest (pullup 7 p).rest hx hs
        (omega (arith, lt)) r.1.1 in
    let c = counted (ltb 0 next) hdr.nextdigi next (suc (length xs)) (ltb_lem next) in
    let out = ih.0 in
    let l = length-append hdr.digis (b ∷ []) in
    (
      b ∷ out,
      (
        ih.1.0,
        (
          more m ih.1.1.0,
          (
            ih.1.1.1.0,
            e
                ∙ ih.1.1.1.1
                ∙ result_lem hdr ih.1.0 ((hdr.digis ++ b ∷ []) ++ out) (hdr.digis ++ b ∷ out)
                    (omega (arith, l)) (append_assoc hdr.digis (b ∷ []) out) c,
          ),
        ),
      ),
    )
