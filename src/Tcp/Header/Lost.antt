-- ===== src/Tcp/Header/Lost.antt =====
-- The count of the bytes that are left falls by one too many for each option with a length.
use ka9q_unix.Base.{
  ℕ, zero, suc, ◌+◌, ◌-◌, ◌/◌, ◌^◌, ◌<◌, ◌≤◌, ◌≡◌, ◌≢◌, true, false, List, [], ◌∷◌, ◌++◌, length,
  length-append, take, drop, take-append_le, take_all, drop-append_past, if_cases, subst,
  append_assoc, All, some, ltb, ◌==◌, ◌||◌, Bool-cases, inl, inr, get_or, bit_and, max, refl, ap,
  ◌∙◌, arith, sym,
}
use ka9q_unix.Mbuf.{Packet, contents}
use ka9q_unix.Mbuf.Chain.{pullup, len_p}
use ka9q_unix.Mbuf.Chain.Contents.{pullup-contents, len_p-contents}
use ka9q_unix.Tcp.{Tcp}
use ka9q_unix.Tcp.Header.{take_option, read_options, read_fixed, ntohtcp, tcplen}

-- A filler, or an option of some kind with its contents.
pub data Item : Type 0 where
  filler : Item
  opt : ℕ → List ℕ → Item

-- The items as they stand in the header.
abbrev pub encode : List Item → List ℕ
encode [] = []
encode (filler ∷ os) = 1 ∷ encode os
encode (opt kind body ∷ os) = kind ∷ (2 + length body) ∷ (body ++ encode os)

-- No end of the options, and no window scale.
abbrev pub IsOther : Item → Type 0
IsOther filler = Unit
IsOther (opt kind body) = (2 ≤ kind) × (kind ≢ 3)

-- How many items have a length.
abbrev pub lengthy : List Item → ℕ
lengthy [] = 0
lengthy (filler ∷ os) = lengthy os
lengthy (opt kind body ∷ os) = suc (lengthy os)

-- No window scale was seen.
abbrev pub Unseen : Tcp → Type 0
Unseen tcph = (tcph.flags.has_wscale ≡ false) × (tcph.wsopt ≡ 0)

take_option-Unseen :
    (kind len : ℕ) (cp : List ℕ) (tcph : Tcp)
    → kind ≢ 3
    → Unseen tcph
    → Unseen (take_option kind len cp tcph)
unfolding take_option
take_option-Unseen kind len cp tcph ne u =
    let no_scale : (kind == 3) ≡ false = ground (arith, ne) in
    if_cases Unseen (kind == 2) (λ e. if_cases Unseen (len == 4) (λ e'. u) (λ e'. u))
      (λ e. rw no_scale (
        if_cases Unseen (kind == 8) (λ e'. if_cases Unseen (len == 10) (λ f. u) (λ f. u))
          (λ e'. u)))

fixed_lem : (b : List ℕ) → Unseen (read_fixed b)
unfolding read_fixed
fixed_lem b = (refl, refl)

drop_body : (body rest : List ℕ) → drop (length body) (body ++ rest) ≡ rest
drop_body [] rest = refl
drop_body (x ∷ xs) rest = drop_body xs rest

-- The count is used up before the rest is reached.
read_options-Unseen :
    (n i : ℕ) (os : List Item) (rest : List ℕ) (tcph : Tcp)
    → All IsOther os
    → i ≤ length (encode os) + lengthy os
    → Unseen tcph
    → Unseen (read_options n i (encode os ++ rest) tcph)
unfolding read_options
read_options-Unseen zero i os rest tcph a le u = u
read_options-Unseen (suc n) i [] rest tcph a le u =
    let z : (i == 0) ≡ true = ground (arith, le) in rw z u
read_options-Unseen (suc n) i (filler ∷ os) rest tcph a le u = elim (Bool-cases (i == 0)) [
  | inl z ↦ rw z u
  | inr z ↦ rw z (read_options-Unseen n (i - 1) os rest tcph a.1 (omega (arith, le)) u)
]
read_options-Unseen (suc n) i (opt kind body ∷ os) rest tcph a le u = elim (Bool-cases (i == 0)) [
  | inl z ↦ rw z u
  | inr z ↦
      let b = a.0 in
      let k0 : (kind == 0) ≡ false = ground (arith, b.0) in
      let k1 : (kind == 1) ≡ false = ground (arith, b.0) in
      let skip : max 2 (2 + length body) ≡ suc (suc (length body)) = omega arith in
      let at : drop (length body) (body ++ encode os ++ rest) ≡ encode os ++ rest =
        ap (drop (length body)) (append_assoc body (encode os) rest)
        ∙ drop_body body (encode os ++ rest) in
      let la = length-append body (encode os) in
      rw (z, k0, k1, skip, at)
        (read_options-Unseen n (i - 1 - suc (suc (length body))) os rest
          (take_option kind (2 + length body) (body ++ encode os ++ rest) tcph) a.1
          (omega (arith, le, la))
          (take_option-Unseen kind (2 + length body) (body ++ encode os ++ rest) tcph b.1 u))
]

-- The options with the window scale `w`, and what stands behind it.
abbrev pub with_scale : List Item → ℕ → List ℕ → List ℕ
with_scale os w behind = encode os ++ 3 ∷ 3 ∷ w ∷ behind

length-with_scale :
    (os : List Item) (w : ℕ) (behind : List ℕ)
    → length (with_scale os w behind) ≡ length (encode os) + 3 + length behind
length-with_scale os w behind = omega (arith, length-append (encode os) (3 ∷ 3 ∷ w ∷ behind))

-- Of a segment with the option window scale, ntohtcp does not see it if at least three other
-- options with a length stand before it, and one more for each byte of options behind it. These
-- may be of any other kinds and contents, with fillers between them. The header is complete and
-- its length field is right, the packet has less than 2^32 bytes, and ntohtcp returns the length
-- of the header as if nothing were wrong.
pub ntohtcp-Unseen :
    (stale fixed : List ℕ) (os : List Item) (w : ℕ) (behind payload : List ℕ) (p : Packet)
    → length fixed ≡ 20
    → bit_and (get_or fixed 12 0) 0xf0 / 4 ≡ 20 + length (with_scale os w behind)
    → contents p ≡ fixed ++ (with_scale os w behind ++ payload)
    → length (contents p) < 2 ^ 32
    → All IsOther os
    → 3 + length behind ≤ lengthy os
    → let r = ntohtcp stale p in
      (r.0 ≡ some (20 + length (with_scale os w behind))) × Unseen r.1 × (contents r.2 ≡ payload)
unfolding ntohtcp
ntohtcp-Unseen stale fixed os w behind payload p lf ll e lp a le =
    let area = with_scale os w behind in
    let m = length area in
    let r = pullup tcplen p in
    let k = pullup-contents 20 p in
    let buf : r.buf ≡ fixed =
      k.0
      ∙ ap (take 20) e
      ∙ take-append_le 20 fixed (area ++ payload) (omega (arith, lf))
      ∙ take_all 20 fixed (omega (arith, lf)) in
    let rest : contents r.rest ≡ area ++ payload =
      k.1 ∙ ap (drop 20) e ∙ drop-append_past 20 0 fixed (area ++ payload) (omega (arith, lf)) in
    let len : bit_and (get_or r.buf 12 0) 0xf0 / 2 ^ 2 ≡ 20 + m =
      ap (λ (b : List ℕ). bit_and (get_or b 12 0) 0xf0 / 4) buf ∙ ll in
    let total = length-append fixed (area ++ payload) in
    let la = length-append area payload in
    let sc = length-with_scale os w behind in
    let whole : (ltb r.tot tcplen || ltb (20 + m) tcplen) ≡ false =
      ground (arith, k.2, ap length e, total, lf) in
    let n : 20 + m - tcplen ≡ m = omega arith in
    let full : (m == 0) ≡ false = ground (arith, sc) in
    let fits : ltb (len_p r.rest) m ≡ false =
      let g : length (contents r.rest) < 2 ^ 32 =
        omega (arith, ap length rest, la, ap length e, total, lp) in
      ground (arith, len_p-contents r.rest g, ap length rest, la) in
    let k' = pullup-contents m r.rest in
    let o : (pullup m r.rest).buf ≡ area =
      k'.0
      ∙ ap (take m) rest
      ∙ take-append_le m area payload (omega arith)
      ∙ take_all m area (omega arith) in
    let left : contents (pullup m r.rest).rest ≡ payload =
      k'.1 ∙ ap (drop m) rest ∙ drop-append_past m 0 area payload (omega arith) in
    let scan : area ++ stale ≡ encode os ++ ((3 ∷ 3 ∷ w ∷ behind) ++ stale) =
      append_assoc (encode os) (3 ∷ 3 ∷ w ∷ behind) stale in
    rw (ntohtcp, len, whole, n, full, fits)
      (
        refl,
        subst (λ (x : List ℕ). Unseen (read_options m m (x ++ stale) (read_fixed r.buf))) (sym o)
            (subst (λ (x : List ℕ). Unseen (read_options m m x (read_fixed r.buf))) (sym scan)
              (read_options-Unseen m m os ((3 ∷ 3 ∷ w ∷ behind) ++ stale) (read_fixed r.buf) a
                (omega (arith, sc, le)) (fixed_lem r.buf))),
        left,
      )
