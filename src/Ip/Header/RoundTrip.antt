-- ===== src/Ip/Header/RoundTrip.antt =====
-- A header that htonip wrote is read back by ntohip.
use ka9q_unix.Base.{
  ℕ, ◌+◌, ◌-◌, ◌*◌, ◌^◌, ◌≡◌, Bool, true, false, not, ltb, ◌==◌, List, [], ◌∷◌, ◌++◌, take, drop,
  min, length, get_or, Option, some, if◌then◌else◌, bit_and, refl, sym, ap, ap₂, ◌∙◌, arith, inl,
  inr, ◌&&◌, leb, Bool-cases, take_all, take-append_le, length-take, drop-append_past,
  length-append,
}
use native.Mathlib.Decide.{ℕ_discrete}
use ka9q_unix.Base.Word.{IsU16}
use ka9q_unix.Bytes.{put16, put32}
use ka9q_unix.Mbuf.{Packet, contents}
use ka9q_unix.Mbuf.Chain.{pushdown, pullup, push_front}
use ka9q_unix.Mbuf.Chain.Contents.{pullup-contents}
use ka9q_unix.Mbuf.Chain.Front.{pushdown-contents}
use ka9q_unix.Ip.{Ip, iplen}
use ka9q_unix.Ip.Header.{hdr_len, header, put_sum, htonip, parse, ntohip, ip_maxopt}
use ka9q_unix.Ip.Header.Fields.{IsHeader, hdr_len_lem, parse-header, length_word}

header-length : (ip : Ip) (sum : ℕ) → IsHeader ip → length (header ip sum) ≡ hdr_len ip
unfolding header put16 put32
header-length ip sum h =
    let l = length-take (min ip.optlen ip_maxopt) ip.options in
    ground (arith, hdr_len_lem ip h, h.options, l)

put_sum-push_front :
    (ip : Ip) (sum n : ℕ) (p : Packet)
    → put_sum sum (push_front (header ip 0) n p) ≡ push_front (header ip sum) n p
unfolding put_sum push_front header put16 put32
put_sum-push_front ip sum n [] = refl
put_sum-push_front ip sum n (b ∷ p) =
    elim (Bool-cases (b.refcnt == 1 && not b.is_dup && leb n b.room)) [
      | inl e ↦ rw e refl
      | inr e ↦ rw e refl
    ]

-- The checksum that htonip writes: the header's own, or that of the packet with none in it.
abbrev pub sum_sent : (Packet → ℕ → ℕ) → List ℕ → Ip → Packet → Bool → ℕ
sum_sent cksum stale ip p cflag =
    let n = hdr_len ip in
    if cflag then ip.checksum else cksum (pushdown stale (some (header ip 0)) n p) n

sum_small :
    (cksum : Packet → ℕ → ℕ) (stale : List ℕ) (ip : Ip) (p : Packet) (cflag : Bool)
    → IsHeader ip
    → ((q : Packet) (n : ℕ) → IsU16 (cksum q n))
    → IsU16 (sum_sent cksum stale ip p cflag)
sum_small cksum stale ip p true h u = h.checksum
sum_small cksum stale ip p false h u =
    u (pushdown stale (some (header ip 0)) (hdr_len ip) p) (hdr_len ip)

put_sum-pushdown :
    (stale : List ℕ) (ip : Ip) (sum : ℕ) (p : Packet)
    → IsHeader ip
    → put_sum sum (pushdown stale (some (header ip 0)) (hdr_len ip) p)
      ≡ pushdown stale (some (header ip sum)) (hdr_len ip) p
unfolding pushdown
put_sum-pushdown stale ip sum p h =
    let n : (hdr_len ip == 0) ≡ false = ground (arith, hdr_len_lem ip h) in
    rw n (put_sum-push_front ip sum (hdr_len ip) p)

htonip_lem :
    (cksum : Packet → ℕ → ℕ) (stale : List ℕ) (ip : Ip) (p : Packet) (cflag : Bool)
    → IsHeader ip
    → htonip cksum stale ip p cflag
      ≡ pushdown stale (some (header ip (sum_sent cksum stale ip p cflag))) (hdr_len ip) p
unfolding htonip
htonip_lem cksum stale ip p true h = refl
htonip_lem cksum stale ip p false h =
    put_sum-pushdown stale ip (sum_sent cksum stale ip p false) p h

htonip-contents :
    (cksum : Packet → ℕ → ℕ) (stale : List ℕ) (ip : Ip) (p : Packet) (cflag : Bool)
    → IsHeader ip
    → contents (htonip cksum stale ip p cflag)
      ≡ header ip (sum_sent cksum stale ip p cflag) ++ contents p
htonip-contents cksum stale ip p cflag h =
    let new = header ip (sum_sent cksum stale ip p cflag) in
    ap contents (htonip_lem cksum stale ip p cflag h)
    ∙ ap (λ (n : ℕ). contents (pushdown stale (some new) n p))
        (sym (header-length ip (sum_sent cksum stale ip p cflag) h))
    ∙ pushdown-contents stale new p

no_items : (xs : List ℕ) → length xs ≡ 0 → xs ≡ []
no_items [] e = refl
no_items (x ∷ xs) e = absurd (omega arith)

-- The bytes behind the fixed part.
header-options :
    (ip : Ip) (sum : ℕ) (c : List ℕ) → IsHeader ip → drop 20 (header ip sum ++ c) ≡ ip.options ++ c
unfolding header put16 put32
header-options ip sum c h = elim (ℕ_discrete ip.optlen 0) [
  | yes z ↦
      let e : ip.options ≡ [] = no_items ip.options (h.options ∙ z) in
      let b : (ip.optlen == 0) ≡ true = ground arith in rw (b, e) refl
  | no n ↦
      let b : (ip.optlen == 0) ≡ false = ground arith in
      let m = take_all (min ip.optlen ip_maxopt) ip.options (omega (arith, h.max, h.options)) in
      rw (b, m) refl
]

take_fixed :
    (ip : Ip) (sum : ℕ) (c : List ℕ) → take 20 (header ip sum ++ c) ≡ take 20 (header ip sum)
unfolding header put16 put32
take_fixed ip sum c = refl

ntohip-header :
    (q : Packet) (ip : Ip) (sum : ℕ) (c : List ℕ)
    → IsHeader ip
    → IsU16 sum
    → contents q ≡ header ip sum ++ c
    → ((ntohip q).0 ≡ some (20 + ip.optlen, record ip { checksum = sum }))
      × (contents (ntohip q).1 ≡ c)
unfolding ntohip
ntohip-header q ip sum c h hs e =
    let r = pullup iplen q in
    let k = pullup-contents 20 q in
    let buf : r.buf ≡ take 20 (header ip sum) = k.0 ∙ ap (take 20) e ∙ take_fixed ip sum c in
    let len = length-append (header ip sum) c in
    let tot : (r.tot == iplen) ≡ true =
      ground (arith, k.2, ap length e, len, header-length ip sum h, hdr_len_lem ip h) in
    let rest : contents r.rest ≡ ip.options ++ c =
      k.1 ∙ ap (drop 20) e ∙ header-options ip sum c h in
    let ihl : bit_and (get_or r.buf 0 0) 0xf * 2 ^ 2 ≡ 20 + ip.optlen =
      ap (λ (b : List ℕ). bit_and (get_or b 0 0) 0xf * 2 ^ 2) buf ∙ length_word ip sum h in
    let answer : Ip → Option (ℕ × Ip) = λ i. some (20 + ip.optlen, i) in
    let short : ltb (20 + ip.optlen) iplen ≡ false = ground arith in
    let opt : 20 + ip.optlen - iplen ≡ ip.optlen = omega arith in
    let k' = pullup-contents ip.optlen r.rest in
    let ps = parse-header ip sum h hs in
    elim (ℕ_discrete ip.optlen 0) [
      | yes z ↦
          let b : (ip.optlen == 0) ≡ true = ground arith in
          let nil = no_items ip.options (h.options ∙ z) in
          rw (ntohip, tot, ihl, short, opt, b)
            (
              ap answer (
                  ap (λ (x : List ℕ). parse x 0 []) buf
                  ∙ ap₂ (parse (take 20 (header ip sum))) (sym z) (sym nil)
                  ∙ ps),
              rest ∙ ap (λ (x : List ℕ). x ++ c) nil,
            )
      | no n ↦
          let b : (ip.optlen == 0) ≡ false = ground arith in
          let l' = length-append ip.options c in
          let o : (pullup ip.optlen r.rest).buf ≡ ip.options =
            k'.0
            ∙ ap (take ip.optlen) rest
            ∙ take-append_le ip.optlen ip.options c (omega (arith, h.options))
            ∙ take_all ip.optlen ip.options (omega (arith, h.options)) in
          let t : ltb (pullup ip.optlen r.rest).tot ip.optlen ≡ false =
            ground (arith, k'.2, ap length rest, l', h.options) in
          rw (ntohip, tot, ihl, short, opt, b, t)
            (
              ap answer (ap₂ (λ (x y : List ℕ). parse x ip.optlen y) buf o ∙ ps),
              k'.1
                  ∙ ap (drop ip.optlen) rest
                  ∙ drop-append_past ip.optlen 0 ip.options c (omega (arith, h.options)),
            )
    ]

-- A header in range with whole words of options comes back: ntohip takes off what htonip put in
-- front of a packet, and returns the length of the header and all its fields, the checksum being the
-- one that was sent; what is left of the packet is what was there before. It is assumed that the
-- checksum function returns 16 bits.
pub ntohip-htonip :
    (cksum : Packet → ℕ → ℕ) (stale : List ℕ) (ip : Ip) (p : Packet) (cflag : Bool)
    → IsHeader ip
    → ((q : Packet) (n : ℕ) → IsU16 (cksum q n))
    → let r = ntohip (htonip cksum stale ip p cflag) in
      (r.0 ≡ some (20 + ip.optlen, record ip { checksum = sum_sent cksum stale ip p cflag }))
      × (contents r.1 ≡ contents p)
ntohip-htonip cksum stale ip p cflag h u =
    ntohip-header (htonip cksum stale ip p cflag) ip (sum_sent cksum stale ip p cflag) (contents p)
      h (sum_small cksum stale ip p cflag h u) (htonip-contents cksum stale ip p cflag h)
