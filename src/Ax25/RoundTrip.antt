-- ===== src/Ax25/RoundTrip.antt =====
-- An AX.25 header comes back as it was sent.
use ka9q_unix.Base.{
  ℕ, ◌+◌, ◌*◌, ◌-◌, ◌≤◌, ◌≡◌, Bool, true, false, ltb, ◌==◌, List, [], ◌∷◌, ◌++◌, length, get_or,
  append_assoc, length-append, All, Option, some, if◌then◌else◌, bit_and, refl, sym, ap, ◌∙◌, arith,
}
use ka9q_unix.Mbuf.{Packet, contents}
use ka9q_unix.Mbuf.Chain.{pullup}
use ka9q_unix.Mbuf.Chain.Front.{pushdown-contents}
use ka9q_unix.Ax25.{
  Ax25, CmdRsp, lapb_unknown, lapb_command, lapb_response, is_command, is_response, is_none,
  put_bit, has_bit, with_ssid, digi_fields, dest_field, source_field, htonax25, read_digis,
  read_cmdrsp, ntohax25, addreq,
}
use ka9q_unix.Ax25.Bits.{
  IsAddress, Marked, with_ssid-Marked, marked_dest, marked_source, marked_kept,
}
use ka9q_unix.Ax25.Digis.{
  Copies, done, mark_digi, mark_digi-Marked, pull-address, Reads, result_lem, read_digis-Reads,
}

-- A header with at most seven digipeaters, whose source address has E off.
pub record IsHeader (hdr : Ax25) : Type 0 where
  pub dest : IsAddress hdr.dest
  pub source : IsAddress hdr.source
  pub low : (bit_and (get_or hdr.source 6 0) 1 == 0) ≡ true
  pub digis : All IsAddress hdr.digis
  pub count : length hdr.digis ≤ 7
  pub next : hdr.nextdigi ≤ length hdr.digis

-- A header that says the same: equal addresses, as many digipeaters that have repeated, and the same kind.
pub record Says (hdr hdr' : Ax25) : Type 0 where
  pub dest : addreq hdr.dest hdr'.dest ≡ true
  pub source : addreq hdr.source hdr'.source ≡ true
  pub digis : Copies hdr.nextdigi hdr.digis hdr'.digis
  pub next : hdr'.nextdigi ≡ hdr.nextdigi
  pub cmdrsp : hdr'.cmdrsp ≡ hdr.cmdrsp

dest-Marked :
    (hdr : Ax25) → IsHeader hdr → Marked (is_command hdr.cmdrsp) false hdr.dest (dest_field hdr)
unfolding dest_field
dest-Marked hdr h =
    with_ssid-Marked (is_command hdr.cmdrsp) false
      (λ x. put_bit false 1 (put_bit (is_command hdr.cmdrsp) 0x80 x)) hdr.dest h.dest
      (marked_dest (is_command hdr.cmdrsp) (get_or hdr.dest 6 0) h.dest.ssid)

source_bits :
    (c n : Bool) (a : List ℕ)
    → IsAddress a
    → (bit_and (get_or a 6 0) 1 == 0) ≡ true
    → Marked c n a
        (with_ssid (λ x. let y = put_bit c 0x80 x in if n then put_bit true 1 y else y) a)
source_bits c true a h low =
    with_ssid-Marked c true (λ x. put_bit true 1 (put_bit c 0x80 x)) a h
      (marked_source c (get_or a 6 0) h.ssid)
source_bits c false a h low =
    with_ssid-Marked c false (put_bit c 0x80) a h (marked_kept c (get_or a 6 0) h.ssid low)

source-Marked :
    (hdr : Ax25)
    → IsHeader hdr
    → Marked (is_response hdr.cmdrsp) (is_none hdr.digis) hdr.source (source_field hdr)
unfolding source_field
source-Marked hdr h =
    source_bits (is_response hdr.cmdrsp) (is_none hdr.digis) hdr.source h.source h.low

cmdrsp_lem :
    (k : CmdRsp) (d s : List ℕ)
    → has_bit 0x80 d ≡ is_command k
    → has_bit 0x80 s ≡ is_response k
    → read_cmdrsp d s ≡ k
unfolding read_cmdrsp
cmdrsp_lem lapb_unknown d s e f = rw (e, f) refl
cmdrsp_lem lapb_command d s e f = rw (e, f) refl
cmdrsp_lem lapb_response d s e f = rw (e, f) refl

-- What is read where a header `hdr` was put in front of `rest`.
pub GivesBack : Ax25 → List ℕ → Option ℕ × Ax25 × Packet → Type 0
GivesBack hdr rest r =
    (hdr' : Ax25) × ((q : Packet) × ((r ≡ (some (length hdr.digis + 2), hdr', q))
        × ((contents q ≡ rest) × Says hdr hdr')))

front_lem :
    (old : Ax25) (p : Packet) (d s rest : List ℕ) (e : Bool) (k : CmdRsp)
    → length d ≡ 7
    → length s ≡ 7
    → has_bit 1 s ≡ e
    → read_cmdrsp d s ≡ k
    → contents p ≡ d ++ (s ++ rest)
    → let q = (pullup 7 (pullup 7 p).rest).rest in
      let hdr' : Ax25 = record { dest = d; source = s; digis = []; nextdigi = 0; cmdrsp = k } in
      (contents q ≡ rest)
      × (ntohax25 old p ≡ (if e then (some 2, hdr', q) else read_digis 7 hdr' q))
unfolding ntohax25
front_lem old p d s rest e k ld ls low kind w =
    let x = pull-address d (s ++ rest) p ld w in
    let y = pull-address s rest (pullup 7 p).rest ls x.1.1 in
    (y.1.1, rw (x.0, x.1.0, y.0, y.1.0, low, kind) refl)

length-digi_fields :
    (next : ℕ) (ds : List (List ℕ))
    → All IsAddress ds
    → length (digi_fields next ds) ≡ 7 * length ds
unfolding digi_fields mark_digi
length-digi_fields next [] hs = refl
length-digi_fields next (d ∷ ds) (h, hs) =
    let b = mark_digi-Marked next d ds h in
    let ih = length-digi_fields (next - 1) ds hs in
    let l = length-append (mark_digi next d ds) (digi_fields (next - 1) ds) in
    omega (arith, b.len, ih, l)

abbrev fields : Ax25 → List ℕ
fields hdr = dest_field hdr ++ (source_field hdr ++ digi_fields hdr.nextdigi hdr.digis)

length-fields : (hdr : Ax25) → IsHeader hdr → length (fields hdr) ≡ 7 * (2 + length hdr.digis)
length-fields hdr h =
    let a = (dest-Marked hdr h).len in
    let b = (source-Marked hdr h).len in
    let c = length-digi_fields hdr.nextdigi hdr.digis h.digis in
    let l =
      length-append (dest_field hdr) (source_field hdr ++ digi_fields hdr.nextdigi hdr.digis) in
    let m = length-append (source_field hdr) (digi_fields hdr.nextdigi hdr.digis) in
    omega (arith, a, b, c, l, m)

sent_lem :
    (stale : List ℕ) (hdr : Ax25) (p : Packet)
    → IsHeader hdr
    → contents (htonax25 stale hdr p)
      ≡ dest_field hdr ++ (source_field hdr ++ (digi_fields hdr.nextdigi hdr.digis ++ contents p))
unfolding htonax25
sent_lem stale hdr p h =
    let c : ltb 7 (length hdr.digis) ≡ false = ground (arith, h.count) in
    let l = length-fields hdr h in
    rw (c, sym l)
      (pushdown-contents stale (fields hdr) p
        ∙ append_assoc (dest_field hdr) (source_field hdr ++ digi_fields hdr.nextdigi hdr.digis)
            (contents p)
        ∙ ap (◌++◌ (dest_field hdr))
            (append_assoc (source_field hdr) (digi_fields hdr.nextdigi hdr.digis) (contents p)))

none_left : (ds : List (List ℕ)) → is_none ds ≡ true → ds ≡ []
none_left [] e = refl
none_left (d ∷ ds) e = absurd (ground (arith, e))

-- The digipeaters as they were in `ds`.
digis_lem :
    (hdr' : Ax25) (ds : List (List ℕ)) (next : ℕ) (q : Packet) (rest : List ℕ)
    → All IsAddress ds
    → length ds ≤ 7
    → next ≤ length ds
    → hdr'.digis ≡ []
    → hdr'.nextdigi ≡ 0
    → contents q ≡ digi_fields next ds ++ rest
    → (out : List (List ℕ)) × ((q' : Packet) × (((if is_none ds
              then (some 2, hdr', q)
              else read_digis 7 hdr' q)
            ≡ (some (length ds + 2), record hdr' { digis = out; nextdigi = next }, q'))
          × ((contents q' ≡ rest) × Copies next ds out)))
unfolding Reads digi_fields
digis_lem hdr' [] next q rest hs c le e n w = (
  [],
  (q, (result_lem hdr' q {j = 0} {k = 0} hdr'.digis [] refl e (omega (arith, n, le)), (w, done))),
)
digis_lem hdr' (x ∷ xs) next q rest (h, hs) c le e n w =
    let r = read_digis-Reads 7 next hdr' x xs rest q h hs (omega (arith, c)) w in
    (
      r.0,
      (
        r.1.0,
        (
          r.1.1.1.1
              ∙ result_lem hdr' r.1.0 (hdr'.digis ++ r.0) r.0 (omega (arith, ap length e))
                  (ap (λ (ys : List (List ℕ)). ys ++ r.0) e) (omega (arith, n, le)),
          (r.1.1.1.0, r.1.1.0),
        ),
      ),
    )

-- An AX.25 header whose addresses have seven bytes each, with E off in the source address, at most seven
-- digipeaters, and as many of them or fewer marked as repeated, comes back: ntohax25 takes off what
-- htonax25 put in front of a packet and returns the number of addresses and a header that says the
-- same. What is left of the packet is what was there before.
pub ntohax25-htonax25 :
    (stale : List ℕ) (old hdr : Ax25) (p : Packet)
    → IsHeader hdr
    → GivesBack hdr (contents p) (ntohax25 old (htonax25 stale hdr p))
unfolding GivesBack
ntohax25-htonax25 stale old hdr p h =
    let d = dest-Marked hdr h in
    let s = source-Marked hdr h in
    let kind = cmdrsp_lem hdr.cmdrsp (dest_field hdr) (source_field hdr) d.high s.high in
    let rest = digi_fields hdr.nextdigi hdr.digis ++ contents p in
    let packet = htonax25 stale hdr p in
    let f =
      front_lem old packet (dest_field hdr) (source_field hdr) rest (is_none hdr.digis) hdr.cmdrsp
        d.len s.len s.low kind (sent_lem stale hdr p h) in
    let start : Ax25 = record {
      dest = dest_field hdr;
      source = source_field hdr;
      digis = [];
      nextdigi = 0;
      cmdrsp = hdr.cmdrsp;
    } in
    let g =
      digis_lem start hdr.digis hdr.nextdigi (pullup 7 (pullup 7 packet).rest).rest (contents p)
        h.digis h.count h.next refl refl f.0 in
    (
      record start { digis = g.0; nextdigi = hdr.nextdigi },
      (
        g.1.0,
        (
          f.1 ∙ g.1.1.0,
          (
            g.1.1.1.0,
            record {
              dest = d.same;
              source = s.same;
              digis = g.1.1.1.1;
              next = refl;
              cmdrsp = refl;
            },
          ),
        ),
      ),
    )
