-- ===== src/Ax25.antt =====
-- net/ax25/ax25hdr.c: `htonax25` and `ntohax25`, with `addreq` of net/ax25/ax25subr.c. An address is a list of
-- seven bytes, the last of which holds the SSID and the bits C (or REPEATED) and E. The digipeaters are
-- the `ndigis` first entries of the array. `none` is the result -1.
pub mod Bits
pub mod Digis
pub mod RoundTrip
mod Tests
use ka9q_unix.Base.{
  ℕ, zero, suc, ◌+◌, ◌-◌, ◌*◌, Bool, true, false, not, ltb, ◌==◌, ◌&&◌, List, [], ◌∷◌, ◌++◌, length,
  take, get_or, Option, none, some, if◌then◌else◌, bit_and, bit_or, bit_xor, drop,
}
use ka9q_unix.Mbuf.{Packet}
use ka9q_unix.Mbuf.Chain.{pushdown, pullup}

pub data CmdRsp : Type 0 where
  lapb_unknown : CmdRsp
  lapb_command : CmdRsp
  lapb_response : CmdRsp

pub record Ax25 : Type 0 where
  pub dest : List ℕ
  pub source : List ℕ
  pub digis : List (List ℕ)
  pub nextdigi : ℕ
  pub cmdrsp : CmdRsp

abbrev pub is_command : CmdRsp → Bool
is_command lapb_command = true
is_command _ = false

abbrev pub is_response : CmdRsp → Bool
is_response lapb_response = true
is_response _ = false

-- Bits of a byte: `|=` and `&= ~` in one, then E and REPEATED, and whether a bit is on.
unfoldable pub put_bit : Bool → ℕ → ℕ → ℕ
put_bit on mask x = if on then bit_or x mask else bit_and x (255 - mask)

unfoldable pub has_bit : ℕ → List ℕ → Bool
has_bit mask a = not (bit_and (get_or a 6 0) mask == 0)

-- An address with its last byte changed.
unfoldable pub with_ssid : (ℕ → ℕ) → List ℕ → List ℕ
with_ssid f a = take 6 a ++ f (get_or a 6 0) ∷ []

abbrev pub is_none : List (List ℕ) → Bool
is_none [] = true
is_none (x ∷ xs) = false

unfoldable pub digi_fields : ℕ → List (List ℕ) → List ℕ
unfolding with_ssid put_bit
digi_fields next [] = []
digi_fields next (d ∷ ds) =
    with_ssid (λ x. put_bit (ltb 0 next) 0x80 (put_bit (is_none ds) 1 x)) d
    ++ digi_fields (next - 1) ds

unfoldable pub dest_field : Ax25 → List ℕ
unfolding with_ssid put_bit
dest_field hdr = with_ssid (λ x. put_bit false 1 (put_bit (is_command hdr.cmdrsp) 0x80 x)) hdr.dest

-- Without digipeaters E is set; with them it is left as it is.
unfoldable pub source_field : Ax25 → List ℕ
unfolding with_ssid put_bit
source_field hdr =
    with_ssid
      (λ x.
        let y = put_bit (is_response hdr.cmdrsp) 0x80 x in
        if is_none hdr.digis then put_bit true 1 y else y)
      hdr.source

unfoldable pub htonax25 : List ℕ → Ax25 → Packet → Packet
unfolding digi_fields dest_field source_field
htonax25 stale hdr p =
    let fields = dest_field hdr ++ (source_field hdr ++ digi_fields hdr.nextdigi hdr.digis) in
    if ltb 7 (length hdr.digis)
    then p
    else pushdown stale (some fields) (7 * (2 + length hdr.digis)) p

-- The loop over the digipeaters, for at most `n` more.
unfoldable pub read_digis : ℕ → Ax25 → Packet → Option ℕ × Ax25 × Packet
unfolding has_bit
read_digis zero hdr p = (none, hdr, p)
read_digis (suc n) hdr p =
    let r = pullup 7 p in
    let hdr' = record hdr {
      digis = hdr.digis ++ r.buf ∷ [];
      nextdigi = if has_bit 0x80 r.buf then hdr.nextdigi + 1 else hdr.nextdigi;
    } in
    let rest = read_digis n hdr' r.rest in
    if not (r.tot == 7)
    then (none, hdr, r.rest)
    else if has_bit 1 r.buf
    then (some (length hdr'.digis + 2), hdr', r.rest)
    else rest

unfoldable pub read_cmdrsp : List ℕ → List ℕ → CmdRsp
unfolding has_bit
read_cmdrsp dest source =
    if (if has_bit 0x80 source then has_bit 0x80 dest else not (has_bit 0x80 dest))
    then lapb_unknown
    else if has_bit 0x80 source
    then lapb_response
    else lapb_command

-- The bytes that a short packet leaves in an array.
abbrev pub overlay : List ℕ → List ℕ → List ℕ
overlay new old = new ++ drop (length new) old

unfoldable pub ntohax25 : Ax25 → Packet → Option ℕ × Ax25 × Packet
unfolding read_digis read_cmdrsp
ntohax25 hdr p =
    let d = pullup 7 p in
    let s = pullup 7 d.rest in
    let hdr' : Ax25 = record {
      dest = d.buf;
      source = s.buf;
      digis = [];
      nextdigi = 0;
      cmdrsp = read_cmdrsp d.buf s.buf;
    } in
    if ltb d.tot 7
    then (none, record hdr { dest = overlay d.buf hdr.dest }, d.rest)
    else if ltb s.tot 7
    then (none, record hdr { dest = d.buf; source = overlay s.buf hdr.source }, s.rest)
    else if has_bit 1 s.buf
    then (some 2, hdr', s.rest)
    else read_digis 7 hdr' s.rest

unfoldable pub equal_bytes : List ℕ → List ℕ → Bool
equal_bytes [] [] = true
equal_bytes [] (y ∷ ys) = false
equal_bytes (x ∷ xs) [] = false
equal_bytes (x ∷ xs) (y ∷ ys) = x == y && equal_bytes xs ys

-- Two addresses are equal but for the bits beside the SSID.
unfoldable pub addreq : List ℕ → List ℕ → Bool
unfolding equal_bytes
addreq a b =
    equal_bytes (take 6 a) (take 6 b) && bit_and (bit_xor (get_or a 6 0) (get_or b 6 0)) 0x1e == 0
