-- ===== src/Ip/Header.antt =====
-- net/inet/iphdr.c: `htonip` and `ntohip`. The checksum of a packet's first bytes is a parameter, the
-- function `cksum` of the same file. `stale` is what a fresh mbuf holds before it is written.
pub mod Flags
pub mod Fields
pub mod RoundTrip
mod Tests
use ka9q_unix.Base.{
  ℕ, ◌+◌, ◌-◌, ◌*◌, ◌/◌, ◌^◌, Bool, true, false, not, ltb, ◌==◌, List, [], ◌∷◌, ◌++◌, take, drop,
  min, get_or, Option, none, some, if◌then◌else◌, bit_and, bit_or,
}
use ka9q_unix.Base.Word.{u8, u16}
use ka9q_unix.Bytes.{put16, put32, get16, get32}
use ka9q_unix.Mbuf.{Packet}
use ka9q_unix.Mbuf.Chain.{pushdown, pullup}
use ka9q_unix.Ip.{Ip, IpFlags, iplen}

abbrev pub ip_maxopt : ℕ
ip_maxopt = 40

unfoldable pub hdr_len : Ip → ℕ
hdr_len ip = let n = iplen + ip.optlen in if ltb (iplen + ip_maxopt) n then iplen + ip_maxopt else n

-- The offset in units of eight bytes, with the flags above it.
unfoldable pub fl_offs : Ip → ℕ
fl_offs ip =
    let offs = ip.offset / 2 ^ 3 in
    let with_congest = if ip.flags.congest then bit_or offs 0x8000 else offs in
    let with_df = if ip.flags.df then bit_or with_congest 0x4000 else with_congest in
    if ip.flags.mf then bit_or with_df 0x2000 else with_df

-- The bytes that are written, with the checksum given.
unfoldable pub header : Ip → ℕ → List ℕ
unfolding hdr_len fl_offs
header ip sum =
    let options = if ip.optlen == 0 then [] else take (min ip.optlen ip_maxopt) ip.options in
    u8 (bit_or (ip.version * 2 ^ 4) (hdr_len ip / 2 ^ 2))
    ∷ u8 ip.tos
    ∷ put16 ip.length (
        put16 ip.id (
          put16 (fl_offs ip)
            (u8 ip.ttl ∷ u8 ip.protocol ∷ put16 sum (put32 ip.source (put32 ip.dest options)))))

-- `put16` at the eleventh byte of the first mbuf.
unfoldable pub put_sum : ℕ → Packet → Packet
put_sum sum [] = []
put_sum sum (b ∷ p) = record b { bytes = take 10 b.bytes ++ put16 sum (drop 12 b.bytes) } ∷ p

unfoldable pub htonip : (Packet → ℕ → ℕ) → List ℕ → Ip → Packet → Bool → Packet
unfolding header put_sum
htonip cksum stale ip p cflag =
    let n = hdr_len ip in
    let q = pushdown stale (some (header ip (if cflag then ip.checksum else 0))) n p in
    if cflag then q else put_sum (cksum q n) q

-- The fixed part of a header, with the options still to come.
unfoldable pub parse : List ℕ → ℕ → List ℕ → Ip
parse ipbuf optlen options =
    let fl = get16 ipbuf 6 in
    record {
      version = bit_and (get_or ipbuf 0 0 / 2 ^ 4) 0xf;
      tos = get_or ipbuf 1 0;
      length = get16 ipbuf 2;
      id = get16 ipbuf 4;
      offset = bit_and fl 0x1fff * 2 ^ 3;
      flags = record {
        mf = not (bit_and fl 0x2000 == 0);
        df = not (bit_and fl 0x4000 == 0);
        congest = not (bit_and fl 0x8000 == 0);
      };
      ttl = get_or ipbuf 8 0;
      protocol = get_or ipbuf 9 0;
      checksum = get16 ipbuf 10;
      source = get32 ipbuf 12;
      dest = get32 ipbuf 16;
      optlen = optlen;
      options = options;
    }

-- `none` is -1; otherwise the length of the header and the header. What is left of the packet.
unfoldable pub ntohip : Packet → Option (ℕ × Ip) × Packet
unfolding parse
ntohip p =
    let r = pullup iplen p in
    let ihl = bit_and (get_or r.buf 0 0) 0xf * 2 ^ 2 in
    let o = pullup (ihl - iplen) r.rest in
    if not (r.tot == iplen)
    then (none, r.rest)
    else if ltb ihl iplen
    then (none, r.rest)
    else if ihl - iplen == 0
    then (some (ihl, parse r.buf 0 []), r.rest)
    else if ltb o.tot (ihl - iplen)
    then (none, o.rest)
    else (some (ihl, parse r.buf (ihl - iplen) o.buf), o.rest)
