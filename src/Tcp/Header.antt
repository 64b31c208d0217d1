-- ===== src/Tcp/Header.antt =====
-- net/inet/tcphdr.c: `htontcp` and `ntohtcp`. The checksum of a packet with its pseudo-header is the
-- function `cksum`, a parameter here. `stale` is what the local array for options holds before they
-- are copied, and the memory behind it.
pub mod Flags
pub mod Options
pub mod RoundTrip
pub mod Lost
mod Tests
use ka9q_unix.Base.{
  ℕ, zero, suc, ◌+◌, ◌-◌, ◌*◌, ◌/◌, ◌^◌, Bool, true, false, not, ltb, ◌==◌, ◌||◌, List, [], ◌∷◌,
  ◌++◌, take, drop, length, max, replicate, get_or, Option, none, some, if◌then◌else◌, bit_and,
  bit_or,
}
use ka9q_unix.Base.Word.{u8, u16, u32}
use ka9q_unix.Bytes.{put16, put32, get16, get32}
use ka9q_unix.Mbuf.{Packet}
use ka9q_unix.Mbuf.Chain.{pushdown, pullup, len_p}
use ka9q_unix.Tcp.{Tcp, TcpFlags}

abbrev pub tcplen : ℕ
tcplen = 20

-- Rounded up to a multiple of 4.
unfoldable pub size_with : Bool → Bool → Bool → ℕ
size_with mss tstamp wscale =
    bit_and
      (tcplen + (if mss then 4 else 0) + (if tstamp then 10 else 0) + (if wscale then 3 else 0) + 3)
      0xfc

abbrev pub hdrlen : Tcp → ℕ
hdrlen tcph = size_with tcph.flags.has_mss tcph.flags.has_tstamp tcph.flags.has_wscale

abbrev pub set_bit : Bool → ℕ → ℕ → ℕ
set_bit flag bit c = if flag then bit_or c bit else c

unfoldable pub flag_byte : Bool → Bool → Bool → Bool → Bool → Bool → Bool → ℕ
flag_byte congest urg ack psh rst syn fin = set_bit fin 1 (
    set_bit syn 2
      (set_bit rst 4 (set_bit psh 8 (set_bit ack 16 (set_bit urg 32 (set_bit congest 64 0))))))

unfoldable pub options_with : Bool → Bool → Bool → Tcp → List ℕ
options_with mss tstamp wscale tcph =
    (if mss then 2 ∷ 4 ∷ put16 tcph.mss [] else [])
    ++ (if tstamp then 8 ∷ 10 ∷ put32 tcph.tsval (put32 tcph.tsecr []) else [])
    ++ (if wscale then 3 ∷ 3 ∷ u8 tcph.wsopt ∷ [] else [])

abbrev pub options : Tcp → List ℕ
options tcph = options_with tcph.flags.has_mss tcph.flags.has_tstamp tcph.flags.has_wscale tcph

-- The bytes that are written, with the checksum given; the header is cleared first.
unfoldable pub tcp_header : Tcp → ℕ → List ℕ
unfolding flag_byte
tcp_header tcph sum =
    let f = tcph.flags in
    let padding = replicate (hdrlen tcph - tcplen - length (options tcph)) 0 in
    put16 tcph.source (
      put16 tcph.dest (
        put32 tcph.seq (
          put32 tcph.ack (
            u8 (hdrlen tcph * 2 ^ 2)
            ∷ u8 (flag_byte f.congest f.urg f.ack f.psh f.rst f.syn f.fin)
            ∷ put16 tcph.wnd (put16 sum (put16 tcph.up (options tcph ++ padding)))))))

-- `put16` at the seventeenth byte of the first mbuf.
unfoldable pub put_checksum : ℕ → Packet → Packet
put_checksum sum [] = []
put_checksum sum (b ∷ p) = record b { bytes = take 16 b.bytes ++ put16 sum (drop 18 b.bytes) } ∷ p

unfoldable pub htontcp : (Packet → ℕ → ℕ) → List ℕ → Tcp → Packet → Packet
unfolding tcp_header put_checksum
htontcp cksum stale tcph p =
    let q = pushdown stale (some (tcp_header tcph tcph.checksum)) (hdrlen tcph) p in
    if tcph.checksum == 0 then put_checksum (cksum q (len_p q)) q else q

-- An option with its length, and the bytes behind it.
unfoldable pub take_option : ℕ → ℕ → List ℕ → Tcp → Tcp
take_option kind optlen cp tcph =
    let with_mss = record tcph.flags { has_mss = true } in
    let with_wscale = record tcph.flags { has_wscale = true } in
    let with_tstamp = record tcph.flags { has_tstamp = true } in
    if kind == 2
    then (if optlen == 4 then record tcph { mss = get16 cp 0; flags = with_mss } else tcph)
    else if kind == 3
    then (if optlen == 3 then record tcph { wsopt = get_or cp 0 0; flags = with_wscale } else tcph)
    else if kind == 8
    then (if optlen == 10
        then record tcph { tsval = get32 cp 0; tsecr = get32 cp 4; flags = with_tstamp }
        else tcph)
    else tcph

-- The loop over the options: `i` bytes are left by the count of the code. It ends within `n` rounds
-- if `n` is at least `i`, since each round counts down.
unfoldable pub read_options : ℕ → ℕ → List ℕ → Tcp → Tcp
unfolding take_option
read_options zero i cp tcph = tcph
read_options (suc n) i cp tcph =
    let kind = get_or cp 0 0 in
    let optlen = get_or cp 1 0 in
    let skip = max 2 optlen in
    let single = read_options n (i - 1) (drop 1 cp) tcph in
    let rest =
      read_options n (i - 1 - skip) (drop skip cp) (take_option kind optlen (drop 2 cp) tcph) in
    if i == 0 || kind == 0 then tcph else if kind == 1 then single else rest

unfoldable pub read_fixed : List ℕ → Tcp
read_fixed hdrbuf =
    let flags = get_or hdrbuf 13 0 in
    record {
      source = get16 hdrbuf 0;
      dest = get16 hdrbuf 2;
      seq = get32 hdrbuf 4;
      ack = get32 hdrbuf 8;
      wnd = get16 hdrbuf 14;
      checksum = get16 hdrbuf 16;
      up = get16 hdrbuf 18;
      mss = 0;
      wsopt = 0;
      tsval = 0;
      tsecr = 0;
      flags = record {
        congest = not (bit_and flags 64 == 0);
        urg = not (bit_and flags 32 == 0);
        ack = not (bit_and flags 16 == 0);
        psh = not (bit_and flags 8 == 0);
        rst = not (bit_and flags 4 == 0);
        syn = not (bit_and flags 2 == 0);
        fin = not (bit_and flags 1 == 0);
        has_mss = false;
        has_wscale = false;
        has_tstamp = false;
      };
    }

-- The length of the header, `none` for -1, with the header and what is left of the packet. The fields
-- of a header that is cut short are filled in from what there is of it.
unfoldable pub ntohtcp : List ℕ → Packet → Option ℕ × Tcp × Packet
unfolding read_options read_fixed
ntohtcp stale p =
    let r = pullup tcplen p in
    let tcph = read_fixed r.buf in
    let len = bit_and (get_or r.buf 12 0) 0xf0 / 2 ^ 2 in
    let optlen = len - tcplen in
    let o = pullup optlen r.rest in
    if ltb r.tot tcplen || ltb len tcplen
    then (none, tcph, r.rest)
    else if optlen == 0
    then (some len, tcph, r.rest)
    else if ltb (len_p r.rest) optlen
    then (none, tcph, r.rest)
    else (some len, read_options optlen optlen (o.buf ++ stale) tcph, o.rest)
