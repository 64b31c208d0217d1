-- ===== src/Ip/Header/Fields.antt =====
-- Each field of a header is read as it was written.
use ka9q_unix.Base.{
  ℕ, ◌+◌, ◌*◌, ◌/◌, ◌%◌, ◌^◌, ◌<◌, ◌≤◌, ◌≡◌, [], take, length, get_or, bit_and, bit_or, refl, ◌∙◌,
  arith,
}
use ka9q_unix.Base.Bits.{bit_or_fields, bit_and_mask}
use ka9q_unix.Base.Word.{u8, IsByte, IsU16, IsU32}
use ka9q_unix.Bytes.{put16, put32, get16, get32}
use ka9q_unix.Bytes.Laws.{get16-put16, get32-put32}
use ka9q_unix.Ip.{Ip}
use ka9q_unix.Ip.Header.{hdr_len, fl_offs, header, parse}
use ka9q_unix.Ip.Header.Flags.{flag_bits, flagged, flagged_lem, flag_bits_small, read_flags}

-- A header that has its fields in range, with whole words of options.
pub record IsHeader (ip : Ip) : Type 0 where
  pub version : ip.version < 16
  pub tos : IsByte ip.tos
  pub len : IsU16 ip.length
  pub id : IsU16 ip.id
  pub offset : IsU16 ip.offset
  pub units : ip.offset % 8 ≡ 0
  pub ttl : IsByte ip.ttl
  pub protocol : IsByte ip.protocol
  pub checksum : IsU16 ip.checksum
  pub source : IsU32 ip.source
  pub dest : IsU32 ip.dest
  pub words : ip.optlen % 4 ≡ 0
  pub max : ip.optlen ≤ 40
  pub options : length ip.options ≡ ip.optlen

fl_offs_lem :
    (ip : Ip)
    → IsHeader ip
    → fl_offs ip ≡ flag_bits ip.flags.congest ip.flags.df ip.flags.mf * 2 ^ 13 + ip.offset / 8
unfolding fl_offs flagged
fl_offs_lem ip h =
    flagged_lem ip.flags.congest ip.flags.df ip.flags.mf (ip.offset / 8) (omega (arith, h.offset))

pub hdr_len_lem : (ip : Ip) → IsHeader ip → hdr_len ip ≡ 20 + ip.optlen
unfolding hdr_len
hdr_len_lem ip h = ground (arith, h.max)

-- The first byte, which holds the version and the length in words.
first_byte :
    (v n : ℕ)
    → v < 16
    → n < 64
    → n % 4 ≡ 0
    → let b = u8 (bit_or (v * 2 ^ 4) (n / 2 ^ 2)) in
      (bit_and (b / 2 ^ 4) 0xf ≡ v) × (bit_and b 0xf * 2 ^ 2 ≡ n)
first_byte v n hv hn m =
    let e = bit_or_fields 4 v (n / 4) (omega arith) in
    let b = u8 (bit_or (v * 2 ^ 4) (n / 2 ^ 2)) in
    (omega (arith, e, bit_and_mask 4 (b / 2 ^ 4)), omega (arith, e, bit_and_mask 4 b))

pub parse-header :
    (ip : Ip) (sum : ℕ)
    → IsHeader ip
    → IsU16 sum
    → parse (take 20 (header ip sum)) ip.optlen ip.options ≡ record ip { checksum = sum }
unfolding parse header put16 put32
parse-header ip sum h hs =
    let cp = take 20 (header ip sum) in
    let v : bit_and (get_or cp 0 0 / 2 ^ 4) 0xf ≡ ip.version =
      (first_byte ip.version (hdr_len ip) h.version (omega (arith, hdr_len_lem ip h, h.max))
        (omega (arith, hdr_len_lem ip h, h.words))).0 in
    let t : u8 ip.tos ≡ ip.tos = omega (arith, h.tos) in
    let l : get16 cp 2 ≡ ip.length = get16-put16 ip.length cp [] 2 h.len refl refl in
    let i : get16 cp 4 ≡ ip.id = get16-put16 ip.id cp [] 4 h.id refl refl in
    let fl = fl_offs ip in
    let w = fl_offs_lem ip h in
    let g : get16 cp 6 ≡ fl =
      get16-put16 fl cp [] 6
        (omega (arith, w, h.offset, flag_bits_small ip.flags.congest ip.flags.df ip.flags.mf)) refl
        refl in
    let f =
      read_flags ip.flags.congest ip.flags.df ip.flags.mf (ip.offset / 8) (get16 cp 6)
        (omega (arith, h.offset)) (g ∙ w) in
    let o : bit_and (get16 cp 6) 0x1fff * 2 ^ 3 ≡ ip.offset = omega (arith, f.0, h.units) in
    let y : u8 ip.ttl ≡ ip.ttl = omega (arith, h.ttl) in
    let x : u8 ip.protocol ≡ ip.protocol = omega (arith, h.protocol) in
    let c : get16 cp 10 ≡ sum = get16-put16 sum cp [] 10 hs refl refl in
    let s : get32 cp 12 ≡ ip.source = get32-put32 ip.source cp [] 12 h.source refl refl refl refl in
    let d : get32 cp 16 ≡ ip.dest = get32-put32 ip.dest cp [] 16 h.dest refl refl refl refl in
    ground arith

pub length_word :
    (ip : Ip) (sum : ℕ)
    → IsHeader ip
    → bit_and (get_or (take 20 (header ip sum)) 0 0) 0xf * 2 ^ 2 ≡ 20 + ip.optlen
unfolding header
length_word ip sum h =
    let n = hdr_len_lem ip h in
    (first_byte ip.version (hdr_len ip) h.version (omega (arith, n, h.max))
      (omega (arith, n, h.words))).1
    ∙ n
