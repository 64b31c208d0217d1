-- ===== src/Tcp/Header/RoundTrip.antt =====
-- A header that htontcp wrote is read back by ntohtcp.
use ka9q_unix.Base.{
  ℕ, zero, suc, ◌+◌, ◌-◌, ◌*◌, ◌/◌, ◌%◌, ◌^◌, ◌<◌, ◌≤◌, ◌≡◌, Bool, true, false, not, ltb, leb, ◌==◌,
  ◌||◌, ◌&&◌, List, [], ◌∷◌, ◌++◌, take, drop, length, get_or, Option, some, if◌then◌else◌, bit_and,
  refl, sym, ap, ap₂, ◌∙◌, arith, inl, inr, if_cases, Bool-cases, take_all, take-append_le,
  drop-append_past, length-append,
}
use native.Mathlib.Decide.{ℕ_discrete}
use ka9q_unix.Base.Word.{u8, IsU16}
use ka9q_unix.Bytes.{put16, put32, get16, get32}
use ka9q_unix.Bytes.Laws.{get16-put16, get32-put32}
use ka9q_unix.Mbuf.{Packet, contents}
use ka9q_unix.Mbuf.Chain.{pushdown, pullup, push_front, len_p}
use ka9q_unix.Mbuf.Chain.Contents.{pullup-contents, len_p-contents}
use ka9q_unix.Mbuf.Chain.Front.{pushdown-contents}
use ka9q_unix.Tcp.{Tcp}
use ka9q_unix.Tcp.Header.{
  tcplen, size_with, hdrlen, options_with, tcp_header, put_checksum, htontcp, read_fixed,
  read_options, ntohtcp,
}
use ka9q_unix.Tcp.Header.Flags.{flag_byte_lem}
use ka9q_unix.Tcp.Header.Options.{IsSegment, option_area, options_lem, with_options}

-- What is read: the fields with the checksum that was sent, and those of the options that are there.
unfoldable pub as_read : Tcp → ℕ → Tcp
as_read tcph sum = record tcph {
  checksum = sum;
  mss = if tcph.flags.has_mss then tcph.mss else 0;
  tsval = if tcph.flags.has_tstamp then tcph.tsval else 0;
  tsecr = if tcph.flags.has_tstamp then tcph.tsecr else 0;
  wsopt = if tcph.flags.has_wscale then tcph.wsopt else 0;
}

abbrev pub sum_sent : (Packet → ℕ → ℕ) → List ℕ → Tcp → Packet → ℕ
sum_sent cksum stale tcph p =
    let q = pushdown stale (some (tcp_header tcph tcph.checksum)) (hdrlen tcph) p in
    if tcph.checksum == 0 then cksum q (len_p q) else tcph.checksum

put_checksum-push_front :
    (tcph : Tcp) (old sum n : ℕ) (p : Packet)
    → put_checksum sum (push_front (tcp_header tcph old) n p) ≡ push_front (tcp_header tcph sum) n p
unfolding put_checksum push_front tcp_header put16 put32
put_checksum-push_front tcph old sum n [] = refl
put_checksum-push_front tcph old sum n (b ∷ p) =
    elim (Bool-cases (b.refcnt == 1 && not b.is_dup && leb n b.room)) [
      | inl e ↦ rw e refl
      | inr e ↦ rw e refl
    ]

-- The sizes of a header are whole words, and its options fill it up.
sizes :
    (m t w : Bool) (tcph : Tcp)
    → (20 ≤ size_with m t w)
      × (size_with m t w ≤ 40)
      × (size_with m t w % 4 ≡ 0)
      × (length (option_area m t w tcph) ≡ size_with m t w - 20)
unfolding size_with options_with put16 put32
sizes false false false tcph = (omega arith, omega arith, omega arith, refl)
sizes false false true tcph = (omega arith, omega arith, omega arith, refl)
sizes false true false tcph = (omega arith, omega arith, omega arith, refl)
sizes false true true tcph = (omega arith, omega arith, omega arith, refl)
sizes true false false tcph = (omega arith, omega arith, omega arith, refl)
sizes true false true tcph = (omega arith, omega arith, omega arith, refl)
sizes true true false tcph = (omega arith, omega arith, omega arith, refl)
sizes true true true tcph = (omega arith, omega arith, omega arith, refl)

abbrev area : Tcp → List ℕ
area tcph = option_area tcph.flags.has_mss tcph.flags.has_tstamp tcph.flags.has_wscale tcph

tcp_header-length : (tcph : Tcp) (sum : ℕ) → length (tcp_header tcph sum) ≡ hdrlen tcph
unfolding tcp_header put16 put32
tcp_header-length tcph sum =
    omega (arith, sizes tcph.flags.has_mss tcph.flags.has_tstamp tcph.flags.has_wscale tcph)

-- The length of a header is read from its byte.
length_byte : (m t w : Bool) → bit_and (u8 (size_with m t w * 2 ^ 2)) 0xf0 / 2 ^ 2 ≡ size_with m t w
unfolding size_with
length_byte false false false = refl
length_byte false false true = refl
length_byte false true false = refl
length_byte false true true = refl
length_byte true false false = refl
length_byte true false true = refl
length_byte true true false = refl
length_byte true true true = refl

read_fixed_lem :
    (tcph : Tcp) (sum : ℕ)
    → IsSegment tcph
    → IsU16 sum
    → with_options tcph.flags.has_mss tcph.flags.has_tstamp tcph.flags.has_wscale tcph
        (read_fixed (take 20 (tcp_header tcph sum)))
      ≡ as_read tcph sum
unfolding read_fixed tcp_header put16 put32 as_read with_options
read_fixed_lem tcph sum h hs =
    let cp = take 20 (tcp_header tcph sum) in
    let a : get16 cp 0 ≡ tcph.source = get16-put16 tcph.source cp [] 0 h.source refl refl in
    let b : get16 cp 2 ≡ tcph.dest = get16-put16 tcph.dest cp [] 2 h.dest refl refl in
    let c : get32 cp 4 ≡ tcph.seq = get32-put32 tcph.seq cp [] 4 h.seq refl refl refl refl in
    let d : get32 cp 8 ≡ tcph.ack = get32-put32 tcph.ack cp [] 8 h.ack refl refl refl refl in
    let e : get16 cp 14 ≡ tcph.wnd = get16-put16 tcph.wnd cp [] 14 h.wnd refl refl in
    let g : get16 cp 16 ≡ sum = get16-put16 sum cp [] 16 hs refl refl in
    let i : get16 cp 18 ≡ tcph.up = get16-put16 tcph.up cp [] 18 h.up refl refl in
    let f =
      flag_byte_lem tcph.flags.congest tcph.flags.urg tcph.flags.ack tcph.flags.psh tcph.flags.rst
        tcph.flags.syn tcph.flags.fin in
    ground arith

sum_small :
    (cksum : Packet → ℕ → ℕ) (stale : List ℕ) (tcph : Tcp) (p : Packet)
    → IsSegment tcph
    → ((q : Packet) (n : ℕ) → IsU16 (cksum q n))
    → IsU16 (sum_sent cksum stale tcph p)
sum_small cksum stale tcph p h u =
    let q = pushdown stale (some (tcp_header tcph tcph.checksum)) (hdrlen tcph) p in
    if_cases IsU16 (tcph.checksum == 0) (λ e. u q (len_p q)) (λ e. h.checksum)

put_checksum-pushdown :
    (stale : List ℕ) (tcph : Tcp) (old sum : ℕ) (p : Packet)
    → put_checksum sum (pushdown stale (some (tcp_header tcph old)) (hdrlen tcph) p)
      ≡ pushdown stale (some (tcp_header tcph sum)) (hdrlen tcph) p
unfolding pushdown
put_checksum-pushdown stale tcph old sum p =
    let k = sizes tcph.flags.has_mss tcph.flags.has_tstamp tcph.flags.has_wscale tcph in
    let n : (hdrlen tcph == 0) ≡ false = ground (arith, k) in
    rw n (put_checksum-push_front tcph old sum (hdrlen tcph) p)

htontcp_lem :
    (cksum : Packet → ℕ → ℕ) (stale : List ℕ) (tcph : Tcp) (p : Packet)
    → htontcp cksum stale tcph p
      ≡ pushdown stale (some (tcp_header tcph (sum_sent cksum stale tcph p))) (hdrlen tcph) p
unfolding htontcp
htontcp_lem cksum stale tcph p =
    let q = pushdown stale (some (tcp_header tcph tcph.checksum)) (hdrlen tcph) p in
    elim (Bool-cases (tcph.checksum == 0)) [
      | inl e ↦ rw e (put_checksum-pushdown stale tcph tcph.checksum (cksum q (len_p q)) p)
      | inr e ↦ rw e refl
    ]

pub htontcp-contents :
    (cksum : Packet → ℕ → ℕ) (stale : List ℕ) (tcph : Tcp) (p : Packet)
    → contents (htontcp cksum stale tcph p)
      ≡ tcp_header tcph (sum_sent cksum stale tcph p) ++ contents p
htontcp-contents cksum stale tcph p =
    let new = tcp_header tcph (sum_sent cksum stale tcph p) in
    ap contents (htontcp_lem cksum stale tcph p)
    ∙ ap (λ (n : ℕ). contents (pushdown stale (some new) n p))
        (sym (tcp_header-length tcph (sum_sent cksum stale tcph p)))
    ∙ pushdown-contents stale new p

-- The bytes behind the fixed part.
behind_fixed :
    (tcph : Tcp) (sum : ℕ) (c : List ℕ) → drop 20 (tcp_header tcph sum ++ c) ≡ area tcph ++ c
unfolding tcp_header put16 put32
behind_fixed tcph sum c = refl

take_fixed :
    (tcph : Tcp) (sum : ℕ) (c : List ℕ)
    → take 20 (tcp_header tcph sum ++ c) ≡ take 20 (tcp_header tcph sum)
unfolding tcp_header put16 put32
take_fixed tcph sum c = refl

length_word :
    (tcph : Tcp) (sum : ℕ)
    → bit_and (get_or (take 20 (tcp_header tcph sum)) 12 0) 0xf0 / 2 ^ 2 ≡ hdrlen tcph
unfolding tcp_header put16 put32
length_word tcph sum = length_byte tcph.flags.has_mss tcph.flags.has_tstamp tcph.flags.has_wscale

no_options : (n : ℕ) (cp : List ℕ) (to : Tcp) → n ≡ 0 → read_options n n cp to ≡ to
unfolding read_options
no_options zero cp to e = refl
no_options (suc n) cp to e = absurd (omega arith)

no_items : (xs : List ℕ) → length xs ≡ 0 → xs ≡ []
no_items [] e = refl
no_items (x ∷ xs) e = absurd (omega arith)

-- What ntohtcp makes of a packet that begins with a header.
abbrev pub Reads : Tcp → ℕ → List ℕ → Option ℕ × Tcp × Packet → Type 0
Reads tcph sum c r = (r.0 ≡ some (hdrlen tcph)) × (r.1 ≡ as_read tcph sum) × (contents r.2 ≡ c)

ntohtcp-header :
    (stale : List ℕ) (q : Packet) (tcph : Tcp) (sum : ℕ) (c : List ℕ)
    → IsSegment tcph
    → IsU16 sum
    → length c + 40 < 2 ^ 32
    → contents q ≡ tcp_header tcph sum ++ c
    → Reads tcph sum c (ntohtcp stale q)
unfolding ntohtcp
ntohtcp-header stale q tcph sum c h hs lc e =
    let f = tcph.flags in
    let r = pullup tcplen q in
    let k = pullup-contents 20 q in
    let buf : r.buf ≡ take 20 (tcp_header tcph sum) =
      k.0 ∙ ap (take 20) e ∙ take_fixed tcph sum c in
    let z = sizes f.has_mss f.has_tstamp f.has_wscale tcph in
    let total = length-append (tcp_header tcph sum) c in
    let rest : contents r.rest ≡ area tcph ++ c = k.1 ∙ ap (drop 20) e ∙ behind_fixed tcph sum c in
    let len : bit_and (get_or r.buf 12 0) 0xf0 / 2 ^ 2 ≡ hdrlen tcph =
      ap (λ (b : List ℕ). bit_and (get_or b 12 0) 0xf0 / 2 ^ 2) buf ∙ length_word tcph sum in
    let whole : (ltb r.tot tcplen || ltb (hdrlen tcph) tcplen) ≡ false =
      ground (arith, k.2, ap length e, total, tcp_header-length tcph sum, z) in
    let la = length-append (area tcph) c in
    let n = hdrlen tcph - tcplen in
    let fits : ltb (len_p r.rest) n ≡ false =
      let g : length (contents r.rest) < 2 ^ 32 = omega (arith, ap length rest, la, z, lc) in
      ground (arith, len_p-contents r.rest g, ap length rest, la, z) in
    let k' = pullup-contents n r.rest in
    let o : (pullup n r.rest).buf ≡ area tcph =
      k'.0
      ∙ ap (take n) rest
      ∙ take-append_le n (area tcph) c (omega (arith, z))
      ∙ take_all n (area tcph) (omega (arith, z)) in
    let left : contents (pullup n r.rest).rest ≡ c =
      k'.1 ∙ ap (drop n) rest ∙ drop-append_past n 0 (area tcph) c (omega (arith, z)) in
    let opts =
      options_lem f.has_mss f.has_tstamp f.has_wscale tcph
        (read_fixed (take 20 (tcp_header tcph sum))) stale h in
    let all = opts ∙ read_fixed_lem tcph sum h hs in
    elim (ℕ_discrete n 0) [
      | yes empty ↦
          let b : (n == 0) ≡ true = ground arith in
          let nil : area tcph ≡ [] = no_items (area tcph) (omega (arith, z)) in
          let read : read_fixed (take 20 (tcp_header tcph sum)) ≡ as_read tcph sum =
            sym
              (no_options n (area tcph ++ stale) (read_fixed (take 20 (tcp_header tcph sum))) empty)
            ∙ all in
          rw (ntohtcp, len, whole, b)
            (refl, ap read_fixed buf ∙ read, rest ∙ ap (λ (x : List ℕ). x ++ c) nil)
      | no full ↦
          let b : (n == 0) ≡ false = ground arith in
          rw (ntohtcp, len, whole, b, fits)
            (
              refl,
              ap₂ (λ (x y : List ℕ). read_options n n (x ++ stale) (read_fixed y)) o buf ∙ all,
              left,
            )
    ]

-- A header whose fields are in range comes back: ntohtcp takes off what htontcp put in front of a
-- packet and returns the length of the header, its fields and flags with the checksum that was
-- sent, and the options that are present, whatever the local array held before; what is left of
-- the packet is what was there before. It is assumed that the checksum function returns 16 bits,
-- and that the packet is shorter than 2^32 - 40 bytes.
pub ntohtcp-htontcp :
    (cksum : Packet → ℕ → ℕ) (stale stale' : List ℕ) (tcph : Tcp) (p : Packet)
    → IsSegment tcph
    → ((q : Packet) (n : ℕ) → IsU16 (cksum q n))
    → length (contents p) + 40 < 2 ^ 32
    → Reads tcph
        (sum_sent cksum stale tcph p)
        (contents p)
        (ntohtcp stale' (htontcp cksum stale tcph p))
ntohtcp-htontcp cksum stale stale' tcph p h u l =
    ntohtcp-header stale' (htontcp cksum stale tcph p) tcph (sum_sent cksum stale tcph p)
      (contents p) h (sum_small cksum stale tcph p h u) l (htontcp-contents cksum stale tcph p)
