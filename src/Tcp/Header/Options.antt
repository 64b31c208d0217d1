-- ===== src/Tcp/Header/Options.antt =====
-- The options are read as they were written.
use ka9q_unix.Base.{
  ℕ, ◌-◌, ◌≡◌, Bool, true, false, List, [], ◌++◌, length, replicate, refl, arith, if◌then◌else◌,
}
use ka9q_unix.Base.Word.{u8, IsByte, IsU16, IsU32}
use ka9q_unix.Bytes.{put16, put32, get16, get32}
use ka9q_unix.Bytes.Laws.{get16-put16, get32-put32}
use ka9q_unix.Tcp.{Tcp}
use ka9q_unix.Tcp.Header.{tcplen, size_with, options_with, take_option, read_options}

-- A header whose fields are in range.
pub record IsSegment (tcph : Tcp) : Type 0 where
  pub source : IsU16 tcph.source
  pub dest : IsU16 tcph.dest
  pub seq : IsU32 tcph.seq
  pub ack : IsU32 tcph.ack
  pub wnd : IsU16 tcph.wnd
  pub checksum : IsU16 tcph.checksum
  pub up : IsU16 tcph.up
  pub mss : IsU16 tcph.mss
  pub wsopt : IsByte tcph.wsopt
  pub tsval : IsU32 tcph.tsval
  pub tsecr : IsU32 tcph.tsecr

read16 : (x : ℕ) (rest : List ℕ) → IsU16 x → get16 (put16 x rest) 0 ≡ x
unfolding put16
read16 x rest h = get16-put16 x (put16 x rest) rest 0 h refl refl

read32 : (x : ℕ) (rest : List ℕ) → IsU32 x → get32 (put32 x rest) 0 ≡ x
unfolding put32
read32 x rest h = get32-put32 x (put32 x rest) rest 0 h refl refl refl refl

read32_second : (x y : ℕ) (rest : List ℕ) → IsU32 y → get32 (put32 x (put32 y rest)) 4 ≡ y
unfolding put32
read32_second x y rest h = get32-put32 y (put32 x (put32 y rest)) rest 4 h refl refl refl refl

-- A header with the options that are present.
unfoldable pub with_options : Bool → Bool → Bool → Tcp → Tcp → Tcp
with_options m t w from to = record to {
  mss = if m then from.mss else to.mss;
  tsval = if t then from.tsval else to.tsval;
  tsecr = if t then from.tsecr else to.tsecr;
  wsopt = if w then from.wsopt else to.wsopt;
  flags = record to.flags {
    has_mss = if m then true else to.flags.has_mss;
    has_tstamp = if t then true else to.flags.has_tstamp;
    has_wscale = if w then true else to.flags.has_wscale;
  };
}

-- The options with their padding.
abbrev pub option_area : Bool → Bool → Bool → Tcp → List ℕ
option_area m t w tcph =
    let opts = options_with m t w tcph in
    opts ++ replicate (size_with m t w - tcplen - length opts) 0

pub options_lem :
    (m t w : Bool) (tcph to : Tcp) (stale : List ℕ)
    → IsSegment tcph
    → let n = size_with m t w - tcplen in
      read_options n n (option_area m t w tcph ++ stale) to ≡ with_options m t w tcph to
unfolding read_options take_option options_with size_with with_options put16 put32 get16 get32
options_lem false false false tcph to stale h = refl
options_lem false false true tcph to stale h =
    let d : u8 tcph.wsopt ≡ tcph.wsopt = omega (arith, h.wsopt) in ground arith
options_lem false true false tcph to stale h =
    let b = read32 tcph.tsval [] h.tsval in let c = read32 tcph.tsecr [] h.tsecr in ground arith
options_lem false true true tcph to stale h =
    let b = read32 tcph.tsval [] h.tsval in
    let c = read32 tcph.tsecr [] h.tsecr in
    let d : u8 tcph.wsopt ≡ tcph.wsopt = omega (arith, h.wsopt) in ground arith
options_lem true false false tcph to stale h = let a = read16 tcph.mss [] h.mss in ground arith
options_lem true false true tcph to stale h =
    let a = read16 tcph.mss [] h.mss in
    let d : u8 tcph.wsopt ≡ tcph.wsopt = omega (arith, h.wsopt) in ground arith
options_lem true true false tcph to stale h =
    let a = read16 tcph.mss [] h.mss in
    let b = read32 tcph.tsval [] h.tsval in let c = read32 tcph.tsecr [] h.tsecr in ground arith
options_lem true true true tcph to stale h =
    let a = read16 tcph.mss [] h.mss in
    let b = read32 tcph.tsval [] h.tsval in
    let c = read32 tcph.tsecr [] h.tsecr in
    let d : u8 tcph.wsopt ≡ tcph.wsopt = omega (arith, h.wsopt) in ground arith
