-- ===== src/Ahdlc.antt =====
-- net/sppp/ahdlc.c: framing in asynchronous HDLC. A frame under way is its bytes, `none` the null
-- pointer. Counters are unbounded; `maxsize` is a size the caller gives to `init_hdlc`.
pub mod RoundTrip
pub mod Receiver
mod Tests
use ka9q_unix.Base.{
  ℕ, ◌+◌, ◌-◌, ◌/◌, ◌^◌, List, [], ◌∷◌, ◌++◌, length, take, bit_xor, Bool, true, false, Option,
  none, some, ◌==◌, ltb, if◌then◌else◌, ◌||◌, not,
}
use ka9q_unix.Base.Word.{u8}
use ka9q_unix.Crc.{fcs, fcs_start, fcs_final}

-- HDLC_ESC_ASYNC, HDLC_FLAG and HDLC_ESC_COMPL.
abbrev pub hdlc_esc_async : ℕ
hdlc_esc_async = 0x7d

abbrev pub hdlc_flag : ℕ
hdlc_flag = 0x7e

abbrev pub hdlc_esc_compl : ℕ
hdlc_esc_compl = 0x20

-- The receiver control block.
pub record Ahdlc : Type 0 where
  pub escaped : Bool
  pub hunt : Bool
  pub inframe : Option (List ℕ)
  pub maxsize : ℕ
  pub fcs_now : ℕ
  pub rxframes : ℕ
  pub aborts : ℕ
  pub toobigs : ℕ
  pub crcerrs : ℕ
  pub runts : ℕ

-- `init_hdlc` leaves `runts` as it is.
unfoldable pub init_hdlc : Ahdlc → ℕ → Ahdlc
init_hdlc hp size = record hp {
  escaped = false;
  hunt = false;
  inframe = none;
  maxsize = size;
  fcs_now = fcs_start;
  rxframes = 0;
  aborts = 0;
  toobigs = 0;
  crcerrs = 0;
}

-- The frame that a byte is stored in; a new one is allocated where there is none.
abbrev frame_of : Option (List ℕ) → List ℕ
frame_of none = []
frame_of (some f) = f

-- A byte within a frame, its escape undone.
rx_store : Ahdlc → ℕ → Ahdlc
rx_store ap c =
    let f = frame_of ap.inframe in
    if length f == ap.maxsize
    then record ap {
      toobigs = ap.toobigs + 1;
      inframe = none;
      escaped = false;
      fcs_now = fcs_start;
      hunt = true;
    }
    else record ap { inframe = some (f ++ c ∷ []); fcs_now = fcs ap.fcs_now c }

-- A byte that is neither escape nor flag.
rx_char : Ahdlc → ℕ → Ahdlc
rx_char ap c =
    if ap.hunt
    then ap
    else if ap.escaped
    then rx_store (record ap { escaped = false }) (bit_xor c hdlc_esc_compl)
    else rx_store ap c

-- The end of a frame that was received.
rx_end : Ahdlc → List ℕ → Ahdlc × Option (List ℕ)
rx_end ap f =
    let cleared = record ap { inframe = none; fcs_now = fcs_start } in
    if not (ap.fcs_now == fcs_final)
    then (record cleared { crcerrs = ap.crcerrs + 1 }, none)
    else if ltb (length f) 2
    then (record cleared { runts = ap.runts + 1 }, none)
    else (record cleared { rxframes = ap.rxframes + 1 }, some (take (length f - 2) f))

rx_flag : Ahdlc → Ahdlc × Option (List ℕ)
rx_flag ap =
    if ap.escaped
    then (
      record ap {
        aborts = ap.aborts + 1;
        hunt = true;
        escaped = false;
        inframe = none;
        fcs_now = fcs_start;
      },
      none,
    )
    else if ap.hunt
    then (record ap { hunt = false }, none)
    else elim ap.inframe [ none ↦ (ap, none) | some f ↦ rx_end ap f ]

-- Process one byte; a completed packet is returned.
pub ahdlcrx : Ahdlc → ℕ → Ahdlc × Option (List ℕ)
unfolding rx_char rx_store rx_flag rx_end
ahdlcrx ap c =
    if c == hdlc_esc_async
    then (record ap { escaped = true }, none)
    else if c == hdlc_flag
    then rx_flag ap
    else (rx_char ap c, none)

-- A line of input, and the packets that come out of it.
pub receive : Ahdlc → List ℕ → Ahdlc × List (List ℕ)
receive ap [] = (ap, [])
receive ap (c ∷ cs) =
    let (ap', out) = ahdlcrx ap c in
    let (ap'', more) = receive ap' cs in (ap'', elim out [ none ↦ more | some p ↦ p ∷ more ])

-- Escape the two special characters.
putbyte : ℕ → List ℕ → List ℕ
putbyte c rest =
    if c == hdlc_flag || c == hdlc_esc_async
    then hdlc_esc_async ∷ bit_xor c hdlc_esc_compl ∷ rest
    else c ∷ rest

-- The loop of `ahdlctx` with the check sequence so far.
tx_loop : ℕ → List ℕ → List ℕ
unfolding putbyte
tx_loop f [] =
    let x = bit_xor f 0xffff in putbyte (u8 x) (putbyte (u8 (x / 2 ^ 8)) (hdlc_flag ∷ []))
tx_loop f (c ∷ bp) = putbyte c (tx_loop (fcs f c) bp)

-- Encode a packet for transmission.
pub ahdlctx : List ℕ → List ℕ
unfolding tx_loop
ahdlctx bp = tx_loop fcs_start bp
