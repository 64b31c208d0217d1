-- ===== src/Slip.antt =====
-- net/slip/slip.c: framing on a serial line. `Slip` is `struct slip` with the fields of the receiver
-- that the decoder uses; the packet under construction is a chain of mbufs of SLIP_ALLOC bytes. The
-- tail pointer and the write pointer are the end of that chain. `Receiver` adds the table of header
-- decompression, whose functions (net/slhc/slhc.c) are a parameter.
pub mod Encode
pub mod Decode
mod Tests
use ka9q_unix.Base.{
  ℕ, zero, suc, ◌+◌, ◌-◌, ◌*◌, List, [], ◌∷◌, ◌++◌, length, Bool, true, false, Option, none, some,
  ◌==◌, if◌then◌else◌, not, bit_and, bit_or, get_or, leb, drop,
}
use ka9q_unix.Base.Word.{u32}
use ka9q_unix.Mbuf.{Mbuf, Packet, cnt, alloc_mbuf}
use ka9q_unix.Mbuf.Chain.{len_p}
use ka9q_unix.Mbuf.Fields.{pull8}

abbrev pub fr_end : ℕ
fr_end = 0xc0

abbrev pub fr_esc : ℕ
fr_esc = 0xdb

abbrev pub t_fr_end : ℕ
t_fr_end = 0xdc

abbrev pub t_fr_esc : ℕ
t_fr_esc = 0xdd

abbrev pub slip_alloc : ℕ
slip_alloc = 128

-- `escaped` says whether SLIP_FLAG is set in the byte of that name; nothing sets another bit of it.
pub record Slip : Type 0 where
  pub escaped : Bool
  pub rbp : Packet
  pub errors : ℕ

-- What goes out for one byte, in front of the rest.
unfoldable pub escape : ℕ → List ℕ → List ℕ
escape c rest =
    if c == fr_esc
    then fr_esc ∷ t_fr_esc ∷ rest
    else if c == fr_end
    then fr_esc ∷ t_fr_end ∷ rest
    else c ∷ rest

-- The loop over the bytes of the packet, with as many rounds as it has bytes.
encode_loop : ℕ → Packet → List ℕ
unfolding escape
encode_loop zero p = fr_end ∷ []
encode_loop (suc fuel) p =
    let r = pull8 p in
    let rest = encode_loop fuel r.1 in elim r.0 [ none ↦ fr_end ∷ [] | some c ↦ escape c rest ]

-- The line-ready packet is one mbuf of twice the length and two bytes; `none` where it cannot be had.
pub slip_encode : Bool → Packet → Option Mbuf
unfolding encode_loop
slip_encode malloc_ok p = elim (alloc_mbuf malloc_ok (u32 (2 * len_p p + 2))) [
  | none ↦ none
  | some lbp ↦ some (record lbp { bytes = fr_end ∷ encode_loop (len_p p) p })
]

-- Store a byte in the last mbuf; a new one is linked in where that is full. `none` is the chain that
-- was dropped for want of memory.
store : Bool → Packet → ℕ → Option Packet
store malloc_ok [] c = elim (alloc_mbuf malloc_ok slip_alloc) [
  | none ↦ none
  | some b ↦ some (record b { bytes = c ∷ [] } ∷ [])
]
store malloc_ok (b ∷ []) c =
    if cnt b == slip_alloc
    then elim (alloc_mbuf malloc_ok slip_alloc) [
      | none ↦ none
      | some d ↦ some (b ∷ record d { bytes = c ∷ [] } ∷ [])
    ]
    else some (record b { bytes = b.bytes ++ c ∷ [] } ∷ [])
store malloc_ok (b ∷ d ∷ p) c = elim (store malloc_ok (d ∷ p) c) [
  | none ↦ none
  | some q ↦ some (b ∷ q)
]

put : Bool → Slip → ℕ → Slip
unfolding store
put malloc_ok sp c = record sp { rbp = elim (store malloc_ok sp.rbp c) [ none ↦ [] | some q ↦ q ] }

-- A byte that is neither end nor escape.
decode_char : Bool → Slip → ℕ → Slip
unfolding put
decode_char malloc_ok sp c =
    let plain = record sp { escaped = false } in
    if not sp.escaped
    then put malloc_ok sp c
    else if c == t_fr_esc
    then put malloc_ok plain fr_esc
    else if c == t_fr_end
    then put malloc_ok plain fr_end
    else put malloc_ok (record plain { errors = sp.errors + 1 }) c

-- Process one byte; the packet that it completes is returned, or the null pointer.
pub slip_decode : Bool → Slip → ℕ → Slip × Packet
unfolding decode_char
slip_decode malloc_ok sp c =
    if c == fr_end
    then (record sp { rbp = []; escaped = false }, if sp.escaped then [] else sp.rbp)
    else if c == fr_esc
    then (record sp { escaped = true }, [])
    else (decode_char malloc_ok sp c, [])

-- Header decompression (net/slhc/slhc.c): what slhc_uncompress and slhc_remember make of their state and of
-- a packet; `none` is a result that is not positive.
pub record Slhc (C : Type 0) : Type 0 where
  pub slhc_uncompress : C → Packet → C × Option Packet
  pub slhc_remember : C → Packet → C × Option Packet

pub record Receiver (C : Type 0) : Type 0 where
  pub sp : Slip
  pub slcomp : Option C

abbrev pub type_byte : Packet → ℕ
type_byte [] = 0
type_byte (b ∷ p) = get_or b.bytes 0 0

-- `data[0] &= 0x4f`
mask_type : Packet → Packet
mask_type [] = []
mask_type (b ∷ p) = record b { bytes = bit_and (get_or b.bytes 0 0) 0x4f ∷ drop 1 b.bytes } ∷ p

module _ {C : Type 0} (slhc : Slhc C) where
  -- The packet that goes to net_route, or none where an error is counted.
  accept : Receiver C → C × Option Packet → Receiver C × List Packet
  accept r (comp, none) =
      (record { sp = record r.sp { errors = r.sp.errors + 1 }; slcomp = some comp }, [])
  accept r (comp, some bp) = (record { sp = r.sp; slcomp = some comp }, bp ∷ [])

  discard : Receiver C → Receiver C × List Packet
  discard r = (record r { sp = record r.sp { errors = r.sp.errors + 1 } }, [])

  -- A packet that slip_decode has completed; there is none where its pointer is null.
  pub deliver : Receiver C → Packet → Receiver C × List Packet
  unfolding accept discard mask_type
  deliver r [] = (r, [])
  deliver r (b ∷ p) =
      if not (bit_and (type_byte (b ∷ p)) 0x80 == 0)
      then (elim r.slcomp [
        | none ↦ discard r
        | some comp ↦ accept r (slhc.slhc_uncompress comp (b ∷ p))
      ])
      else if leb 0x70 (type_byte (b ∷ p))
      then (elim r.slcomp [
        | none ↦ discard r
        | some comp ↦ accept r (slhc.slhc_remember comp (mask_type (b ∷ p)))
      ])
      else (r, (b ∷ p) ∷ [])

  -- The loop of `slip_rx`: the packets that go to net_route. Each byte of the line comes with whether there
  -- is memory for an mbuf.
  pub slip_rx : Receiver C → List (Bool × ℕ) → Receiver C × List Packet
  unfolding slip_decode deliver
  slip_rx r [] = (r, [])
  slip_rx r ((malloc_ok, c) ∷ cs) =
      let d = slip_decode malloc_ok r.sp c in
      let first = deliver (record r { sp = d.0 }) d.1 in
      let rest = slip_rx first.0 cs in (rest.0, first.1 ++ rest.1)
