-- ===== src/Ip/Reassembly.antt =====
-- net/inet/ip.c: the reassembly of fragments, fraghandle and what it calls. `none` is an access
-- through a null pointer or to freed memory. The list of fragments is doubly linked; the one `prev`
-- that the code leaves dangling is the flag `stale` of the fragment that holds it, and a walk holds
-- the fragments behind it in reverse order, lastfrag first.
pub mod Pieces
pub mod Insert
pub mod Add
pub mod Complete
pub mod InOrder
pub mod Faults
mod Tests
use ka9q_unix.Base.{
  ℕ, ◌+◌, ◌-◌, Bool, true, false, ◌&&◌, ◌||◌, not, ltb, leb, ◌==◌, List, [], ◌∷◌, ◌++◌, Option,
  none, some, if◌then◌else◌,
}
use ka9q_unix.Base.Word.{u32, sub32}
use ka9q_unix.Mbuf.{Packet, is_null}
use ka9q_unix.Mbuf.Chain.{pullup, append}
use ka9q_unix.Ip.{Ip, iplen}

pub record Frag : Type 0 where
  pub offset : ℕ
  pub last : ℕ
  pub buf : Packet
  pub stale : Bool

pub record Reasm : Type 0 where
  pub source : ℕ
  pub dest : ℕ
  pub id : ℕ
  pub protocol : ℕ
  pub length : ℕ
  pub fraglist : List Frag

-- A byte kept in a `char`, which is signed, and read back as an int.
abbrev pub signed_char : ℕ → ℕ
signed_char c = if ltb c 128 then c else sub32 c 256

unfoldable pub matches : Ip → Reasm → Bool
matches ip rp =
    ip.id == rp.id && ip.source == rp.source && ip.dest == rp.dest && ip.protocol == rp.protocol

-- The descriptor of a datagram, and the queue without it; it goes to the top when it is put back.
unfoldable pub take_reasm : Ip → List Reasm → Option (Reasm × List Reasm)
unfolding matches
take_reasm ip [] = none
take_reasm ip (rp ∷ q) =
    let rest = take_reasm ip q in
    if matches ip rp
    then some (rp, q)
    else elim rest [ none ↦ none | some (found, others) ↦ some (found, rp ∷ others) ]

unfoldable pub creat_reasm : Ip → Reasm
creat_reasm ip = record {
  source = ip.source;
  dest = ip.dest;
  id = ip.id;
  protocol = signed_char ip.protocol;
  length = 0;
  fraglist = [];
}

-- The place in the list where a walk stands: lastfrag and what is before it, and what follows.
pub record Place : Type 0 where
  pub before : List Frag
  pub after : List Frag

-- The first fragment which begins after `offset`.
unfoldable pub find_place : ℕ → List Frag → List Frag → Place
find_place offset before [] = record { before = before; after = [] }
find_place offset before (f ∷ fs) =
    let rest = find_place offset (f ∷ before) fs in
    if ltb offset f.offset then record { before = before; after = f ∷ fs } else rest

abbrev pub head_stale : List Frag → Bool
head_stale [] = false
head_stale (f ∷ fs) = f.stale

-- The `prev` of the first fragment is set, to one that is there or does not dangle.
abbrev pub set_stale : Bool → List Frag → List Frag
set_stale b [] = []
set_stale b (f ∷ fs) = record f { stale = b } ∷ fs

abbrev pub is_last : List Frag → Bool
is_last [] = true
is_last (f ∷ fs) = false

abbrev pub is_one : List Frag → Bool
is_one [] = false
is_one (f ∷ fs) = is_last fs

-- What the loop over the succeeding fragments leaves: those that it went past, and from nextfrag on.
pub record Trim : Type 0 where
  pub past : List Frag
  pub next : List Frag

-- Trim the fragments in front of `last`; `stale` is that of the first. One that nothing is left of is
-- unlinked, which reads the `next` of the fragment behind it and writes through its own `prev`.
unfoldable pub trim_frags : ℕ → Bool → List Frag → Option Trim
trim_frags last stale [] = some (record { past = []; next = [] })
trim_frags last stale (f ∷ fs) =
    let buf' = (pullup (last - f.offset) f.buf).rest in
    let rest = trim_frags last (if is_null buf' then is_one fs else head_stale fs) fs in
    let f' : Frag = record f { stale = stale; buf = buf'; offset = last } in
    if leb last f.offset
    then some (record { past = []; next = record f { stale = stale } ∷ fs })
    else if is_null buf'
    then (if stale || is_last fs then none else rest)
    else elim rest [ none ↦ none | some t ↦ some (record t { past = f' ∷ t.past }) ]

-- Put the walk's fragments back in order, in front of `fs`.
unfoldable pub unwind : List Frag → List Frag → List Frag
unwind [] fs = fs
unwind (b ∷ before) fs = unwind before (b ∷ fs)

-- The list after the switch, and whether it went to PREPEND, where the pointer to the caller's packet
-- is set to null.
pub record Joined : Type 0 where
  pub frags : List Frag
  pub prepended : Bool

-- The fragment that arrived: where it starts and ends, and its data.
pub record Piece : Type 0 where
  pub offset : ℕ
  pub last : ℕ
  pub bp : Packet

unfoldable pub appends : Piece → List Frag → Bool
appends p [] = false
appends p (b ∷ before) = b.last == p.offset

unfoldable pub prepends : Piece → List Frag → Bool
prepends p [] = false
prepends p (a ∷ next) = a.offset == p.last

-- `frag_ok` says whether there is memory for a descriptor; it is used without a test.
unfoldable pub insert_frag : Bool → Piece → List Frag → List Frag → Option Joined
insert_frag frag_ok p before next =
    let new : Frag = record { offset = p.offset; last = p.last; buf = p.bp; stale = false } in
    if frag_ok
    then some (record { frags = unwind before (new ∷ set_stale false next); prepended = false })
    else none

unfoldable pub append_frag : Piece → List Frag → List Frag → List Frag
append_frag p [] fs = fs
append_frag p (b ∷ before) fs =
    unwind (record b { buf = append b.buf p.bp; last = p.last } ∷ before) fs

unfoldable pub prepend_frag : Piece → List Frag → List Frag → List Frag → List Frag
prepend_frag p before past [] = unwind before past
prepend_frag p before past (a ∷ next) =
    unwind before (past ++ record a { buf = append p.bp a.buf; offset = p.offset } ∷ next)

unfoldable pub consolidate : Piece → List Frag → List Frag → List Frag
consolidate p (b ∷ before) (a ∷ next) =
    unwind (record b { buf = append (append b.buf p.bp) a.buf; last = a.last } ∷ before)
      (set_stale false next)
consolidate p before next = unwind before next

-- Join the fragment to one or both of its neighbours. What the loop went past stays linked only where
-- the links around it are not set anew.
unfoldable pub join : Bool → Piece → List Frag → Trim → Option Joined
unfolding insert_frag append_frag prepend_frag consolidate appends prepends
join frag_ok p before t =
    if appends p before && prepends p t.next
    then some (record { frags = consolidate p before t.next; prepended = false })
    else if appends p before
    then some (record { frags = append_frag p before (t.past ++ t.next); prepended = false })
    else if prepends p t.next
    then some (record { frags = prepend_frag p before t.past t.next; prepended = true })
    else insert_frag frag_ok p before t.next

-- Strip the overlap with the preceding fragment from the new one; `none` if nothing is left.
unfoldable pub strip : List Frag → Piece → Option Piece
strip [] p = some p
strip (b ∷ before) p =
    let i = b.last - p.offset in
    let bp' = (pullup i p.bp).rest in
    if ltb p.offset b.last
    then (if is_null bp' then none else some (record p { offset = p.offset + i; bp = bp' }))
    else some p

-- What one fragment makes of the list.
pub data Added : Type 0 where
  fault : Added
  nothing_left : Added
  added : Joined → Added

unfoldable pub add_stripped : Bool → Place → Piece → Added
add_stripped frag_ok at p = elim (trim_frags p.last (head_stale at.after) at.after) [
  | none ↦ fault
  | some t ↦ elim (join frag_ok p at.before t) [ none ↦ fault | some j ↦ added j ]
]

unfoldable pub add_frag : Bool → Piece → List Frag → Added
add_frag frag_ok p frags =
    let at = find_place p.offset [] frags in
    elim (strip at.before p) [ none ↦ nothing_left | some p' ↦ add_stripped frag_ok at p' ]

-- The only fragment, if it begins with the datagram.
unfoldable pub whole : List Frag → Option Packet
whole [] = none
whole (f ∷ fs) = if f.offset == 0 && is_last fs then some f.buf else none

-- -1, or the header and the data to pass on.
pub data Handled : Type 0 where
  incomplete : Handled
  complete : Ip → Packet → Handled

unfoldable pub header_len : Ip → ℕ
header_len ip = iplen + ip.optlen

-- The queue `q` is without the descriptor; `rp` goes back to its top unless the datagram is complete.
unfoldable pub finish : Ip → Reasm → List Reasm → Joined → Option (Handled × List Reasm)
finish ip rp q j =
    let ip' : Ip = record ip {
      length = u32 (rp.length + header_len ip);
      offset = 0;
      flags = record ip.flags { mf = false };
    } in
    elim (if rp.length == 0 then none else whole j.frags) [
      | none ↦ some (incomplete, record rp { fraglist = j.frags } ∷ q)
      | some bp ↦ if j.prepended then none else some (complete ip' bp, q)
    ]

unfoldable pub last_of : Ip → ℕ
unfolding header_len
last_of ip = sub32 (u32 (ip.offset + ip.length)) (header_len ip)

unfoldable pub add_to_reasm :
    Bool → Ip → Packet → Reasm → List Reasm → Option (Handled × List Reasm)
add_to_reasm frag_ok ip bp rp q =
    let last = last_of ip in
    let rp' : Reasm = if ip.flags.mf then rp else record rp { length = last } in
    let p : Piece = record { offset = ip.offset; last = last; bp = bp } in
    elim (add_frag frag_ok p rp.fraglist) [
      | fault ↦ none
      | nothing_left ↦ some (incomplete, rp' ∷ q)
      | added j ↦ finish ip rp' q j
    ]

-- A datagram that is not a fragment goes on as it is, and what was collected for it is dropped.
-- `reasm_ok` says whether there is memory for a descriptor.
unfoldable pub fraghandle : Bool → Bool → Ip → Packet → List Reasm → Option (Handled × List Reasm)
fraghandle reasm_ok frag_ok ip bp q = elim (take_reasm ip q) [
  | some (rp, others) ↦
      if ip.offset == 0 && not ip.flags.mf
      then some (complete ip bp, others)
      else add_to_reasm frag_ok ip bp rp others
  | none ↦
      if ip.offset == 0 && not ip.flags.mf
      then some (complete ip bp, q)
      else if reasm_ok
      then add_to_reasm frag_ok ip bp (creat_reasm ip) q
      else some (incomplete, q)
]

-- Fragments arrive one after the other, with memory for descriptors, until a datagram is complete.
unfoldable pub receive_all : List (Ip × Packet) → List Reasm → Option (Handled × List Reasm)
receive_all [] q = some (incomplete, q)
receive_all ((ip, bp) ∷ r) q = elim (fraghandle true true ip bp q) [
  | none ↦ none
  | some (incomplete, q') ↦ receive_all r q'
  | some (complete ip' bp', q') ↦ some (complete ip' bp', q')
]
