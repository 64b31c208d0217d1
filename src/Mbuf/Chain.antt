-- ===== src/Mbuf/Chain.antt =====
-- mbuf.c: the operations on one packet, from `len_p` to `pushdown`. Sums of lengths are kept in a
-- 32-bit `uint`. Where the C fills a caller's buffer, the bytes are part of the result.
pub mod Contents
pub mod Copies
pub mod Duplicates
pub mod Front
pub mod Remains
use ka9q_unix.Base.{
  ℕ, ◌+◌, ◌-◌, ◌^◌, ◌%◌, List, [], ◌∷◌, ◌++◌, length, take, drop, min, Bool, true, false, ◌&&◌,
  ◌||◌, not, get_or, Option, none, some, ltb, leb, ◌==◌, if◌then◌else◌,
}
use ka9q_unix.Base.Word.{u32}
use ka9q_unix.Mbuf.{Mbuf, Packet, cnt, is_null, alloc_mbuf, ambufw}

len_loop : ℕ → Packet → ℕ
len_loop total [] = total
len_loop total (b ∷ p) = len_loop (u32 (total + cnt b)) p

-- The total number of bytes in a packet.
pub len_p : Packet → ℕ
unfolding len_loop
len_p p = len_loop 0 p

trim_loop : ℕ → ℕ → Packet → Packet
trim_loop len tot [] = []
trim_loop len tot (b ∷ p) =
    if ltb (u32 (tot + cnt b)) len
    then b ∷ trim_loop len (u32 (tot + cnt b)) p
    else record b { bytes = take (len - tot) b.bytes } ∷ []

-- Trim to a length by lopping off the end.
pub trim_mbuf : ℕ → Packet → Packet
unfolding trim_loop
trim_mbuf len p = if len == 0 then [] else trim_loop len 0 p

-- What `pullup` stores, how much it says it pulled, and what it leaves of the chain.
pub record Pulled : Type 0 where
  pub buf : List ℕ
  pub tot : ℕ
  pub rest : Packet

-- An mbuf is freed when its count falls to zero, one that was empty before too. If the count asked
-- for ends inside an mbuf, its data pointer moves up.
unfoldable pub pullup : ℕ → Packet → Pulled
pullup n [] = record { buf = []; tot = 0; rest = [] }
pullup n (b ∷ p) =
    let k = min n (cnt b) in
    let r = pullup (n - k) p in
    if n == 0
    then record { buf = []; tot = 0; rest = b ∷ p }
    else if cnt b - k == 0
    then record { buf = take k b.bytes ++ r.buf; tot = k + r.tot; rest = r.rest }
    else record {
      buf = take k b.bytes;
      tot = k;
      rest = record b { room = b.room + k; bytes = drop k b.bytes } ∷ p;
    }

-- The second loop of `extract`; `offset` counts within the first mbuf only.
copy_out : ℕ → ℕ → Packet → List ℕ
copy_out offset len [] = []
copy_out offset len (b ∷ p) =
    let n = min len (cnt b - offset) in
    let more = copy_out 0 (len - n) p in
    if len == 0
    then []
    else if n + offset == cnt b
    then take n (drop offset b.bytes) ++ more
    else take n (drop offset b.bytes)

-- Copy out at most `len` bytes from `offset` on; the number returned is the length of the copy.
pub extract : ℕ → ℕ → Packet → List ℕ
unfolding copy_out
extract offset len [] = []
extract offset len (b ∷ p) =
    if leb (cnt b) offset then extract (offset - cnt b) len p else copy_out offset len (b ∷ p)

copy_loop : ℕ → Packet → List ℕ
copy_loop n [] = []
copy_loop n (b ∷ p) =
    let k = min n (cnt b) in
    let more = copy_loop (n - k) p in if n == 0 then [] else take k b.bytes ++ more

-- Copy the first bytes into a new, single mbuf.
pub copy_p : Bool → Packet → ℕ → Packet
unfolding copy_loop
copy_p malloc_ok [] n = []
copy_p malloc_ok (b ∷ p) n = elim (if n == 0 then none else alloc_mbuf malloc_ok n) [
  | none ↦ []
  | some c ↦ record c { bytes = copy_loop n (b ∷ p) } ∷ []
]

-- Put a chain behind another.
pub append : Packet → Packet → Packet
append p q = p ++ q

-- In the first mbuf if it is nobody else's and has the room, else in a new one in front.
unfoldable pub push_front : List ℕ → ℕ → Packet → Packet
push_front new size [] = record (ambufw size) { bytes = new } ∷ []
push_front new size (b ∷ p) =
    if b.refcnt == 1 && not b.is_dup && leb size b.room
    then record b { room = b.room - size; bytes = new ++ b.bytes } ∷ p
    else record (ambufw size) { bytes = new } ∷ b ∷ p

abbrev written : List ℕ → Option (List ℕ) → List ℕ
written stale none = stale
written stale (some data') = data'

-- `stale` is what the new space holds before the copy, left there if `buf` is null.
unfoldable pub pushdown : List ℕ → Option (List ℕ) → ℕ → Packet → Packet
unfolding push_front ambufw
pushdown stale buf size p = if size == 0 then p else push_front (written stale buf) size p

-- What `dup_p` hands back through its first argument, the count that it returns, and the packet
-- that was duplicated.
pub record Duplicate : Type 0 where
  pub head : Packet
  pub tot : ℕ
  pub source : Packet

-- A header of its own over the bytes of `b` from `offset` on.
dup_header : ℕ → ℕ → Mbuf → Mbuf
dup_header offset n b = record (ambufw 0) { is_dup = true; bytes = take n (drop offset b.bytes) }

-- The reference is counted at the mbuf that owns the data, which is not `b` if `b` is a duplicate.
unfoldable pub incref : Mbuf → Mbuf
incref b = if b.is_dup then b else record b { refcnt = b.refcnt + 1 }

-- `mallocs` are the outcomes of the calls of `alloc_mbuf` to come. The header for `b` is allocated.
dup_loop : List Bool → ℕ → ℕ → Packet → Duplicate
unfolding dup_header incref
dup_loop mallocs offset n [] = record { head = []; tot = 0; source = [] }
dup_loop mallocs offset n (b ∷ p) =
    let k = min n (cnt b - offset) in
    let more = dup_loop (drop 1 mallocs) 0 (n - k) p in
    if n - k == 0 || is_null p || not (get_or mallocs 0 false)
    then record { head = dup_header offset k b ∷ []; tot = k; source = incref b ∷ p }
    else record {
      head = dup_header offset k b ∷ more.head;
      tot = k + more.tot;
      source = incref b ∷ more.source;
    }

-- Leading mbufs that the offset covers are skipped.
dup_skip : List Bool → ℕ → ℕ → Packet → Duplicate
dup_skip mallocs offset n [] = record { head = []; tot = 0; source = [] }
dup_skip mallocs offset n (b ∷ p) =
    let d = dup_skip mallocs (offset - cnt b) n p in
    if leb (cnt b) offset
    then record d { source = b ∷ d.source }
    else dup_loop mallocs offset n (b ∷ p)

pub dup_p : List Bool → Packet → ℕ → ℕ → Duplicate
unfolding dup_loop dup_skip
dup_p mallocs p offset n =
    if n == 0 || is_null p || not (get_or mallocs 0 false)
    then record { head = []; tot = 0; source = p }
    else dup_skip (drop 1 mallocs) offset n p

-- Another reference to every mbuf of a packet.
pub incref_p : Packet → Packet
incref_p [] = []
incref_p (b ∷ p) = incref b ∷ incref_p p
