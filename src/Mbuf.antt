-- ===== src/Mbuf.antt =====
-- net/core/mbuf.c: message buffers. A packet is the chain through `next`, the null pointer the
-- empty chain; a queue is the chain of packets through `anext`. `bytes` is `data[0 .. cnt)`, `room`
-- the distance from the start of the buffer to `data`, `is_dup` whether `dup` is not null.
-- Buffers are values here: that two headers may share one data area shows in `refcnt` and `is_dup`
-- alone, which is what the code tests before it writes in place.
pub mod Chain
pub mod Fields
pub mod Queue
mod Tests
use ka9q_unix.Base.{ℕ, suc, ◌+◌, List, [], ◌∷◌, ◌++◌, length, Bool, true, false}
use ka9q_unix.Base.{Option, none, some, leb, if◌then◌else◌}

pub record Mbuf : Type 0 where
  pub size : ℕ
  pub refcnt : ℕ
  pub is_dup : Bool
  pub room : ℕ
  pub bytes : List ℕ

abbrev pub cnt : Mbuf → ℕ
cnt b = length b.bytes

abbrev pub Packet : Type 0
Packet = List Mbuf

abbrev pub is_null : Packet → Bool
is_null [] = true
is_null (b ∷ p) = false

-- The bytes of a packet, which is all that the layers above see of it.
abbrev pub contents : Packet → List ℕ
contents [] = []
contents (b ∷ p) = b.bytes ++ contents p

-- Requests are rounded up to SMALL_MBUF, MED_MBUF or LARGE_MBUF; larger ones are kept.
unfoldable pub size_class : ℕ → ℕ
size_class n = if leb n 32 then 32 else if leb n 128 then 128 else if leb n 2048 then 2048 else n

abbrev fresh : ℕ → Mbuf
fresh n = record { size = size_class n; refcnt = 1; is_dup = false; room = 0; bytes = [] }

-- `malloc_ok` says whether the allocator finds memory.
unfoldable pub alloc_mbuf : Bool → ℕ → Option Mbuf
alloc_mbuf malloc_ok n = if malloc_ok then some (fresh n) else none

-- Waits for memory, so it does not fail.
unfoldable pub ambufw : ℕ → Mbuf
ambufw n = fresh n
