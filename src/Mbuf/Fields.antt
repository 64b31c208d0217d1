-- ===== src/Mbuf/Fields.antt =====
-- mbuf.c: pulling integers off the front of a packet, and packets made of user data.
use ka9q_unix.Base.{
  ℕ, ◌^◌, ◌<◌, ◌≡◌, List, [], ◌∷◌, length, get_or, arith, Option, none, some, ◌==◌, ltb, Bool, true,
  false, take_all, ◌||◌, ◌&&◌, if◌then◌else◌,
}
use ka9q_unix.Base.Word.{IsU16, IsU32}
use ka9q_unix.Bytes.{put16, put32, get16, get32}
use ka9q_unix.Bytes.Laws.{get16-put16, get32-put32}
use ka9q_unix.Mbuf.{Mbuf, Packet, cnt, is_null, ambufw, contents}
use ka9q_unix.Mbuf.Chain.{pullup, pushdown, copy_p, len_p}
use ka9q_unix.Mbuf.Chain.Copies.{copy_p-contents, copy_p_fails}
use ka9q_unix.Mbuf.Chain.Contents.{len_p-contents}
use ka9q_unix.Mbuf.Chain.Front.{pullup-pushdown}

-- `none` is the -1 of `pull16` and `pull8`; the bytes of a packet that is too short are gone.
pub pull32 : Packet → ℕ × Packet
pull32 p = let r = pullup 4 p in (if r.tot == 4 then get32 r.buf 0 else 0, r.rest)

pub pull16 : Packet → Option ℕ × Packet
pull16 p = let r = pullup 2 p in (if r.tot == 2 then some (get16 r.buf 0) else none, r.rest)

unfoldable pub pull8 : Packet → Option ℕ × Packet
pull8 p = let r = pullup 1 p in (if r.tot == 1 then some (get_or r.buf 0 0) else none, r.rest)

pub qdata : List ℕ → Packet
qdata bytes = record (ambufw (length bytes)) { bytes = bytes } ∷ []

-- Copy a chain, or an mbuf with wasted space, into one mbuf. The code reads `*bpp` unasked; a null
-- pointer there is `none`.
pub mbuf_crunch : Bool → Packet → Option Packet
mbuf_crunch malloc_ok [] = none
mbuf_crunch malloc_ok (b ∷ p) =
    let copy = copy_p malloc_ok (b ∷ p) (len_p (b ∷ p)) in
    if ltb 1 b.refcnt || b.is_dup
    then some (b ∷ p)
    else if is_null p && cnt b == b.size
    then some (b ∷ p)
    else if is_null copy
    then some (b ∷ p)
    else some copy

-- A 16-bit number that was pushed in front of a packet is pulled off again, and the rest is left.
pub pull16-pushdown :
    (stale : List ℕ) (x : ℕ) (p : Packet)
    → IsU16 x
    → let r = pull16 (pushdown stale (some (put16 x [])) 2 p) in
      (r.0 ≡ some x) × (contents r.1 ≡ contents p)
unfolding pull16 put16
pull16-pushdown stale x p h =
    let r = pullup-pushdown stale (put16 x []) p in
    (ground (arith, r, get16-put16 x (put16 x []) [] 0), r.2)

-- Likewise a 32-bit number.
pub pull32-pushdown :
    (stale : List ℕ) (x : ℕ) (p : Packet)
    → IsU32 x
    → let r = pull32 (pushdown stale (some (put32 x [])) 4 p) in
      (r.0 ≡ x) × (contents r.1 ≡ contents p)
unfolding pull32 put32
pull32-pushdown stale x p h =
    let r = pullup-pushdown stale (put32 x []) p in
    (ground (arith, r, get32-put32 x (put32 x []) [] 0), r.2)

-- What `mbuf_crunch` leaves, where it does not fault.
abbrev crunched : Bool → Mbuf → Packet → Packet
crunched malloc_ok b p =
    let copy = copy_p malloc_ok (b ∷ p) (len_p (b ∷ p)) in
    if ltb 1 b.refcnt || b.is_dup || is_null p && cnt b == b.size || is_null copy
    then b ∷ p
    else copy

crunched-contents :
    (malloc_ok : Bool) (b : Mbuf) (p : Packet)
    → length (contents (b ∷ p)) < 2 ^ 32
    → contents (crunched malloc_ok b p) ≡ contents (b ∷ p)
crunched-contents true b p h = ground (
  arith,
  copy_p-contents (b ∷ p) (len_p (b ∷ p)),
  len_p-contents (b ∷ p) h,
  take_all (len_p (b ∷ p)) (contents (b ∷ p)),
)
crunched-contents false b p h = ground (arith, copy_p_fails (b ∷ p) (len_p (b ∷ p)))

-- Crunching a packet of fewer than 2^32 bytes loses no bytes, whether or not memory is found.
pub mbuf_crunch-contents :
    (malloc_ok : Bool) (b : Mbuf) (p : Packet)
    → length (contents (b ∷ p)) < 2 ^ 32
    → (q : Packet) × (mbuf_crunch malloc_ok (b ∷ p) ≡ some q) × (contents q ≡ contents (b ∷ p))
unfolding mbuf_crunch
mbuf_crunch-contents malloc_ok b p h =
    (crunched malloc_ok b p, ground arith, crunched-contents malloc_ok b p h)
