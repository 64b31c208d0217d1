-- ===== src/Bytes/Laws.antt =====
-- What the conversions of misc.c compute, in plain arithmetic, and that reading undoes writing.
use ka9q_unix.Base.{ℕ, ◌+◌, ◌*◌, ◌^◌, ◌<◌, ◌≡◌, List, get_or, bit_or, arith}
use ka9q_unix.Base.Bits.{bit_or_fields}
use ka9q_unix.Base.Word.{u32, IsByte, IsU16, IsU32}
use ka9q_unix.Bytes.{put16, put32, get16, get32}

pub get16_lem :
    (cp : List ℕ) (i : ℕ)
    → IsByte (get_or cp (i + 1) 0)
    → get16 cp i ≡ get_or cp i 0 * 256 + get_or cp (i + 1) 0
unfolding get16
get16_lem cp i h = bit_or_fields 8 (get_or cp i 0) (get_or cp (i + 1) 0) h

join_bytes : (q r : ℕ) → q < 2 ^ 24 → r < 2 ^ 8 → bit_or (u32 (q * 2 ^ 8)) r ≡ q * 256 + r
join_bytes q r hq hr =
    let e : u32 (q * 2 ^ 8) ≡ q * 2 ^ 8 = omega arith in rw e (bit_or_fields 8 q r hr)

pub get32_lem :
    (cp : List ℕ) (i : ℕ)
    → IsByte (get_or cp i 0)
    → IsByte (get_or cp (i + 1) 0)
    → IsByte (get_or cp (i + 2) 0)
    → IsByte (get_or cp (i + 3) 0)
    → get32 cp i
      ≡ get_or cp i 0 * 2 ^ 24
        + get_or cp (i + 1) 0 * 2 ^ 16
        + get_or cp (i + 2) 0 * 2 ^ 8
        + get_or cp (i + 3) 0
unfolding get32
get32_lem cp i a b c d = rw (join_bytes (get_or cp i 0) (get_or cp (i + 1) 0) (omega arith) b) (
    rw
      (join_bytes (get_or cp i 0 * 256 + get_or cp (i + 1) 0) (get_or cp (i + 2) 0) (omega arith) c)
      (omega (
        arith,
        join_bytes ((get_or cp i 0 * 256 + get_or cp (i + 1) 0) * 256 + get_or cp (i + 2) 0)
            (get_or cp (i + 3) 0) (omega arith) d,
      )))

-- What `put16` wrote at index `i` of a buffer reads back.
pub get16-put16 :
    (x : ℕ) (cp rest : List ℕ) (i : ℕ)
    → IsU16 x
    → get_or cp i 0 ≡ get_or (put16 x rest) 0 0
    → get_or cp (i + 1) 0 ≡ get_or (put16 x rest) 1 0
    → get16 cp i ≡ x
unfolding put16
get16-put16 x cp rest i h a b = omega (arith, get16_lem cp i (omega arith))

pub get32-put32 :
    (x : ℕ) (cp rest : List ℕ) (i : ℕ)
    → IsU32 x
    → get_or cp i 0 ≡ get_or (put32 x rest) 0 0
    → get_or cp (i + 1) 0 ≡ get_or (put32 x rest) 1 0
    → get_or cp (i + 2) 0 ≡ get_or (put32 x rest) 2 0
    → get_or cp (i + 3) 0 ≡ get_or (put32 x rest) 3 0
    → get32 cp i ≡ x
unfolding put32
get32-put32 x cp rest i h a b c d =
    omega (arith, get32_lem cp i (omega arith) (omega arith) (omega arith) (omega arith))
