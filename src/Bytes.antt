-- ===== src/Bytes.antt =====
-- lib/util/misc.c: the conversions between host integers and network byte order. A write through a
-- moving pointer is a list put in front of what is written next; a read takes the bytes it finds
-- and `0` behind the end of the list, where C would read on in its fixed-size local buffer.
pub mod Laws
use ka9q_unix.Base.{ℕ, ◌+◌, ◌*◌, ◌/◌, ◌%◌, ◌^◌, List, [], ◌∷◌, get_or, bit_or}
use ka9q_unix.Base.Word.{u8, u32}

unfoldable pub put16 : ℕ → List ℕ → List ℕ
put16 x rest = u8 (x / 2 ^ 8) ∷ u8 x ∷ rest

unfoldable pub put32 : ℕ → List ℕ → List ℕ
put32 x rest = u8 (x / 2 ^ 24) ∷ u8 (x / 2 ^ 16) ∷ u8 (x / 2 ^ 8) ∷ u8 x ∷ rest

-- `get16 cp i` reads at `&cp[i]`.
unfoldable pub get16 : List ℕ → ℕ → ℕ
get16 cp i = bit_or (get_or cp i 0 * 2 ^ 8) (get_or cp (i + 1) 0)

unfoldable pub get32 : List ℕ → ℕ → ℕ
get32 cp i =
    let rval = get_or cp i 0 in
    let rval' = bit_or (u32 (rval * 2 ^ 8)) (get_or cp (i + 1) 0) in
    let rval'' = bit_or (u32 (rval' * 2 ^ 8)) (get_or cp (i + 2) 0) in
    bit_or (u32 (rval'' * 2 ^ 8)) (get_or cp (i + 3) 0)
