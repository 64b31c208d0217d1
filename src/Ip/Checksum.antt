-- ===== src/Ip/Checksum.antt =====
-- net/inet/iphdr.c: `cksum` and `eac`, with lcsum of unix/unix.c on a little-endian machine. Whether the
-- data of the mbuf at a place of the chain begin at an odd address is an argument. `none` is an empty
-- mbuf at an odd address, where the count falls below zero and the code reads on past the mbuf.
pub mod Sums
pub mod Halves
pub mod Reference
mod Tests
use ka9q_unix.Base.{
  ℕ, zero, suc, ◌+◌, ◌-◌, ◌*◌, ◌/◌, ◌%◌, ◌^◌, Bool, true, false, not, ltb, ◌==◌, List, [], ◌∷◌,
  length, take, drop, min, get_or, Option, none, some, if◌then◌else◌, bit_and, bit_or,
}
use ka9q_unix.Base.Word.{u16, u32, is_negative}
use ka9q_unix.Mbuf.{Packet, cnt}

pub record PseudoHeader : Type 0 where
  pub source : ℕ
  pub dest : ℕ
  pub protocol : ℕ
  pub length : ℕ

-- The loop of eac on at most `n` rounds. The sum is an int32, whose right shift keeps the sign.
unfoldable pub add_carries : ℕ → ℕ → ℕ
add_carries zero sum = sum
add_carries (suc n) sum =
    let csum = if is_negative sum then sum / 2 ^ 16 + (2 ^ 32 - 2 ^ 16) else sum / 2 ^ 16 in
    let rest = add_carries n (u32 (csum + u16 sum)) in if csum == 0 then sum else rest

-- Four rounds are enough for 32 bits.
unfoldable pub eac : ℕ → ℕ
unfolding add_carries
eac sum = u16 (add_carries 4 sum)

-- The words of the buffer, which the machine reads with the low byte first.
unfoldable pub add_words : ℕ → ℕ → List ℕ → ℕ
add_words zero sum buf = sum
add_words (suc cnt) sum buf =
    add_words cnt (u32 (sum + (get_or buf 0 0 + get_or buf 1 0 * 2 ^ 8))) (drop 2 buf)

-- The loop at the end of lcsum on at most `n` rounds.
unfoldable pub fold : ℕ → ℕ → ℕ
fold zero sum = sum
fold (suc n) sum = let rest = fold n (u16 sum + sum / 2 ^ 16) in if ltb 65535 sum then rest else sum

unfoldable pub lcsum : List ℕ → ℕ → ℕ
unfolding add_words fold
lcsum buf cnt =
    let sum = fold 3 (add_words cnt 0 buf) in
    bit_and (bit_or (sum / 2 ^ 8) (u32 (sum * 2 ^ 8))) 0xffff

-- A byte as the high or the low half of a word.
abbrev pub half : Bool → ℕ → ℕ
half swap c = if swap then c else c * 2 ^ 8

-- The odd byte at the front: its part of the sum, whether halves are swapped behind it, and the rest.
unfoldable pub leading : Bool → Bool → List ℕ → Option (ℕ × Bool × List ℕ)
leading false swap up = some (0, swap, up)
leading true swap [] = none
leading true swap (c ∷ up) = some (half swap c, not swap, up)

unfoldable pub aligned : Bool → List ℕ → ℕ
unfolding lcsum
aligned swap up =
    let csum1 = lcsum up (length up / 2) in
    let swapped = u16 (bit_or (csum1 * 2 ^ 8) (csum1 / 2 ^ 8)) in
    if ltb 1 (length up) then (if swap then swapped else csum1) else 0

unfoldable pub trailing : Bool → List ℕ → ℕ × Bool
trailing swap up =
    if length up % 2 == 1 then (half swap (get_or up (length up - 1) 0), not swap) else (0, swap)

-- One mbuf.
unfoldable pub add_mbuf : Bool → Bool → List ℕ → Option (ℕ × Bool)
unfolding leading aligned trailing
add_mbuf odd swap up = elim (leading odd swap up) [
  | none ↦ none
  | some (csum, swap', up') ↦
      some (csum + aligned swap' up' + (trailing swap' up').0, (trailing swap' up').1)
]

-- `left` is `len - total`, and `place` counts the mbufs.
unfoldable pub add_mbufs : (ℕ → Bool) → ℕ → Bool → ℕ → ℕ → Packet → Option ℕ
unfolding add_mbuf
add_mbufs odd place swap sum left [] = some sum
add_mbufs odd place swap sum left (m ∷ p) =
    elim (if left == 0 then some (0, swap) else add_mbuf (odd place) swap (take left m.bytes)) [
      | none ↦ none
      | some (csum, swap') ↦
          let rest = add_mbufs odd (place + 1) swap' (u32 (sum + csum)) (left - cnt m) p in
          if left == 0 then some sum else rest
    ]

unfoldable pub pseudo_sum : Option PseudoHeader → ℕ
pseudo_sum none = 0
pseudo_sum (some ph) =
    u16 (ph.source / 2 ^ 16)
    + u16 ph.source
    + u16 (ph.dest / 2 ^ 16)
    + u16 ph.dest
    + ph.protocol
    + ph.length

unfoldable pub cksum : (ℕ → Bool) → Option PseudoHeader → Packet → ℕ → Option ℕ
unfolding eac add_mbufs pseudo_sum
cksum odd ph p len = elim (add_mbufs odd 0 false (u32 (pseudo_sum ph)) len p) [
  | none ↦ none
  | some sum ↦ some (2 ^ 16 - 1 - eac sum)
]
