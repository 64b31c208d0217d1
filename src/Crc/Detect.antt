-- ===== src/Crc/Detect.antt =====
-- Errors that the frame check sequence of crc.c finds: its table is that of the CCITT polynomial,
-- one step can be undone, and so a frame with one wrong byte never passes.
use ka9q_unix.Base.{
  ℕ, ◌+◌, ◌*◌, ◌/◌, ◌%◌, ◌^◌, ◌<◌, ◌≡◌, refl, sym, ap, ◌∙◌, bit_xor, ◌&&◌, List, [], ◌∷◌, get_or,
  All, ◌==◌, ==_iff, ltb, if◌then◌else◌, arith,
}
use ka9q_unix.Base.Bits.{bit_xor_fields, every_below, every_below-holds}
use ka9q_unix.Base.Word.{IsByte, IsU16}
use ka9q_unix.Crc.{fcs, crc_update}
use ka9q_unix.Crc.Words.{fcs_bytes, bit_xor_cancel, bit_xor_cancel_left, bit_xor-lt, zero-bit_xor}
use ka9q_unix.Crc.Table.{fcstab}

-- Division by the CCITT polynomial in reversed bit order, one bit at a time.
abbrev pub crc_bit : ℕ → ℕ
crc_bit x = if x % 2 == 1 then bit_xor (x / 2) 0x8408 else x / 2

abbrev pub crc_byte : ℕ → ℕ
crc_byte x = crc_bit (crc_bit (crc_bit (crc_bit (crc_bit (crc_bit (crc_bit (crc_bit x)))))))

-- Every entry of the table is the remainder of its index under eight steps of the division.
pub fcstab-crc_byte : (i : ℕ) → IsByte i → get_or fcstab i 0 ≡ crc_byte i
fcstab-crc_byte i h = (==_iff _ _).0 (
    every_below-holds 256 (λ i. get_or fcstab i 0 == crc_byte i) i
      (unfold every_below fcstab in refl) h)

-- The index of the entry with a given high byte.
abbrev index_of : List ℕ
index_of =
    0x00 ∷ 0x11 ∷ 0x22 ∷ 0x33 ∷ 0x44 ∷ 0x55 ∷ 0x66 ∷ 0x77 ∷ 0x88 ∷ 0x99 ∷ 0xaa ∷ 0xbb ∷ 0xcc ∷ 0xdd
    ∷ 0xee ∷ 0xff ∷ 0x10 ∷ 0x01 ∷ 0x32 ∷ 0x23 ∷ 0x54 ∷ 0x45 ∷ 0x76 ∷ 0x67 ∷ 0x98 ∷ 0x89 ∷ 0xba
    ∷ 0xab ∷ 0xdc ∷ 0xcd ∷ 0xfe ∷ 0xef ∷ 0x31 ∷ 0x20 ∷ 0x13 ∷ 0x02 ∷ 0x75 ∷ 0x64 ∷ 0x57 ∷ 0x46
    ∷ 0xb9 ∷ 0xa8 ∷ 0x9b ∷ 0x8a ∷ 0xfd ∷ 0xec ∷ 0xdf ∷ 0xce ∷ 0x21 ∷ 0x30 ∷ 0x03 ∷ 0x12 ∷ 0x65
    ∷ 0x74 ∷ 0x47 ∷ 0x56 ∷ 0xa9 ∷ 0xb8 ∷ 0x8b ∷ 0x9a ∷ 0xed ∷ 0xfc ∷ 0xcf ∷ 0xde ∷ 0x62 ∷ 0x73
    ∷ 0x40 ∷ 0x51 ∷ 0x26 ∷ 0x37 ∷ 0x04 ∷ 0x15 ∷ 0xea ∷ 0xfb ∷ 0xc8 ∷ 0xd9 ∷ 0xae ∷ 0xbf ∷ 0x8c
    ∷ 0x9d ∷ 0x72 ∷ 0x63 ∷ 0x50 ∷ 0x41 ∷ 0x36 ∷ 0x27 ∷ 0x14 ∷ 0x05 ∷ 0xfa ∷ 0xeb ∷ 0xd8 ∷ 0xc9
    ∷ 0xbe ∷ 0xaf ∷ 0x9c ∷ 0x8d ∷ 0x53 ∷ 0x42 ∷ 0x71 ∷ 0x60 ∷ 0x17 ∷ 0x06 ∷ 0x35 ∷ 0x24 ∷ 0xdb
    ∷ 0xca ∷ 0xf9 ∷ 0xe8 ∷ 0x9f ∷ 0x8e ∷ 0xbd ∷ 0xac ∷ 0x43 ∷ 0x52 ∷ 0x61 ∷ 0x70 ∷ 0x07 ∷ 0x16
    ∷ 0x25 ∷ 0x34 ∷ 0xcb ∷ 0xda ∷ 0xe9 ∷ 0xf8 ∷ 0x8f ∷ 0x9e ∷ 0xad ∷ 0xbc ∷ 0xc4 ∷ 0xd5 ∷ 0xe6
    ∷ 0xf7 ∷ 0x80 ∷ 0x91 ∷ 0xa2 ∷ 0xb3 ∷ 0x4c ∷ 0x5d ∷ 0x6e ∷ 0x7f ∷ 0x08 ∷ 0x19 ∷ 0x2a ∷ 0x3b
    ∷ 0xd4 ∷ 0xc5 ∷ 0xf6 ∷ 0xe7 ∷ 0x90 ∷ 0x81 ∷ 0xb2 ∷ 0xa3 ∷ 0x5c ∷ 0x4d ∷ 0x7e ∷ 0x6f ∷ 0x18
    ∷ 0x09 ∷ 0x3a ∷ 0x2b ∷ 0xf5 ∷ 0xe4 ∷ 0xd7 ∷ 0xc6 ∷ 0xb1 ∷ 0xa0 ∷ 0x93 ∷ 0x82 ∷ 0x7d ∷ 0x6c
    ∷ 0x5f ∷ 0x4e ∷ 0x39 ∷ 0x28 ∷ 0x1b ∷ 0x0a ∷ 0xe5 ∷ 0xf4 ∷ 0xc7 ∷ 0xd6 ∷ 0xa1 ∷ 0xb0 ∷ 0x83
    ∷ 0x92 ∷ 0x6d ∷ 0x7c ∷ 0x4f ∷ 0x5e ∷ 0x29 ∷ 0x38 ∷ 0x0b ∷ 0x1a ∷ 0xa6 ∷ 0xb7 ∷ 0x84 ∷ 0x95
    ∷ 0xe2 ∷ 0xf3 ∷ 0xc0 ∷ 0xd1 ∷ 0x2e ∷ 0x3f ∷ 0x0c ∷ 0x1d ∷ 0x6a ∷ 0x7b ∷ 0x48 ∷ 0x59 ∷ 0xb6
    ∷ 0xa7 ∷ 0x94 ∷ 0x85 ∷ 0xf2 ∷ 0xe3 ∷ 0xd0 ∷ 0xc1 ∷ 0x3e ∷ 0x2f ∷ 0x1c ∷ 0x0d ∷ 0x7a ∷ 0x6b
    ∷ 0x58 ∷ 0x49 ∷ 0x97 ∷ 0x86 ∷ 0xb5 ∷ 0xa4 ∷ 0xd3 ∷ 0xc2 ∷ 0xf1 ∷ 0xe0 ∷ 0x1f ∷ 0x0e ∷ 0x3d
    ∷ 0x2c ∷ 0x5b ∷ 0x4a ∷ 0x79 ∷ 0x68 ∷ 0x87 ∷ 0x96 ∷ 0xa5 ∷ 0xb4 ∷ 0xc3 ∷ 0xd2 ∷ 0xe1 ∷ 0xf0
    ∷ 0x0f ∷ 0x1e ∷ 0x2d ∷ 0x3c ∷ 0x4b ∷ 0x5a ∷ 0x69 ∷ 0x78 ∷ []

entry_index :
    (i : ℕ)
    → IsByte i
    → (get_or index_of (get_or fcstab i 0 / 256) 0 ≡ i) × (get_or fcstab i 0 < 2 ^ 16)
entry_index i h = ground (
  arith,
  every_below-holds 256
      (λ i. get_or index_of (get_or fcstab i 0 / 256) 0 == i && ltb (get_or fcstab i 0) (2 ^ 16)) i
      (unfold every_below fcstab in refl) h,
)

abbrev entry : ℕ → ℕ → ℕ
entry f c = get_or fcstab (bit_xor (f % 256) c) 0

-- One step as two bytes: the high byte is the entry's, the low byte the old high byte mixed in.
fcs_parts :
    (f c : ℕ)
    → IsU16 f
    → IsByte c
    → fcs f c ≡ entry f c / 256 * 256 + bit_xor (f / 256) (entry f c % 256)
fcs_parts f c hf hc =
    let t = entry f c in
    let e : f / 256 * 256 + f % 256 ≡ f = omega arith in
    let z : 0 * 2 ^ 8 + f / 256 ≡ f / 256 = omega arith in
    let u : t / 256 * 2 ^ 8 + t % 256 ≡ t = omega arith in
    rw e at (fcs_bytes (f / 256) (f % 256) c (omega arith) hc)
    ∙ rw (z, u, zero-bit_xor) at
        (bit_xor_fields 8 0 (t / 256) (f / 256) (t % 256) (omega arith) (omega arith))

module _ (f c : ℕ) (hf : IsU16 f) (hc : IsByte c) where
  mixed : bit_xor (f / 256) (entry f c % 256) < 2 ^ 8
  mixed = bit_xor-lt 8 (f / 256) (entry f c % 256) (omega arith) (omega arith)

  index-lt : bit_xor (f % 256) c < 2 ^ 8
  index-lt = bit_xor-lt 8 (f % 256) c (omega arith) hc

  pub fcs-lt : IsU16 (fcs f c)
  fcs-lt = omega (arith, fcs_parts f c hf hc, mixed, entry_index (bit_xor (f % 256) c) index-lt)

  -- The table index and the old high byte can be read off the new word.
  fcs_index : bit_xor (f % 256) c ≡ get_or index_of (fcs f c / 256) 0
  fcs_index =
      let q : fcs f c / 256 ≡ entry f c / 256 = omega (arith, fcs_parts f c hf hc, mixed) in
      rw q (sym (entry_index (bit_xor (f % 256) c) index-lt).0)

  fcs_high :
      f / 256 ≡ bit_xor (fcs f c % 256) (get_or fcstab (get_or index_of (fcs f c / 256) 0) 0 % 256)
  fcs_high =
      let r : fcs f c % 256 ≡ bit_xor (f / 256) (entry f c % 256) =
        omega (arith, fcs_parts f c hf hc, mixed) in
      rw (← fcs_index, r) (sym (bit_xor_cancel (f / 256) (entry f c % 256)))

-- Two words that one byte takes to the same word are the same.
pub fcs_word_injective : (f g c : ℕ) → IsU16 f → IsU16 g → IsByte c → fcs f c ≡ fcs g c → f ≡ g
fcs_word_injective f g c hf hg hc e = omega (arith, low, high)
  where
    index : bit_xor (f % 256) c ≡ bit_xor (g % 256) c
    index =
        fcs_index f c hf hc
        ∙ ap (λ (t : ℕ). get_or index_of (t / 256) 0) e
        ∙ sym (fcs_index g c hg hc)

    low : f % 256 ≡ g % 256
    low =
        sym (bit_xor_cancel (f % 256) c)
        ∙ ap (λ (t : ℕ). bit_xor t c) index
        ∙ bit_xor_cancel (g % 256) c

    high : f / 256 ≡ g / 256
    high =
        fcs_high f c hf hc
        ∙ ap (λ (t : ℕ). bit_xor (t % 256) (get_or fcstab (get_or index_of (t / 256) 0) 0 % 256)) e
        ∙ sym (fcs_high g c hg hc)

-- Two bytes that take one word to the same word are the same.
pub fcs_byte_injective : (f c d : ℕ) → IsU16 f → IsByte c → IsByte d → fcs f c ≡ fcs f d → c ≡ d
fcs_byte_injective f c d hf hc hd e =
    sym (bit_xor_cancel_left (f % 256) c)
    ∙ ap (bit_xor (f % 256)) index
    ∙ bit_xor_cancel_left (f % 256) d
  where
    index : bit_xor (f % 256) c ≡ bit_xor (f % 256) d
    index =
        fcs_index f c hf hc
        ∙ ap (λ (t : ℕ). get_or index_of (t / 256) 0) e
        ∙ sym (fcs_index f d hf hd)

pub crc_update-lt : (xs : List ℕ) (f : ℕ) → All IsByte xs → IsU16 f → IsU16 (crc_update xs f)
crc_update-lt [] f h hf = unfold crc_update in hf
crc_update-lt (c ∷ xs) f h hf =
    crc_update-cons c xs f (crc_update-lt xs (fcs f c) h.1 (fcs-lt f c hf h.0))
  where
    crc_update-cons :
        (c : ℕ) (xs : List ℕ) (f : ℕ)
        → IsU16 (crc_update xs (fcs f c))
        → IsU16 (crc_update (c ∷ xs) f)
    crc_update-cons c xs f h = unfold crc_update in h
