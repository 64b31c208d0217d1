-- ===== src/Ahdlc/RoundTrip.antt =====
-- `ahdlcrx` receives what `ahdlctx` sends.
use ka9q_unix.Base.{
  ℕ, ◌+◌, ◌-◌, ◌/◌, ◌^◌, ◌≤◌, ◌<◌, ◌≡◌, refl, sym, ap, ◌∙◌, get_or, inl, inr, bit_xor, true, false,
  List, [], ◌∷◌, ◌++◌, length, length-append, take, take-append_le, take_all, append-nil,
  append_assoc, All, arith, Option, none, some, ◌==◌, ◌||◌, Bool-cases, ℕ_discrete,
}
use ka9q_unix.Base.Word.{IsByte}
use ka9q_unix.Base.Bits.{bit_and_mask}
use ka9q_unix.Crc.{fcs, fcs_start, crc_update, crc_final_write}
use ka9q_unix.Crc.Check.{crc_update_frame, crc_update-append}
use ka9q_unix.Crc.Words.{bit_xor_cancel}
use ka9q_unix.Ahdlc.{Ahdlc, frame_of, ahdlcrx, receive, putbyte, tx_loop, ahdlctx}

-- Ready for a frame, or within one.
pub record IsOpen (a : Ahdlc) : Type 0 where
  pub plain : a.escaped ≡ false
  pub awake : a.hunt ≡ false

abbrev stored : Ahdlc → ℕ → Ahdlc
stored a c = record a { inframe = some (frame_of a.inframe ++ c ∷ []); fcs_now = fcs a.fcs_now c }

pub receive-quiet :
    (a b : Ahdlc) (c : ℕ) (cs : List ℕ)
    → ahdlcrx a c ≡ (b, none)
    → receive a (c ∷ cs) ≡ receive b cs
unfolding receive
receive-quiet a b c cs e = ap after e
  where
    after : Ahdlc × Option (List ℕ) → Ahdlc × List (List ℕ)
    after r =
        let (last, more) = receive r.0 cs in (last, elim r.1 [ none ↦ more | some p ↦ p ∷ more ])

rx_plain :
    (a : Ahdlc) (c : ℕ)
    → IsOpen a
    → length (frame_of a.inframe) < a.maxsize
    → (c == 0x7e || c == 0x7d) ≡ false
    → ahdlcrx a c ≡ (stored a c, none)
unfolding ahdlcrx
rx_plain a c o h e = ground arith

rx_escape :
    (a : Ahdlc) (c : ℕ)
    → IsOpen a
    → length (frame_of a.inframe) < a.maxsize
    → (c == 0x7e || c == 0x7d) ≡ false
    → ahdlcrx (record a { escaped = true }) c ≡ (stored a (bit_xor c 0x20), none)
unfolding ahdlcrx
rx_escape a c o h e = ground arith

escape_first : (a : Ahdlc) → ahdlcrx a 0x7d ≡ (record a { escaped = true }, none)
unfolding ahdlcrx
escape_first a = refl

-- The bytes that stand for one byte of data are stored as that byte.
receive-putbyte :
    (a : Ahdlc) (c : ℕ) (rest : List ℕ)
    → IsOpen a
    → length (frame_of a.inframe) < a.maxsize
    → receive a (putbyte c rest) ≡ receive (stored a c) rest
receive-putbyte a c rest o h = elim (Bool-cases (c == 0x7e || c == 0x7d)) [
  | inl special ↦
      unfold putbyte in
      rw special (
        receive-quiet a (record a { escaped = true }) 0x7d _ (escape_first a)
        ∙ receive-quiet (record a { escaped = true }) (stored a c) (bit_xor c 0x20) rest
            (rx_escape a (bit_xor c 0x20) o h (unescaped c special) ∙ rw (twice c special)))
  | inr plain ↦
      unfold putbyte in rw plain (receive-quiet a (stored a c) c rest (rx_plain a c o h plain))
]
  where
    unescaped :
        (c : ℕ)
        → (c == 0x7e || c == 0x7d) ≡ true
        → (bit_xor c 0x20 == 0x7e || bit_xor c 0x20 == 0x7d) ≡ false
    unescaped c e = elim (ℕ_discrete c 0x7e) [
      | yes p ↦ rw p
      | no p ↦ (let q : c ≡ 0x7d = ground arith in rw q)
    ]

    twice : (c : ℕ) → (c == 0x7e || c == 0x7d) ≡ true → bit_xor (bit_xor c 0x20) 0x20 ≡ c
    twice c e = bit_xor_cancel c 0x20

-- The receiver once a frame `f` with its check sequence has come in.
abbrev gathered : Ahdlc → List ℕ → Ahdlc
gathered a f = record a { inframe = some f; fcs_now = crc_update f fcs_start }

gathered-stored :
    (a : Ahdlc) (f : List ℕ) (c : ℕ) → stored (gathered a f) c ≡ gathered a (f ++ c ∷ [])
gathered-stored a f c =
    let e : crc_update (f ++ c ∷ []) fcs_start ≡ fcs (crc_update f fcs_start) c =
      crc_update-append f (c ∷ []) fcs_start ∙ unfold crc_update in refl in
    rw e

abbrev check_bytes : List ℕ → List ℕ
check_bytes xs = crc_final_write (crc_update xs fcs_start)

length-check_bytes : (xs : List ℕ) → length (check_bytes xs) ≡ 2
length-check_bytes xs = unfold crc_final_write in refl

take-data : (xs ys : List ℕ) → length ys ≡ 2 → take (length (xs ++ ys) - 2) (xs ++ ys) ≡ xs
take-data xs ys e =
    let n : length (xs ++ ys) - 2 ≡ length xs = omega (arith, length-append xs ys) in
    rw n (take-append_le (length xs) xs ys (omega arith) ∙ take_all (length xs) xs (omega arith))

-- The flag ends a frame whose check bytes are right.
rx_end_gathered :
    (a : Ahdlc) (bp : List ℕ)
    → IsOpen a
    → a.inframe ≡ none
    → a.fcs_now ≡ fcs_start
    → All IsByte bp
    → ahdlcrx (gathered a (bp ++ check_bytes bp)) 0x7e
      ≡ (record a { rxframes = a.rxframes + 1 }, some bp)
unfolding ahdlcrx
rx_end_gathered a bp o i f h = ground (
  arith,
  crc_update_frame bp h,
  length-append bp (check_bytes bp),
  length-check_bytes bp,
  take-data bp (check_bytes bp) (length-check_bytes bp),
)

-- One byte of data, or of the check sequence, on top of a frame.
gather :
    (a : Ahdlc) (f : List ℕ) (c : ℕ) (rest : List ℕ)
    → IsOpen a
    → length f < a.maxsize
    → receive (gathered a f) (putbyte c rest) ≡ receive (gathered a (f ++ c ∷ [])) rest
gather a f c rest o h =
    receive-putbyte (gathered a f) c rest (record { plain = o.plain; awake = o.awake }) h
    ∙ ap (λ (b : Ahdlc). receive b rest) (gathered-stored a f c)

tx_tail :
    (f : ℕ)
    → tx_loop f []
      ≡ putbyte
          (get_or (crc_final_write f) 0 0)
          (putbyte (get_or (crc_final_write f) 1 0) (0x7e ∷ []))
unfolding tx_loop crc_final_write
tx_tail f = rw (bit_and_mask 8 (bit_xor f 0xffff), bit_and_mask 8 (bit_xor f 0xffff / 2 ^ 8))

receive-tx_loop :
    (a : Ahdlc) (f xs : List ℕ)
    → IsOpen a
    → length f + length xs + 2 ≤ a.maxsize
    → receive (gathered a f) (tx_loop (crc_update f fcs_start) xs)
      ≡ receive (gathered a ((f ++ xs) ++ check_bytes (f ++ xs))) (0x7e ∷ [])
receive-tx_loop a f [] o h =
    rw (append-nil f, tx_tail (crc_update f fcs_start))
      (gather a f lo _ o (omega arith)
        ∙ gather a (f ++ lo ∷ []) hi (0x7e ∷ []) o (omega (arith, length-append f (lo ∷ [])))
        ∙ ap (λ (g : List ℕ). receive (gathered a g) (0x7e ∷ []))
            (append_assoc f (lo ∷ []) (hi ∷ []) ∙ ap (◌++◌ f) both))
  where
    lo : ℕ
    lo = get_or (check_bytes f) 0 0

    hi : ℕ
    hi = get_or (check_bytes f) 1 0

    both : lo ∷ hi ∷ [] ≡ check_bytes f
    both = unfold crc_final_write in refl
receive-tx_loop a f (x ∷ xs) o h =
    tx_loop-cons x xs (crc_update f fcs_start) (gathered a f)
    ∙ gather a f x (tx_loop (fcs (crc_update f fcs_start) x) xs) o (omega arith)
    ∙ ap (λ (g : ℕ). receive (gathered a (f ++ x ∷ [])) (tx_loop g xs)) (sym (next_fcs f x))
    ∙ receive-tx_loop a (f ++ x ∷ []) xs o (omega (arith, length-append f (x ∷ [])))
    ∙ ap (λ (g : List ℕ). receive (gathered a (g ++ check_bytes g)) (0x7e ∷ []))
        (append_assoc f (x ∷ []) xs)
  where
    next_fcs :
        (f : List ℕ) (x : ℕ) → crc_update (f ++ x ∷ []) fcs_start ≡ fcs (crc_update f fcs_start) x
    next_fcs f x = crc_update-append f (x ∷ []) fcs_start ∙ unfold crc_update in refl

    tx_loop-cons :
        (x : ℕ) (xs : List ℕ) (g : ℕ) (b : Ahdlc)
        → receive b (tx_loop g (x ∷ xs)) ≡ receive b (putbyte x (tx_loop (fcs g x) xs))
    tx_loop-cons x xs g b = unfold tx_loop in refl

-- Between frames: nothing pending, and the check sequence at its start.
pub record IsIdle (a : Ahdlc) : Type 0 where
  pub open_now : IsOpen a
  pub empty : a.inframe ≡ none
  pub fresh : a.fcs_now ≡ fcs_start

-- The first byte of a frame makes an empty frame of none.
first_byte :
    (a : Ahdlc) (c : ℕ) (rest : List ℕ)
    → IsIdle a
    → 0 < a.maxsize
    → receive a (putbyte c rest) ≡ receive (gathered a []) (putbyte c rest)
first_byte a c rest i h =
    receive-putbyte a c rest i.open_now (ground (arith, i.empty))
    ∙ ap (λ (b : Ahdlc). receive b rest) same
    ∙ sym (
        receive-putbyte (gathered a []) c rest
          (record { plain = i.open_now.plain; awake = i.open_now.awake }) h)
  where
    same : stored a c ≡ stored (gathered a []) c
    same = unfold crc_update in ground (arith, i.empty, i.fresh)

first_tx :
    (a : Ahdlc) (bp : List ℕ)
    → IsIdle a
    → 0 < a.maxsize
    → receive a (ahdlctx bp) ≡ receive (gathered a []) (tx_loop (crc_update [] fcs_start) bp)
unfolding ahdlctx crc_update
first_tx a [] i h = rw (tx_tail fcs_start) (
    first_byte a (get_or (crc_final_write fcs_start) 0 0)
      (putbyte (get_or (crc_final_write fcs_start) 1 0) (0x7e ∷ [])) i h)
first_tx a (c ∷ bp) i h = unfold tx_loop in first_byte a c (tx_loop (fcs fcs_start c) bp) i h

-- Any packet that fits `maxsize` with its two check bytes comes through: an idle receiver that is
-- fed what `ahdlctx` made of it returns just that packet, counts one frame, and is idle as before.
pub receive-ahdlctx :
    (a : Ahdlc) (bp : List ℕ)
    → IsIdle a
    → All IsByte bp
    → length bp + 2 ≤ a.maxsize
    → receive a (ahdlctx bp) ≡ (record a { rxframes = a.rxframes + 1 }, bp ∷ [])
receive-ahdlctx a bp i hb h =
    first_tx a bp i (omega arith)
    ∙ receive-tx_loop a [] bp i.open_now (omega arith)
    ∙ last_flag _ _ (rx_end_gathered a bp i.open_now i.empty i.fresh hb)
  where
    last_flag : (b d : Ahdlc) → ahdlcrx b 0x7e ≡ (d, some bp) → receive b (0x7e ∷ []) ≡ (d, bp ∷ [])
    last_flag b d e =
        unfold receive in
        ap (λ (r : Ahdlc × Option (List ℕ)). (r.0, elim r.1 [ none ↦ [] | some p ↦ p ∷ [] ])) e
