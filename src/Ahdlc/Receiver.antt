-- ===== src/Ahdlc/Receiver.antt =====
-- The receiver of ahdlc.c on any input: its buffer, and what becomes of a frame behind a discarded
-- one.
use ka9q_unix.Base.{
  ℕ, ◌+◌, ◌≤◌, ◌≡◌, ◌≢◌, refl, sym, ap, ◌∙◌, inl, inr, bit_xor, Bool, true, false, List, [], ◌∷◌,
  ◌++◌, length, length-append, All, arith, none, ◌==◌, ◌||◌, Bool-cases, append_assoc, ℕ_discrete,
  ◌/◌, ◌^◌,
}
use ka9q_unix.Ahdlc.{Ahdlc, frame_of, ahdlcrx, receive, putbyte, tx_loop, ahdlctx}
use ka9q_unix.Ahdlc.RoundTrip.{receive-quiet}
use ka9q_unix.Base.Word.{u8}
use ka9q_unix.Crc.{fcs, fcs_start}

-- The buffer that `ambufw(maxsize)` gave is never overrun.
abbrev pub Fits : Ahdlc → Type 0
Fits a = length (frame_of a.inframe) ≤ a.maxsize

ahdlcrx-Fits : (a : Ahdlc) (c : ℕ) → Fits a → Fits (ahdlcrx a c).0
unfolding ahdlcrx
ahdlcrx-Fits a c h = ground (
  arith,
  length-append (frame_of a.inframe) (c ∷ []),
  length-append (frame_of a.inframe) (bit_xor c 0x20 ∷ []),
)

-- On any line input the frame under way stays within the buffer of `maxsize` bytes.
pub receive-Fits : (a : Ahdlc) (cs : List ℕ) → Fits a → Fits (receive a cs).0
unfolding receive
receive-Fits a [] h = h
receive-Fits a (c ∷ cs) h = receive-Fits (ahdlcrx a c).0 cs (ahdlcrx-Fits a c h)

abbrev NoFlag : List ℕ → Type 0
NoFlag = All (λ c. c ≢ 0x7e)

-- Whether an escape is pending after bytes that are discarded.
abbrev pending : List ℕ → Bool → Bool
pending [] e = e
pending (c ∷ cs) e = pending cs (c == 0x7d || e)

hunting_step :
    (a : Ahdlc) (c : ℕ)
    → a.hunt ≡ true
    → c ≢ 0x7e
    → ahdlcrx a c ≡ (record a { escaped = c == 0x7d || a.escaped }, none)
unfolding ahdlcrx
hunting_step a c h n = ground arith

-- A hunting receiver throws bytes away, and notes an escape among them.
hunting :
    (a : Ahdlc) (cs rest : List ℕ)
    → a.hunt ≡ true
    → NoFlag cs
    → receive a (cs ++ rest) ≡ receive (record a { escaped = pending cs a.escaped }) rest
hunting a [] rest h n = refl
hunting a (c ∷ cs) rest h n =
    receive-quiet a (record a { escaped = c == 0x7d || a.escaped }) c (cs ++ rest)
      (hunting_step a c h n.0)
    ∙ hunting (record a { escaped = c == 0x7d || a.escaped }) cs rest h n.1

pending_stays : (cs : List ℕ) → pending cs true ≡ true
pending_stays [] = refl
pending_stays (c ∷ cs) = elim (Bool-cases (c == 0x7d)) [
  | inl e ↦ rw e (pending_stays cs)
  | inr e ↦ rw e (pending_stays cs)
]

pending_found : (front back : List ℕ) (e : Bool) → pending (front ++ 0x7d ∷ back) e ≡ true
pending_found [] back e = pending_stays back
pending_found (c ∷ front) back e = pending_found front back (c == 0x7d || e)

-- A flag behind a pending escape is an abort, and the hunt goes on.
abort :
    (a : Ahdlc)
    → a.escaped ≡ true
    → ahdlcrx a 0x7e ≡ (
      record a {
        aborts = a.aborts + 1;
        hunt = true;
        escaped = false;
        inframe = none;
        fcs_now = fcs_start;
      },
      none,
    )
unfolding ahdlcrx
abort a e = ground arith

hunt_flag : (a : Ahdlc) → a.hunt ≡ true → (receive a (0x7e ∷ [])).1 ≡ []
unfolding receive ahdlcrx
hunt_flag a h = ground arith

-- What is sent for a packet is one run of bytes that are no flag, and a flag.
putbyte_run : (c : ℕ) (rest : List ℕ) → (run : List ℕ) × NoFlag run × (putbyte c rest ≡ run ++ rest)
unfolding putbyte
putbyte_run c rest = elim (Bool-cases (c == 0x7e || c == 0x7d)) [
  | inl e ↦ (0x7d ∷ bit_xor c 0x20 ∷ [], (omega arith, (unflagged c e, tt)), rw e)
  | inr e ↦ (c ∷ [], (ground arith, tt), rw e)
]
  where
    unflagged : (c : ℕ) → (c == 0x7e || c == 0x7d) ≡ true → bit_xor c 0x20 ≢ 0x7e
    unflagged c e = elim (ℕ_discrete c 0x7e) [
      | yes p ↦ rw p (omega arith)
      | no p ↦ (let q : c ≡ 0x7d = ground arith in rw q (omega arith))
    ]

NoFlag-append : (xs ys : List ℕ) → NoFlag xs → NoFlag ys → NoFlag (xs ++ ys)
NoFlag-append [] ys h k = k
NoFlag-append (x ∷ xs) ys h k = (h.0, NoFlag-append xs ys h.1 k)

abbrev OneRun : List ℕ → Type 0
OneRun cs = (run : List ℕ) × NoFlag run × (cs ≡ run ++ 0x7e ∷ [])

putbyte-OneRun : (c : ℕ) (rest : List ℕ) → OneRun rest → OneRun (putbyte c rest)
putbyte-OneRun c rest (run, n, e) =
    let (first, m, d) = putbyte_run c rest in
    (
      first ++ run,
      NoFlag-append first run m n,
      d ∙ ap (◌++◌ first) e ∙ sym (append_assoc first run (0x7e ∷ [])),
    )

tx_loop-OneRun : (f : ℕ) (bp : List ℕ) → OneRun (tx_loop f bp)
unfolding tx_loop
tx_loop-OneRun f [] =
    putbyte-OneRun (u8 (bit_xor f 0xffff)) _
      (putbyte-OneRun (u8 (bit_xor f 0xffff / 2 ^ 8)) (0x7e ∷ []) ([], tt, refl))
tx_loop-OneRun f (c ∷ bp) = putbyte-OneRun c (tx_loop (fcs f c) bp) (tx_loop-OneRun (fcs f c) bp)

hunting-OneRun : (a : Ahdlc) (cs : List ℕ) → a.hunt ≡ true → OneRun cs → (receive a cs).1 ≡ []
hunting-OneRun a cs h (run, n, e) =
    ap (λ (ds : List ℕ). (receive a ds).1) e
    ∙ ap (λ (r : Ahdlc × List (List ℕ)). r.1) (hunting a run (0x7e ∷ []) h n)
    ∙ hunt_flag (record a { escaped = pending run a.escaped }) h

-- A receiver that discards the rest of a frame, as it does behind one that is too large, loses the
-- next packet too if an escape is among the discarded bytes: the flag between is taken for an abort.
pub stale_escape :
    (a : Ahdlc) (front back bp : List ℕ)
    → a.hunt ≡ true
    → NoFlag front
    → NoFlag back
    → (receive a ((front ++ 0x7d ∷ back) ++ 0x7e ∷ ahdlctx bp)).1 ≡ []
unfolding ahdlctx
stale_escape a front back bp h n m =
    ap (λ (r : Ahdlc × List (List ℕ)). r.1)
      (hunting a (front ++ 0x7d ∷ back) (0x7e ∷ tx_loop fcs_start bp) h
          (NoFlag-append front (0x7d ∷ back) n (omega arith, m))
        ∙ receive-quiet stale awake 0x7e (tx_loop fcs_start bp)
            (abort stale (pending_found front back a.escaped)))
    ∙ hunting-OneRun awake (tx_loop fcs_start bp) refl (tx_loop-OneRun fcs_start bp)
  where
    stale : Ahdlc
    stale = record a { escaped = pending (front ++ 0x7d ∷ back) a.escaped }

    awake : Ahdlc
    awake = record stale {
      aborts = a.aborts + 1;
      hunt = true;
      escaped = false;
      inframe = none;
      fcs_now = fcs_start;
    }
