-- ===== src/Slip/Decode.antt =====
-- `slip_rx` receives what `slip_encode` sends.
use ka9q_unix.Base.{
  ℕ, ◌+◌, ◌^◌, ◌≡◌, ◌<◌, refl, sym, ap, ◌∙◌, List, [], ◌∷◌, ◌++◌, length, Bool, true, false, Option,
  none, some, ◌==◌, arith, ◌≢◌, if◌then◌else◌, inl, inr, Bool-cases, append_assoc, append-nil,
  ℕ_discrete, length-append, subst, if_cases, ap₂, get_or, leb, bit_and, not,
}
use mathlib.Core.Path.{Path}
use ka9q_unix.Base.Bits.{every_below, every_below-holds}
use ka9q_unix.Mbuf.{Mbuf, Packet, contents, alloc_mbuf, size_class}
use ka9q_unix.Slip.{
  Slip, Slhc, Receiver, type_byte, deliver, accept, discard, mask_type, escape, store, put,
  slip_decode, slip_rx, slip_encode, slip_alloc, decode_char,
}
use ka9q_unix.Slip.Encode.{escaped_bytes, slip_encode-contents}

-- Each mbuf holds a byte.
abbrev IsFilled : Packet → Type 0
IsFilled [] = Unit
IsFilled (b ∷ p) = (0 < length b.bytes) × IsFilled p

abbrev Stores : Packet → ℕ → Type 0
Stores p c =
    (q : Packet) × (store true p c ≡ some q) × (contents q ≡ contents p ++ c ∷ []) × IsFilled q

-- With memory a byte goes to the end of the packet under construction, in a new mbuf or in the last.
store-contents : (p : Packet) (c : ℕ) → IsFilled p → Stores p c
unfolding store alloc_mbuf size_class
store-contents [] c f = (_, refl, refl, (omega arith, tt))
store-contents (b ∷ []) c (pos, f) = elim (Bool-cases (length b.bytes == slip_alloc)) [
  | inl full ↦
      let d : Mbuf = record { size = 128; refcnt = 1; is_dup = false; room = 0; bytes = c ∷ [] } in
      (
        b ∷ d ∷ [],
        rw full refl,
        ap (λ (xs : List ℕ). xs ++ c ∷ []) (sym (append-nil b.bytes)),
        (pos, (omega arith, tt)),
      )
  | inr room ↦ (
    record b { bytes = b.bytes ++ c ∷ [] } ∷ [],
    rw room refl,
    append-nil (b.bytes ++ c ∷ []) ∙ ap (λ (xs : List ℕ). xs ++ c ∷ []) (sym (append-nil b.bytes)),
    (omega (arith, length-append b.bytes (c ∷ [])), tt),
  )
]
store-contents (b ∷ d ∷ p) c (pos, f) =
    let (q, e, h, g) = store-contents (d ∷ p) c f in
    (
      b ∷ q,
      ap (λ (o : Option Packet). elim o [ none ↦ none | some r ↦ some (b ∷ r) ]) e,
      ap (◌++◌ b.bytes) h ∙ sym (append_assoc b.bytes (contents (d ∷ p)) (c ∷ [])),
      (pos, g),
    )

put-contents :
    (sp : Slip) (c : ℕ)
    → IsFilled sp.rbp
    → (contents (put true sp c).rbp ≡ contents sp.rbp ++ c ∷ []) × IsFilled (put true sp c).rbp
unfolding put
put-contents sp c f =
    let (q, e, h, g) = store-contents sp.rbp c f in
    (
      ap (λ (o : Option Packet). contents (elim o [ none ↦ [] | some r ↦ r ])) e ∙ h,
      subst (λ (o : Option Packet). IsFilled (elim o [ none ↦ [] | some r ↦ r ])) (sym e) g,
    )

type_byte_lem : (p : Packet) → IsFilled p → type_byte p ≡ get_or (contents p) 0 0
type_byte_lem [] h = refl
type_byte_lem (b ∷ p) h = go b.bytes (contents p) h.0
  where
    go : (xs ys : List ℕ) → 0 < length xs → get_or xs 0 0 ≡ get_or (xs ++ ys) 0 0
    go [] ys l = absurd (omega (arith, l))
    go (x ∷ xs) ys l = refl

decode_plain :
    (sp : Slip) (c : ℕ)
    → sp.escaped ≡ false
    → (c == 0xc0) ≡ false
    → (c == 0xdb) ≡ false
    → slip_decode true sp c ≡ (put true sp c, [])
unfolding slip_decode decode_char
decode_plain sp c o n m = rw (n, m, o) refl

decode_esc : (sp : Slip) → slip_decode true sp 0xdb ≡ (record sp { escaped = true }, [])
unfolding slip_decode
decode_esc sp = refl

decode_t_esc :
    (sp : Slip)
    → sp.escaped ≡ false
    → slip_decode true (record sp { escaped = true }) 0xdd ≡ (put true sp 0xdb, [])
unfolding slip_decode decode_char
decode_t_esc sp o = ap (λ (e : Bool). (put true (record sp { escaped = e }) 0xdb, [])) (sym o)

decode_t_end :
    (sp : Slip)
    → sp.escaped ≡ false
    → slip_decode true (record sp { escaped = true }) 0xdc ≡ (put true sp 0xc0, [])
unfolding slip_decode decode_char
decode_t_end sp o = ap (λ (e : Bool). (put true (record sp { escaped = e }) 0xc0, [])) (sym o)

-- The bytes of a line, with memory at each.
abbrev pub on_line : List ℕ → List (Bool × ℕ)
on_line [] = []
on_line (c ∷ cs) = (true, c) ∷ on_line cs

-- A byte below 0x70 is that of an uncompressed packet.
plain_bit : (c : ℕ) → c < 0x70 → (bit_and c 0x80 == 0) ≡ true
unfolding every_below
plain_bit c h = every_below-holds 0x70 (λ x. bit_and x 0x80 == 0) c refl h

abbrev ready : Slip → Slip
ready sp = record sp { rbp = []; escaped = false }

-- What the end of a packet completes.
abbrev pub completed : Slip → Packet
completed sp = if sp.escaped then [] else sp.rbp

module _ {C : Type 0} (slhc : Slhc C) where
  abbrev rx : Slip → Option C → List ℕ → Receiver C × List Packet
  rx sp comp cs = slip_rx slhc (record { sp = sp; slcomp = comp }) (on_line cs)

  slip_rx-quiet :
      (sp sp' : Slip) (comp : Option C) (c : ℕ) (cs : List ℕ)
      → slip_decode true sp c ≡ (sp', [])
      → rx sp comp (c ∷ cs) ≡ rx sp' comp cs
  unfolding slip_rx deliver
  slip_rx-quiet sp sp' comp c cs e = rw e refl

  -- What stands for one byte stores that byte.
  slip_rx-escape :
      (sp : Slip) (comp : Option C) (c : ℕ) (rest : List ℕ)
      → sp.escaped ≡ false
      → rx sp comp (escape c rest) ≡ rx (put true sp c) comp rest
  unfolding escape
  slip_rx-escape sp comp c rest o = elim (ℕ_discrete c 0xdb) [
    | yes is_esc ↦ rw is_esc (
        slip_rx-quiet sp (record sp { escaped = true }) comp 0xdb (0xdd ∷ rest) (decode_esc sp)
        ∙ slip_rx-quiet (record sp { escaped = true }) (put true sp 0xdb) comp 0xdd rest
            (decode_t_esc sp o))
    | no not_esc ↦ elim (ℕ_discrete c 0xc0) [
      | yes is_end ↦ rw is_end (
          slip_rx-quiet sp (record sp { escaped = true }) comp 0xdb (0xdc ∷ rest) (decode_esc sp)
          ∙ slip_rx-quiet (record sp { escaped = true }) (put true sp 0xc0) comp 0xdc rest
              (decode_t_end sp o))
      | no not_end ↦
          let n : (c == 0xc0) ≡ false = ground arith in
          let m : (c == 0xdb) ≡ false = ground arith in
          rw (m, n) (slip_rx-quiet sp (put true sp c) comp c rest (decode_plain sp c o n m))
    ]
  ]

  -- An end, whatever came before it: the packet under construction is complete, or aborted.
  slip_rx-end :
      (sp : Slip) (comp : Option C) (cs : List ℕ)
      → let first = deliver slhc (record { sp = ready sp; slcomp = comp }) (completed sp) in
        let rest = slip_rx slhc first.0 (on_line cs) in
        rx sp comp (0xc0 ∷ cs) ≡ (rest.0, first.1 ++ rest.1)
  unfolding slip_rx slip_decode
  slip_rx-end sp comp cs = refl

  abbrev Receives : Slip → Option C → List ℕ → Type 0
  Receives sp comp cs =
      (p : Packet) × (rx sp comp (escaped_bytes cs)
        ≡ deliver slhc (record { sp = ready sp; slcomp = comp }) p)
      × (contents p ≡ contents sp.rbp ++ cs)
      × IsFilled p

  slip_rx-escaped_bytes :
      (cs : List ℕ) (sp : Slip) (comp : Option C)
      → sp.escaped ≡ false
      → IsFilled sp.rbp
      → Receives sp comp cs
  unfolding escaped_bytes put slip_rx
  slip_rx-escaped_bytes [] sp comp o h =
      let first = deliver slhc (record { sp = ready sp; slcomp = comp }) (completed sp) in
      (
        sp.rbp,
        slip_rx-end sp comp []
            ∙ ap (λ (out : List Packet). (first.0, out)) (append-nil first.1)
            ∙ rw o refl,
        sym (append-nil (contents sp.rbp)),
        h,
      )
  slip_rx-escaped_bytes (c ∷ cs) sp comp o h =
      let stored = put-contents sp c h in
      let (p, e, g, headed) = slip_rx-escaped_bytes cs (put true sp c) comp o stored.1 in
      (
        p,
        slip_rx-escape sp comp c (escaped_bytes cs) o ∙ e,
        g ∙ ap (λ (xs : List ℕ). xs ++ cs) stored.0 ∙ append_assoc (contents sp.rbp) (c ∷ []) cs,
        headed,
      )

  accept_idle :
      (sp : Slip) (comp : Option C) (x : C × Option Packet)
      → let r = (accept slhc (record { sp = ready sp; slcomp = comp }) x).0 in
        (r.sp.escaped ≡ false) × (r.sp.rbp ≡ [])
  unfolding accept
  accept_idle sp comp (c, none) = (refl, refl)
  accept_idle sp comp (c, some p) = (refl, refl)

  deliver_comp :
      (sp : Slip) (comp : Option C) (f : C → C × Option Packet)
      → let r : Receiver C = record { sp = ready sp; slcomp = comp } in
        let x : Receiver C × List Packet = elim comp [
          | none ↦ discard slhc r
          | some c ↦ accept slhc r (f c)
        ] in
        (x.0.sp.escaped ≡ false) × (x.0.sp.rbp ≡ [])
  unfolding discard
  deliver_comp sp none f = (refl, refl)
  deliver_comp sp (some c) f = accept_idle sp (some c) (f c)

  -- What becomes of a packet does not touch the one under construction.
  deliver-idle :
      (sp : Slip) (comp : Option C) (p : Packet)
      → let r = (deliver slhc (record { sp = ready sp; slcomp = comp }) p).0 in
        (r.sp.escaped ≡ false) × (r.sp.rbp ≡ [])
  unfolding deliver accept discard
  deliver-idle sp comp [] = (refl, refl)
  deliver-idle sp comp (b ∷ p) =
      let r : Receiver C = record { sp = ready sp; slcomp = comp } in
      let P = λ (x : Receiver C × List Packet). (x.0.sp.escaped ≡ false) × (x.0.sp.rbp ≡ []) in
      if_cases P (not (bit_and (type_byte (b ∷ p)) 0x80 == 0))
        (λ e. deliver_comp sp comp (λ c. slhc.slhc_uncompress c (b ∷ p)))
        (λ e.
          if_cases P (leb 0x70 (type_byte (b ∷ p)))
            (λ e'. deliver_comp sp comp (λ c. slhc.slhc_remember c (mask_type (b ∷ p))))
            (λ e'. (refl, refl)))

  deliver_plain :
      (r : Receiver C) (q : Packet)
      → IsFilled q
      → contents q ≢ []
      → get_or (contents q) 0 0 < 0x70
      → deliver slhc r q ≡ (r, q ∷ [])
  unfolding deliver
  deliver_plain r [] h n lt = absurd (n refl)
  deliver_plain r (b ∷ q) h n lt =
      let f = type_byte_lem (b ∷ q) h in
      let e = plain_bit (type_byte (b ∷ q)) (omega (arith, f, lt)) in
      let g : leb 0x70 (type_byte (b ∷ q)) ≡ false = ground (arith, f, lt) in rw (e, g) refl

  settled :
      (r : Receiver C)
      → r.sp.escaped ≡ false
      → r.sp.rbp ≡ []
      → Path (Receiver C) (record { sp = ready r.sp; slcomp = r.slcomp }) r
  settled r o e =
      ap₂
        (λ (b : Bool) (p : Packet). record {
          sp = record r.sp { escaped = b; rbp = p };
          slcomp = r.slcomp;
        })
        (sym o) (sym e)

  -- With memory at both ends, a packet of fewer than 2^31 - 1 bytes that is sent with slip_encode
  -- comes out of slip_rx, for net_route, with the same bytes, and the receiver is ready for the
  -- next, if its first byte is below 0x70, as that of an uncompressed IP packet is. This holds in
  -- every state of the receiver, whatever slhc_uncompress and slhc_remember do: the end that goes
  -- out first completes what it had, which is then decompressed, passed on or dropped as slip_rx
  -- does with a packet, or it aborts that behind an escape.
  pub slip_rx-slip_encode :
      (r : Receiver C) (p : Packet)
      → contents p ≢ []
      → get_or (contents p) 0 0 < 0x70
      → length (contents p) + 1 < 2 ^ 31
      → let prior = deliver slhc (record r { sp = ready r.sp }) (completed r.sp) in
        (lbp : Mbuf) × (q : Packet) × (slip_encode true p ≡ some lbp)
        × (slip_rx slhc r (on_line lbp.bytes) ≡ (prior.0, prior.1 ++ q ∷ []))
        × (contents q ≡ contents p)
  slip_rx-slip_encode r p n lt h =
      let (lbp, e, sent, fits) = slip_encode-contents p h in
      let prior = deliver slhc (record r { sp = ready r.sp }) (completed r.sp) in
      let idle = deliver-idle r.sp r.slcomp (completed r.sp) in
      let w = prior.0 in
      let (q, f, same, headed) =
        slip_rx-escaped_bytes (contents p) w.sp w.slcomp idle.0 (rw idle.1 tt) in
      let whole : contents q ≡ contents p =
        same ∙ ap (λ (k : Packet). contents k ++ contents p) idle.1 in
      let plain = deliver_plain w q headed (λ z. n (sym whole ∙ z)) (rw whole lt) in
      let last = f ∙ ap (λ (v : Receiver C). deliver slhc v q) (settled w idle.0 idle.1) ∙ plain in
      (
        lbp,
        q,
        e,
        ap (λ (xs : List ℕ). slip_rx slhc r (on_line xs)) sent
            ∙ slip_rx-end r.sp r.slcomp (escaped_bytes (contents p))
            ∙ ap (λ (v : Receiver C × List Packet). (v.0, prior.1 ++ v.1)) last,
        whole,
      )
