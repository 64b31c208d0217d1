-- ===== src/Mbuf/Chain/Duplicates.antt =====
-- `dup_p` of mbuf.c, told by the bytes of the packets.
use native.Mathlib.Decide.{dec_le}
use ka9q_unix.Base.{
  ℕ, zero, suc, ◌+◌, ◌-◌, ◌≤◌, ◌≡◌, refl, sym, ap, ap₂, ◌≢◌, ◌∙◌, ℕ_discrete, min, List, [], ◌∷◌,
  ◌++◌, length, take, drop, length-append, take_all, drop_all, length-take, length-drop,
  drop-append_past, append-nil, Bool, true, arith,
}
use ka9q_unix.Mbuf.{Mbuf, Packet, cnt, contents}
use ka9q_unix.Mbuf.Chain.{Duplicate, incref, dup_header, dup_loop, dup_skip, dup_p}
use ka9q_unix.Mbuf.Chain.Copies.{take-drop_first}

-- The next `n` allocations succeed.
abbrev pub Succeed : ℕ → List Bool → Type 0
Succeed zero ms = Unit
Succeed (suc n) [] = ⊥
Succeed (suc n) (m ∷ ms) = (m ≡ true) × Succeed n ms

take-nil : (n : ℕ) → ◌≡◌ {A = List ℕ} (take n []) []
take-nil n = take_all n [] (omega arith)

-- What a duplicate of `n` bytes from `offset` on is to be.
pub record Duplicates (offset n : ℕ) (p : Packet) (d : Duplicate) : Type 0 where
  pub copied : contents d.head ≡ take n (drop offset (contents p))
  pub counted : d.tot ≡ length (contents d.head)
  pub kept : contents d.source ≡ contents p

dup_loop-nil :
    (ms : List Bool) (offset n : ℕ) (b : Mbuf)
    → offset ≤ cnt b
    → Duplicates offset n (b ∷ []) (dup_loop ms offset n (b ∷ []))
unfolding dup_loop dup_header incref
dup_loop-nil ms offset n b h = record {
  copied =
      ground (arith, take-drop_first offset n b.bytes [] h, take-nil (n - min n (cnt b - offset)));
  counted = ground (
    arith,
    append-nil (take (min n (cnt b - offset)) (drop offset b.bytes)),
    length-take (min n (cnt b - offset)) (drop offset b.bytes),
    length-drop offset b.bytes,
  );
  kept = ground arith;
}

bytes-incref : (b : Mbuf) → (incref b).bytes ≡ b.bytes
unfolding incref
bytes-incref b = ground arith

module _ (m : Bool) (ms : List Bool) (offset n : ℕ) (b c : Mbuf) (p : Packet) (g : m ≡ true)
    (h : offset ≤ cnt b) where
  abbrev here : ℕ
  here = min n (cnt b - offset)

  abbrev first : List ℕ
  first = take here (drop offset b.bytes)

  length-first : length first ≡ here
  length-first = omega (arith, length-take here (drop offset b.bytes), length-drop offset b.bytes)

  dup_loop_last :
      n - here ≡ 0 → Duplicates offset n (b ∷ c ∷ p) (dup_loop (m ∷ ms) offset n (b ∷ c ∷ p))
  unfolding dup_header
  dup_loop_last z = rw stops (record {
    copied =
        append-nil first
        ∙ sym (append-nil first)
        ∙ sym (rw z at (take-drop_first offset n b.bytes (contents (c ∷ p)) h));
    counted = omega (arith, ap length (append-nil first), length-first);
    kept = ap (λ (xs : List ℕ). xs ++ contents (c ∷ p)) (bytes-incref b);
  })
    where
      stops :
          dup_loop (m ∷ ms) offset n (b ∷ c ∷ p)
          ≡ record { head = dup_header offset here b ∷ []; tot = here; source = incref b ∷ c ∷ p }
      stops = unfold dup_loop in ground arith

  dup_loop_more :
      n - here ≢ 0
      → Duplicates 0 (n - here) (c ∷ p) (dup_loop ms 0 (n - here) (c ∷ p))
      → Duplicates offset n (b ∷ c ∷ p) (dup_loop (m ∷ ms) offset n (b ∷ c ∷ p))
  unfolding dup_header
  dup_loop_more z r = rw goes_on (record {
    copied = ap (◌++◌ first) r.copied ∙ sym (take-drop_first offset n b.bytes (contents (c ∷ p)) h);
    counted = omega (arith, r.counted, length-append first (contents more.head), length-first);
    kept = ap₂ (λ (xs ys : List ℕ). xs ++ ys) (bytes-incref b) r.kept;
  })
    where
      more : Duplicate
      more = dup_loop ms 0 (n - here) (c ∷ p)

      goes_on : dup_loop (m ∷ ms) offset n (b ∷ c ∷ p) ≡ record {
        head = dup_header offset here b ∷ more.head;
        tot = here + more.tot;
        source = incref b ∷ more.source;
      }
      goes_on = unfold dup_loop in ground arith

dup_loop-Duplicates :
    (ms : List Bool) (offset n : ℕ) (b : Mbuf) (p : Packet)
    → Succeed (length p) ms
    → offset ≤ cnt b
    → Duplicates offset n (b ∷ p) (dup_loop ms offset n (b ∷ p))
dup_loop-Duplicates ms offset n b [] h k = dup_loop-nil ms offset n b k
dup_loop-Duplicates [] offset n b (c ∷ p) h k = absurd h
dup_loop-Duplicates (m ∷ ms) offset n b (c ∷ p) h k =
    elim (ℕ_discrete (n - min n (cnt b - offset)) 0) [
      | yes z ↦ dup_loop_last m ms offset n b c p h.0 k z
      | no z ↦
          dup_loop_more m ms offset n b c p h.0 k z
            (dup_loop-Duplicates ms 0 (n - min n (cnt b - offset)) c p h.1 (omega arith))
    ]

fewer : (ms : List Bool) (p : Packet) → Succeed (length p) ms → Succeed (length (drop 1 p)) ms
fewer ms [] h = h
fewer ms (b ∷ []) h = tt
fewer [] (b ∷ c ∷ p) h = absurd h
fewer (m ∷ ms) (b ∷ c ∷ p) h = drop_last m ms p h
  where
    drop_last :
        (m : Bool) (ms : List Bool) (p : Packet)
        → Succeed (suc (suc (length p))) (m ∷ ms)
        → Succeed (suc (length p)) (m ∷ ms)
    drop_last m [] p h = absurd h.1
    drop_last m (k ∷ ms) [] h = (h.0, tt)
    drop_last m (k ∷ ms) (b ∷ p) h = (h.0, drop_last k ms p h.1)

dup_skip-Duplicates :
    (ms : List Bool) (offset n : ℕ) (p : Packet)
    → Succeed (length (drop 1 p)) ms
    → Duplicates offset n p (dup_skip ms offset n p)
dup_skip-Duplicates ms offset n [] h =
    unfold dup_skip in
    record {
      copied = sym (ap (take n) (drop_all offset [] (omega arith)) ∙ take-nil n);
      counted = refl;
      kept = refl;
    }
dup_skip-Duplicates ms offset n (b ∷ p) h = elim (dec_le (cnt b) offset) [
  | yes k ↦
      let e : dup_skip ms offset n (b ∷ p) ≡ record (dup_skip ms (offset - cnt b) n p) {
        source = b ∷ (dup_skip ms (offset - cnt b) n p).source;
      } =
        unfold dup_skip in ground arith in
      let r = dup_skip-Duplicates ms (offset - cnt b) n p (fewer ms p h) in
      rw e (record {
        copied =
            r.copied
            ∙ ap (take n)
                (sym (drop-append_past offset (offset - cnt b) b.bytes (contents p) (omega arith)));
        counted = r.counted;
        kept = ap (◌++◌ b.bytes) r.kept;
      })
  | no k ↦
      let e : dup_skip ms offset n (b ∷ p) ≡ dup_loop ms offset n (b ∷ p) =
        unfold dup_skip in ground arith in
      rw e (dup_loop-Duplicates ms offset n b p h (omega arith))
]

-- With memory for a header per mbuf, `dup_p` makes a packet of the `n` bytes from `offset` on, as
-- far as there are that many, returns how many those are, and leaves the packet's own bytes.
pub dup_p-Duplicates :
    (ms : List Bool) (p : Packet) (offset n : ℕ)
    → Succeed (length p) ms
    → Duplicates offset n p (dup_p ms p offset n)
unfolding dup_p
dup_p-Duplicates ms [] offset n h =
    let e : dup_p ms [] offset n ≡ record { head = []; tot = 0; source = [] } = ground arith in
    rw e (record {
      copied = sym (ap (take n) (drop_all offset [] (omega arith)) ∙ take-nil n);
      counted = refl;
      kept = refl;
    })
dup_p-Duplicates ms (b ∷ p) offset zero h = record { copied = refl; counted = refl; kept = refl }
dup_p-Duplicates [] (b ∷ p) offset (suc n) h = absurd h
dup_p-Duplicates (m ∷ ms) (b ∷ p) offset (suc n) h =
    let e : dup_p (m ∷ ms) (b ∷ p) offset (suc n) ≡ dup_skip ms offset (suc n) (b ∷ p) =
      ground (arith, h.0) in
    rw e (dup_skip-Duplicates ms offset (suc n) (b ∷ p) h.1)
