-- ===== src/Tcp/Output/Window.antt =====
-- Each segment carries a piece of the send queue that lies in the window.
use ka9q_unix.Base.{
  length-drop, Bool, min, not, ◌&&◌, ℕ, zero, suc, ◌+◌, ◌-◌, ◌^◌, ◌<◌, ◌≤◌, ◌≡◌, ◌≢◌, ◌⊎◌, inl, inr,
  false, ◌==◌, if◌then◌else◌, Bool-cases, refl, sym, ap, ◌∙◌, arith, List, [], ◌∷◌, length,
  length-take, take, drop, subst,
}
use native.Mathlib.Decide.{ℕ_discrete}
use ka9q_unix.Base.Word.{sub32, add32}
use ka9q_unix.Mbuf.{contents}
use ka9q_unix.Mbuf.Chain.Copies.{extract-contents}
use ka9q_unix.Tcp.{Tcp}
use ka9q_unix.Tcp.Output.{
  Sender, Settings, Sent, in_flight, sends_syn, data_size, data_offset, segment_data,
  segment_header, segment_size,
}
use ka9q_unix.Tcp.Output.Bounds.{IsSender, window, segment_size_lem}

-- The SYN is still unacknowledged only at the start of the sequence space.
abbrev pub Unacked : Sender → Type 0
Unacked t = t.synack ≡ false → t.una ≡ t.iss

abbrev syn_count : Tcp → ℕ
syn_count seg = if seg.flags.syn then 1 else 0

-- Where the data of a segment begin in the send queue, by its sequence number.
unfoldable pub position : Sender → Tcp → ℕ
position t seg =
    let at = sub32 (add32 seg.seq (syn_count seg)) t.una in if t.synack then at else at - 1

-- A segment whose data are those of the send queue at its sequence number, that is empty or ends in the
-- window, and whose data end the send queue if it is a FIN.
pub record IsPiece (t : Sender) (s : Sent) : Type 0 where
  pub piece : s.bytes ≡ take (length s.bytes) (drop (position t s.seg) (contents t.sndq))
  pub within :
      (length s.bytes + syn_count s.seg ≡ 0)
      ⊎ (sub32 s.seg.seq t.una + syn_count s.seg + length s.bytes ≤ window t)
  pub last :
      (s.seg.flags.fin ≡ false) ⊎ (position t s.seg + length s.bytes ≡ length (contents t.sndq))

abbrev the_segment : Settings → ℕ → Sender → ℕ → Sent
the_segment cfg clock t n = record { seg = segment_header cfg clock t n; bytes = segment_data t n }

data_size_lem :
    (t : Sender) (n : ℕ)
    → n < 2 ^ 31
    → (n ≢ 0) ⊎ (sends_syn t ≡ false)
    → data_size t n + (if sends_syn t then 1 else 0) ≡ n
unfolding data_size
data_size_lem t n h w = elim (Bool-cases (sends_syn t)) [
  | inr e ↦ rw e (omega arith)
  | inl e ↦ elim w [ inl ne ↦ rw e (omega arith) | inr quiet ↦ absurd (ground (arith, e, quiet)) ]
]

pub segment_data_lem :
    (t : Sender) (n : ℕ)
    → segment_data t n ≡ take (data_size t n) (drop (data_offset t) (contents t.sndq))
unfolding segment_data
segment_data_lem t n = elim (Bool-cases (data_size t n == 0)) [
  | inr e ↦ rw e (extract-contents (data_offset t) (data_size t n) t.sndq)
  | inl e ↦
      let z : data_size t n ≡ 0 = ground arith in
      rw e (ap (λ (k : ℕ). take k (drop (data_offset t) (contents t.sndq))) (sym z))
]

take_again : (n : ℕ) (xs : List ℕ) → take n xs ≡ take (length (take n xs)) xs
take_again zero xs = refl
take_again (suc n) [] = refl
take_again (suc n) (x ∷ xs) = ap (◌∷◌ x) (take_again n xs)

pub header_seq :
    (cfg : Settings) (clock : ℕ) (t : Sender) (n : ℕ)
    → n ≢ 0
    → (segment_header cfg clock t n).seq ≡ t.ptr
unfolding segment_header
header_seq cfg clock t n h = let c : (n == 0) ≡ false = ground arith in rw c refl

pub header_syn :
    (cfg : Settings) (clock : ℕ) (t : Sender) (n : ℕ)
    → (segment_header cfg clock t n).flags.syn ≡ sends_syn t
unfolding segment_header
header_syn cfg clock t n = refl

offset_lem :
    (t : Sender)
    → IsSender t
    → Unacked t
    → let at = sub32 (add32 t.ptr (if sends_syn t then 1 else 0)) t.una in
      data_offset t ≡ (if t.synack then at else at - 1)
unfolding data_offset
offset_lem t h u = elim (Bool-cases t.synack) [
  | inl e ↦ rw e (omega (arith, h.ptr, h.una))
  | inr e ↦
      let i = u e in
      let a = h.ordered in
      let b = h.queued in
      let c = h.count in let p = h.ptr in let n = h.una in rw e (ground (arith, i))
]

position_lem :
    (t : Sender) (seg : Tcp)
    → IsSender t
    → Unacked t
    → seg.seq ≡ t.ptr
    → seg.flags.syn ≡ sends_syn t
    → position t seg ≡ data_offset t
unfolding position
position_lem t seg h u at syn = rw (at, syn) (sym (offset_lem t h u))

empty-IsPiece :
    (t : Sender) (s : Sent)
    → s.bytes ≡ []
    → s.seg.flags.syn ≡ false
    → s.seg.flags.fin ≡ false
    → IsPiece t s
empty-IsPiece t s e syn fin = record {
  piece = rw e refl;
  within = inl (rw (e, syn) refl);
  last = inl fin;
}

within_lem :
    (l d n s f w : ℕ) → l ≤ d → d + s ≡ n → (n ≡ 0) ⊎ (f + n ≤ w) → (l + s ≡ 0) ⊎ (f + s + l ≤ w)
within_lem l d n s f w a b c = ground arith

-- The sequence numbers that a segment takes up: its octets, its SYN and its FIN.
abbrev pub span : Sent → ℕ
span s = length s.bytes + syn_count s.seg + (if s.seg.flags.fin then 1 else 0)

-- What is taken from the send queue ends in it, or one place behind.
data_end :
    (t : Sender) (n : ℕ)
    → IsSender t
    → Unacked t
    → in_flight t + n ≤ t.sndcnt
    → data_size t n + (if sends_syn t then 1 else 0) ≡ n
    → data_offset t + data_size t n ≤ length (contents t.sndq) + 1
unfolding data_offset
data_end t n h u le d = elim (Bool-cases t.synack) [
  | inl e ↦
      let k =
        subst (λ (b : Bool). t.sndcnt ≤ (if b then 0 else 1) + length (contents t.sndq) + 1) e
          h.held in
      rw e (ground (arith, k, le, d))
  | inr e ↦
      let k =
        subst (λ (b : Bool). t.sndcnt ≤ (if b then 0 else 1) + length (contents t.sndq) + 1) e
          h.held in
      let i = u e in
      let a = h.ordered in
      let c = h.count in let p = h.ptr in let q = h.una in rw e (ground (arith, k, le, d, i, a, c))
]

fin_span :
    (d o l w : ℕ)
    → l ≡ min d (w - o)
    → o + d ≤ w + 1
    → let fin = not (d == 0) && not (l == d) in
      (l + (if fin then 1 else 0) ≡ d) × ((fin ≡ false) ⊎ (o + l ≡ w))
fin_span d o l w e le = ground (arith, e, le)

header_fin :
    (cfg : Settings) (clock : ℕ) (t : Sender) (n : ℕ)
    → (segment_header cfg clock t n).flags.fin
      ≡ (not (data_size t n == 0) && not (length (segment_data t n) == data_size t n))
unfolding segment_header
header_fin cfg clock t n = refl

-- How a segment ends: its octets and its FIN are what is left of its size.
abbrev EndsRight : Settings → ℕ → Sender → ℕ → Type 0
EndsRight cfg clock t n =
    let fin = (segment_header cfg clock t n).flags.fin in
    (length (segment_data t n) + (if fin then 1 else 0) ≡ data_size t n)
    × ((fin ≡ false) ⊎ (data_offset t + length (segment_data t n) ≡ length (contents t.sndq)))

segment_end :
    (cfg : Settings) (clock : ℕ) (t : Sender)
    → IsSender t
    → Unacked t
    → (segment_size cfg t ≢ 0) ⊎ (sends_syn t ≡ false)
    → EndsRight cfg clock t (segment_size cfg t)
segment_end cfg clock t h u w =
    let n = segment_size cfg t in
    let b = segment_size_lem cfg t h in
    let d = data_size_lem t n (omega (arith, b, h.count)) w in
    let le = data_end t n h u b.0 d in
    let from = drop (data_offset t) (contents t.sndq) in
    let l : length (segment_data t n)
        ≡ min (data_size t n) (length (contents t.sndq) - data_offset t) =
      omega (
        arith,
        ap length (segment_data_lem t n),
        length-take (data_size t n) from,
        length-drop (data_offset t) (contents t.sndq),
      ) in
    rw (header_fin cfg clock t n) (
      fin_span (data_size t n) (data_offset t) (length (segment_data t n))
        (length (contents t.sndq)) l le)

-- A segment takes up just the size that was found for it.
pub segment_span :
    (cfg : Settings) (clock : ℕ) (t : Sender)
    → IsSender t
    → Unacked t
    → (segment_size cfg t ≢ 0) ⊎ (sends_syn t ≡ false)
    → span (the_segment cfg clock t (segment_size cfg t)) ≡ segment_size cfg t
segment_span cfg clock t h u w =
    let n = segment_size cfg t in
    let b = segment_size_lem cfg t h in
    let d = data_size_lem t n (omega (arith, b, h.count)) w in
    let e = segment_end cfg clock t h u w in
    let syn = ap {B = ℕ} (λ (c : Bool). if c then 1 else 0) (header_syn cfg clock t n) in
    omega (arith, e.0, d, syn)

-- Of a segment that is not a lone SYN by force the data are a piece of the send queue.
pub segment-IsPiece :
    (cfg : Settings) (clock : ℕ) (t : Sender)
    → IsSender t
    → Unacked t
    → (segment_size cfg t ≢ 0) ⊎ (sends_syn t ≡ false)
    → IsPiece t (the_segment cfg clock t (segment_size cfg t))
segment-IsPiece cfg clock t h u w =
    let n = segment_size cfg t in
    let b = segment_size_lem cfg t h in
    let small : n < 2 ^ 31 = omega (arith, b, h.count) in
    let d = data_size_lem t n small w in
    let from = drop (data_offset t) (contents t.sndq) in
    let bytes = segment_data_lem t n in
    let l : length (segment_data t n) ≤ data_size t n =
      omega (arith, ap length bytes, length-take (data_size t n) from) in
    let again : segment_data t n ≡ take (length (segment_data t n)) from =
      subst (λ (xs : List ℕ). xs ≡ take (length xs) from) (sym bytes)
        (take_again (data_size t n) from) in
    let syn = header_syn cfg clock t n in
    elim (ℕ_discrete n 0) [
      | yes z ↦
          let quiet : sends_syn t ≡ false = elim w [ inl ne ↦ absurd (ne z) | inr e ↦ e ] in
          let none_left : data_size t n ≡ 0 = omega (arith, d, z) in
          empty-IsPiece t (the_segment cfg clock t n)
            (bytes ∙ ap (λ (k : ℕ). take k from) none_left) (syn ∙ quiet)
            (header_fin cfg clock t n ∙ rw none_left refl)
      | no ne ↦
          let at = header_seq cfg clock t n ne in
          let end = segment_end cfg clock t h u w in
          let place = position_lem t (segment_header cfg clock t n) h u at syn in
          record {
            last = rw place end.1;
            piece =
                again
                ∙ ap (λ (k : ℕ). take (length (segment_data t n)) (drop k (contents t.sndq)))
                    (sym (position_lem t (segment_header cfg clock t n) h u at syn));
            within =
                rw (at, syn)
                  (within_lem (length (segment_data t n)) (data_size t n) n
                    (if sends_syn t then 1 else 0) (in_flight t) (window t) l d b.1);
          }
    ]
