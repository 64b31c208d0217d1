-- ===== src/Ip/Route/Entries.antt =====
-- rt_add, rt_drop and rt_blookup are a partial map from prefixes to routes.
use ka9q_unix.Base.{
  ℕ, ◌-◌, ◌≡◌, ◌≢◌, inl, inr, Bool, true, false, ◌&&◌, ◌==◌, List, Option, none, some,
  if◌then◌else◌, bit_and, refl, sym, ap, ap₂, ◌∙◌, arith, if_cases, Bool-cases,
}
use native.Mathlib.Decide.{ℕ_discrete}
use ka9q_unix.Base.Bits.{bit_and-zero}
use ka9q_unix.Ip.Route.{
  Route, Table, hash_ip, find_target, put_route, enter, flush, rt_blookup, update, prefix_mask,
  is_set,
}
use ka9q_unix.Ip.Route.Chains.{Unique, find_target-put_route}

abbrev pub AllUnique : Table → Type 0
AllUnique t = (b h : ℕ) → Unique (t.routes b h)

pub update-Unique :
    (routes : ℕ → ℕ → List Route) (b h : ℕ) (l : List Route)
    → ((b h : ℕ) → Unique (routes b h))
    → Unique l
    → (b' h' : ℕ) → Unique (update routes b h l b' h')
update-Unique routes b h l p q b' h' = if_cases Unique (b' == b && h' == h) (λ e. q) (λ e. p b' h')

-- The routes as a partial map: the width and the target with its bits behind the width off.
abbrev pub Entries : Type 0
Entries = ℕ → ℕ → Option Route

-- The prefix of `bits` bits of `target` is that of `bits'` bits of `target'`.
unfoldable pub same_prefix : ℕ → ℕ → ℕ → ℕ → Bool
same_prefix target bits target' bits' =
    bits == bits' && bit_and target (prefix_mask bits) == bit_and target' (prefix_mask bits')

-- A chain that is replaced is the one of its width and hash.
find_target-update :
    (routes : ℕ → ℕ → List Route) (b x b' y : ℕ) (l : List Route) (o : Option Route)
    → ((z : ℕ) → find_target z l ≡ (if z == y then o else find_target z (routes b' (hash_ip y))))
    → find_target x (update routes b' (hash_ip y) l b (hash_ip x))
      ≡ (if b == b' && x == y then o else find_target x (routes b (hash_ip x)))
find_target-update routes b x b' y l o f = elim (ℕ_discrete b b') [
  | no n ↦ ground (arith, n)
  | yes e ↦ elim (ℕ_discrete x y) [
    | yes k ↦
        let c : (hash_ip x == hash_ip y) ≡ true = ground (arith, ap hash_ip k) in
        let g = f x in ground (arith, c, g)
    | no k ↦ elim (ℕ_discrete (hash_ip x) (hash_ip y)) [
      | no n ↦ ground (arith, n)
      | yes c ↦
          let g = f x in
          let d : find_target x (routes b (hash_ip x)) ≡ find_target x (routes b' (hash_ip y)) =
            ap₂ (λ (m n : ℕ). find_target x (routes m n)) e c in
          ground (arith, g, d)
    ]
  ]
]

pub rt_blookup-flush : (t : Table) (x b : ℕ) → rt_blookup (flush t) x b ≡ rt_blookup t x b
unfolding rt_blookup flush
rt_blookup-flush t x b = refl

pub rt_blookup_default :
    (t : Table) (x b : ℕ)
    → b ≡ 0
    → rt_blookup t x b ≡ (if is_set t.r_default.iface then some t.r_default else none)
unfolding rt_blookup
rt_blookup_default t x b e = let c : (b == 0) ≡ true = ground arith in rw c refl

pub rt_blookup_chain :
    (t : Table) (x b : ℕ)
    → b ≢ 0
    → let x' = bit_and x (prefix_mask b) in
      rt_blookup t x b ≡ find_target x' (t.routes (b - 1) (hash_ip x'))
unfolding rt_blookup
rt_blookup_chain t x b n = let c : (b == 0) ≡ false = ground arith in rw c refl

pub enter_default :
    (rp : Route) (t : Table) → rp.bits ≡ 0 → enter rp t ≡ record t { r_default = rp }
unfolding enter
enter_default rp t e = let c : (rp.bits == 0) ≡ true = ground arith in rw c refl

-- The table with one chain replaced.
abbrev pub with_chain : Table → ℕ → ℕ → List Route → Table
with_chain t b h l = record t { routes = update t.routes b h l }

pub enter_chain :
    (rp : Route) (t : Table)
    → rp.bits ≢ 0
    → let h = hash_ip rp.target in
      enter rp t ≡ with_chain t (rp.bits - 1) h (put_route rp (t.routes (rp.bits - 1) h))
unfolding enter
enter_chain rp t n = let c : (rp.bits == 0) ≡ false = ground arith in rw c refl

pub same_prefix_wide : (x b target bits : ℕ) → b ≢ bits → same_prefix x b target bits ≡ false
unfolding same_prefix
same_prefix_wide x b target bits n = ground arith

no_bits : (n y : ℕ) → n ≡ 0 → bit_and y (prefix_mask n) ≡ 0
unfolding prefix_mask
no_bits n y e = ap (λ (k : ℕ). bit_and y (prefix_mask k)) e ∙ bit_and-zero y

same_prefix_chain :
    (x b target bits : ℕ)
    → bits ≢ 0
    → b ≢ 0
    → same_prefix x b target bits
      ≡ (b - 1 == bits - 1 && bit_and x (prefix_mask b) == bit_and target (prefix_mask bits))
unfolding same_prefix
same_prefix_chain x b target bits n n' =
    let e : (b == bits) ≡ (b - 1 == bits - 1) = ground arith in rw e refl

pub same_prefix_zero : (x b target bits : ℕ) → b ≡ 0 → bits ≡ 0 → same_prefix x b target bits ≡ true
unfolding same_prefix
same_prefix_zero x b target bits e e' = ground (arith, no_bits b x e, no_bits bits target e')

-- A chain is replaced by one in which `y` leads to `o`.
pub rt_blookup-with_chain :
    (t : Table) (target x b bits : ℕ) (l : List Route) (o : Option Route)
    → bits ≢ 0
    → let y = bit_and target (prefix_mask bits) in
      ((z : ℕ)
        → find_target z l ≡ (if z == y then o else find_target z (t.routes (bits - 1) (hash_ip y))))
      → rt_blookup (with_chain t (bits - 1) (hash_ip y) l) x b
        ≡ (if same_prefix x b target bits then o else rt_blookup t x b)
rt_blookup-with_chain t target x b bits l o n f = elim (ℕ_discrete b 0) [
  | yes z ↦
      let t' = with_chain t (bits - 1) (hash_ip (bit_and target (prefix_mask bits))) l in
      rw (same_prefix_wide x b target bits (λ e. n (sym e ∙ z)))
        (rt_blookup_default t' x b z ∙ sym (rt_blookup_default t x b z))
  | no n' ↦
      let y = bit_and target (prefix_mask bits) in
      let x' = bit_and x (prefix_mask b) in
      let s : same_prefix x b target bits ≡ (b - 1 == bits - 1 && x' == y) =
        same_prefix_chain x b target bits n n' in
      rt_blookup_chain (with_chain t (bits - 1) (hash_ip y) l) x b n'
      ∙ find_target-update t.routes (b - 1) x' (bits - 1) y l o f
      ∙ ap₂ (λ (c : Bool) (r : Option Route). if c then o else r) (sym s)
          (sym (rt_blookup_chain t x b n'))
]

pub rt_blookup-enter :
    (t : Table) (rp : Route) (target x b : ℕ)
    → rp.target ≡ bit_and target (prefix_mask rp.bits)
    → is_set rp.iface ≡ true
    → rt_blookup (enter rp t) x b
      ≡ (if same_prefix x b target rp.bits then some rp else rt_blookup t x b)
rt_blookup-enter t rp target x b e i = elim (ℕ_discrete rp.bits 0) [
  | yes z ↦ ap (λ (u : Table). rt_blookup u x b) (enter_default rp t z) ∙ elim (ℕ_discrete b 0) [
    | yes z' ↦
        rt_blookup_default (record t { r_default = rp }) x b z'
        ∙ rw (same_prefix_zero x b target rp.bits z' z, i) refl
    | no n' ↦
        rw (same_prefix_wide x b target rp.bits (λ k. n' (k ∙ z)))
          (rt_blookup_chain (record t { r_default = rp }) x b n' ∙ sym (rt_blookup_chain t x b n'))
  ]
  | no n ↦
      let h = hash_ip rp.target in
      let l = put_route rp (t.routes (rp.bits - 1) h) in
      ap (λ (u : Table). rt_blookup u x b) (enter_chain rp t n)
      ∙ ap
          (λ (y : ℕ).
            rt_blookup
              (with_chain t (rp.bits - 1) (hash_ip y)
                (put_route rp (t.routes (rp.bits - 1) (hash_ip y))))
              x b)
          e
      ∙ rt_blookup-with_chain t target x b rp.bits
          (put_route rp (t.routes (rp.bits - 1) (hash_ip (bit_and target (prefix_mask rp.bits)))))
          (some rp) n
          (λ z.
            find_target-put_route rp z
              (t.routes (rp.bits - 1) (hash_ip (bit_and target (prefix_mask rp.bits))))
            ∙ ap
                (λ (y : ℕ).
                  if z == y
                  then some rp
                  else find_target z
                      (t.routes (rp.bits - 1) (hash_ip (bit_and target (prefix_mask rp.bits)))))
                e)
]

same_prefix_eq :
    (x b target bits : ℕ)
    → same_prefix x b target bits ≡ true
    → (b ≡ bits) × (bit_and x (prefix_mask b) ≡ bit_and target (prefix_mask bits))
unfolding same_prefix
same_prefix_eq x b target bits e = (ground arith, ground arith)

pub rt_blookup_absent :
    (t : Table) (target x b bits : ℕ)
    → bits ≢ 0
    → let y = bit_and target (prefix_mask bits) in
      find_target y (t.routes (bits - 1) (hash_ip y)) ≡ none
      → rt_blookup t x b ≡ (if same_prefix x b target bits then none else rt_blookup t x b)
rt_blookup_absent t target x b bits n e = elim (Bool-cases (same_prefix x b target bits)) [
  | inr d ↦ rw d refl
  | inl c ↦
      let k = same_prefix_eq x b target bits c in
      let n' : b ≢ 0 = λ z. n (sym k.0 ∙ z) in
      rw c (
        rt_blookup_chain t x b n'
        ∙ ap₂ (λ (w y : ℕ). find_target y (t.routes (w - 1) (hash_ip y))) k.0 k.1
        ∙ e)
]
