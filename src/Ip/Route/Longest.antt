-- ===== src/Ip/Route/Longest.antt =====
-- A lookup finds the route with the longest prefix.
use ka9q_unix.Base.{
  ℕ, zero, suc, ◌*◌, ◌^◌, ◌<◌, ◌≤◌, ◌≡◌, ◌⊎◌, inl, inr, ◌≢◌, true, false, ◌&&◌, ◌||◌, not, ◌==◌,
  List, [], ◌∷◌, Option, none, some, bit_and, refl, sym, ap, ap₂, subst, ◌∙◌, arith, All,
  Bool-cases,
}
use native.Mathlib.Decide.{ℕ_discrete}
use ka9q_unix.Base.Word.{u32, IsU32}
use ka9q_unix.Ip.Route.{Net, Route, Table, find_route, search, hash_ip, is_iface}
use ka9q_unix.Ip.Route.Masks.{
  prefix, leading, bit_and-leading, leading_shift, prefix-prefix, prefix-le,
}

-- A route that serves the address: it is to a prefix of it, and not a tunnel to the address itself.
abbrev pub Serves : Net → ℕ → Route → Type 0
Serves net a rp =
    (rp.target ≡ prefix rp.bits a) × (is_iface rp.iface net.encap && rp.gateway == a ≡ false)

abbrev pub In : Route → List Route → Type 0
In rp [] = ⊥
In rp (r ∷ rs) = (rp ≡ r) ⊎ In rp rs

-- Each route stands in the chain of its width and the hash of its target.
pub record IsPlaced (t : Table) : Type 0 where
  pub chains :
      (b h : ℕ) → All (λ (r : Route). (r.bits ≡ suc b) × (hash_ip r.target ≡ h)) (t.routes b h)
  pub default_bits : t.r_default.bits ≡ 0

-- No route of width `suc b` serves the address.
abbrev pub Misses : Net → Table → ℕ → ℕ → Type 0
Misses net t a b = (h : ℕ) → All (λ (r : Route). ¬ Serves net a r) (t.routes b h)

-- A route of width `suc b` that serves the address, and none is wider.
abbrev pub Found : Net → Table → ℕ → ℕ → Option Route → Type 0
Found net t a n none = (b : ℕ) → b < n → Misses net t a b
Found net t a n (some rp) =
    (b : ℕ) × (b < n)
    × (rp.bits ≡ suc b)
    × Serves net a rp
    × ((h : ℕ) × In rp (t.routes b h))
    × ((c : ℕ) → b < c → c < n → Misses net t a c)

module _ (net : Net) (a : ℕ) where
  skipped :
      (r : Route) (b : ℕ)
      → r.bits ≡ suc b
      → (not (r.target == prefix (suc b) a) || is_iface r.iface net.encap && r.gateway == a) ≡ true
      → ¬ Serves net a r
  skipped r b w skip s =
      let e : prefix r.bits a ≡ prefix (suc b) a = ap (λ (n : ℕ). prefix n a) w in ground (arith, e)

  taken :
      (r : Route) (b : ℕ)
      → r.bits ≡ suc b
      → (not (r.target == prefix (suc b) a) || is_iface r.iface net.encap && r.gateway == a) ≡ false
      → Serves net a r
  taken r b w take =
      let e : prefix r.bits a ≡ prefix (suc b) a = ap (λ (n : ℕ). prefix n a) w in
      (ground (arith, e), ground arith)

  -- In a chain of another hash no route serves.
  elsewhere :
      (b h : ℕ) (rs : List Route)
      → h ≢ hash_ip (prefix (suc b) a)
      → All (λ (r : Route). (r.bits ≡ suc b) × (hash_ip r.target ≡ h)) rs
      → All (λ (r : Route). ¬ Serves net a r) rs
  elsewhere b h [] n p = tt
  elsewhere b h (r ∷ rs) n p = (
    λ s. n (sym p.0.1 ∙ ap hash_ip (s.0 ∙ ap (λ (n : ℕ). prefix n a) p.0.0)),
    elsewhere b h rs n p.1,
  )

  -- In a chain of the right width and hash a search finds a route that serves, or none does.
  find_route-Serves :
      (b h : ℕ) (rs : List Route)
      → All (λ (r : Route). (r.bits ≡ suc b) × (hash_ip r.target ≡ h)) rs
      → (find_route net.encap a (prefix (suc b) a) rs ≡ none)
          × All (λ (r : Route). ¬ Serves net a r) rs
        ⊎ ((rp : Route) × (find_route net.encap a (prefix (suc b) a) rs ≡ some rp)
            × Serves net a rp
            × (rp.bits ≡ suc b)
            × In rp rs)
  unfolding find_route
  find_route-Serves b h [] p = inl (refl, tt)
  find_route-Serves b h (r ∷ rs) p =
      elim (Bool-cases
        (not (r.target == prefix (suc b) a) || is_iface r.iface net.encap && r.gateway == a)) [
          | inl skip ↦ elim (find_route-Serves b h rs p.1) [
            | inl (e, m) ↦ inl (rw skip e, ((λ s. skipped r b p.0.0 skip s), m))
            | inr (rp, e, s, w, i) ↦ inr (rp, rw skip e, s, w, inr i)
          ]
          | inr take ↦ inr (r, rw take refl, taken r b p.0.0 take, p.0.0, inl refl)
        ]

  -- What the search of one chain says of its width.
  abbrev Says : Table → ℕ → Option Route → Type 0
  Says t b none = Misses net t a b
  Says t b (some rp) = Serves net a rp × (rp.bits ≡ suc b) × ((h : ℕ) × In rp (t.routes b h))

  find_route-Says :
      (t : Table) (b x : ℕ)
      → IsPlaced t
      → x ≡ prefix (suc b) a
      → Says t b (find_route net.encap a x (t.routes b (hash_ip x)))
  find_route-Says t b x p e =
      let y = prefix (suc b) a in
      let r : Says t b (find_route net.encap a y (t.routes b (hash_ip y))) =
        elim (find_route-Serves b (hash_ip y) (t.routes b (hash_ip y)) (p.chains b (hash_ip y))) [
          | inl (f, miss) ↦ rw f (λ h. elim (ℕ_discrete h (hash_ip y)) [
            | yes same ↦
                subst (λ (k : ℕ). All (λ (r : Route). ¬ Serves net a r) (t.routes b k)) (sym same)
                  miss
            | no other ↦ elsewhere b h (t.routes b h) other (p.chains b h)
          ])
          | inr (rp, f, s, w, i) ↦ rw f (s, w, (hash_ip y, i))
        ] in
      subst (λ (z : ℕ). Says t b (find_route net.encap a z (t.routes b (hash_ip z)))) (sym e) r

  Found-suc :
      (t : Table) (b : ℕ) (o rest : Option Route)
      → Says t b o
      → Found net t a b rest
      → Found net t a (suc b) (elim o [ none ↦ rest | some rp ↦ some rp ])
  Found-suc t b (some rp) rest s f =
      (b, omega arith, s.1, s.0, s.2, λ c lt lt'. absurd (omega arith))
  Found-suc t b none none s f = λ c lt. elim (ℕ_discrete c b) [
    | yes e ↦ subst (λ (k : ℕ). Misses net t a k) (sym e) s
    | no n ↦ f c (omega arith)
  ]
  Found-suc t b none (some rp) s f = (
    f.0,
    omega (arith, f.1),
    f.2,
    f.3,
    f.4,
    λ c lt lt'. elim (ℕ_discrete c b) [
      | yes e ↦ subst (λ (k : ℕ). Misses net t a k) (sym e) s
      | no n ↦ f.5 c lt (omega arith)
    ],
  )

  -- The widths below `n`, from the widest: the loop of rt_lookup with the masks told.
  pub search-Found :
      (t : Table) (n target mask : ℕ)
      → IsPlaced t
      → IsU32 a
      → n ≤ 32
      → bit_and target mask ≡ prefix n a
      → mask ≡ leading n
      → Found net t a n (search net t a target mask n)
  unfolding search
  search-Found t zero target mask p ha h e m = λ b lt. absurd (omega arith)
  search-Found t (suc b) target mask p ha h e m =
      let target' = bit_and target mask in
      let mask' = u32 (mask * 2) in
      let m' : mask' ≡ leading b = ap (λ (x : ℕ). u32 (x * 2)) m ∙ leading_shift b (omega arith) in
      let q = prefix-prefix b a (omega arith) in
      let le : prefix (suc b) a < 2 ^ 32 = omega (arith, prefix-le (suc b) a, ha) in
      let e' : bit_and target' mask' ≡ prefix b a =
        ap₂ bit_and e m' ∙ bit_and-leading b (prefix (suc b) a) le ∙ q in
      Found-suc t b (find_route net.encap a target' (t.routes b (hash_ip target')))
        (search net t a target' mask' b) (find_route-Says t b target' p e)
        (search-Found t b target' mask' p ha (omega arith) e' m')
