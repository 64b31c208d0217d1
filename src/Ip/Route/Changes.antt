-- ===== src/Ip/Route/Changes.antt =====
-- rt_add and rt_drop keep each route in its chain.
use ka9q_unix.Base.{
  ℕ, suc, ◌-◌, ◌≡◌, ◌⊎◌, inl, inr, Bool, ◌==◌, List, [], ◌∷◌, Option, none, some, bit_and, refl,
  arith, All, if_cases, Bool-cases, Option-cases,
}
use native.Mathlib.Decide.{ℕ_discrete}
use ka9q_unix.Ip.Route.{
  Net, Route, Table, hash_ip, find_target, set_route, put_route, enter, flush, rt_add, rt_drop,
  drop_route, update, at_most_32, prefix_mask, refused,
}
use ka9q_unix.Ip.Route.Longest.{IsPlaced}

-- The width and the hash of a chain's routes.
abbrev Fits : ℕ → ℕ → Route → Type 0
Fits b h r = (r.bits ≡ suc b) × (hash_ip r.target ≡ h)

module _ (b h : ℕ) (rp : Route) (f : Fits b h rp) where
  set_route-All : (rs : List Route) → All (Fits b h) rs → All (Fits b h) (set_route rp rs)
  unfolding set_route
  set_route-All [] p = tt
  set_route-All (r ∷ rs) p =
      if_cases (All (Fits b h)) (r.target == rp.target) (λ e. (f, p.1))
        (λ e. (p.0, set_route-All rs p.1))

  put_route-All : (rs : List Route) → All (Fits b h) rs → All (Fits b h) (put_route rp rs)
  unfolding put_route
  put_route-All rs p = go (find_target rp.target rs)
    where
      go :
          (o : Option Route) → All (Fits b h) (elim o [ none ↦ rp ∷ rs | some r ↦ set_route rp rs ])
      go none = (f, p)
      go (some r) = set_route-All rs p

drop_route-All :
    (b h target : ℕ) (rs : List Route) → All (Fits b h) rs → All (Fits b h) (drop_route target rs)
unfolding drop_route
drop_route-All b h target [] p = tt
drop_route-All b h target (r ∷ rs) p =
    if_cases (All (Fits b h)) (r.target == target) (λ e. p.1)
      (λ e. (p.0, drop_route-All b h target rs p.1))

-- One chain is replaced.
update-All :
    (routes : ℕ → ℕ → List Route) (b h : ℕ) (l : List Route)
    → ((b h : ℕ) → All (Fits b h) (routes b h))
    → All (Fits b h) l
    → (b' h' : ℕ) → All (Fits b' h') (update routes b h l b' h')
update-All routes b h l p q b' h' = elim (ℕ_discrete b' b) [
  | yes e ↦ elim (ℕ_discrete h' h) [
    | yes k ↦ let u : update routes b h l b' h' ≡ l = ground (arith, e, k) in rw (u, e, k) q
    | no k ↦ let u : update routes b h l b' h' ≡ routes b' h' = ground (arith, k) in rw u (p b' h')
  ]
  | no e ↦ let u : update routes b h l b' h' ≡ routes b' h' = ground (arith, e) in rw u (p b' h')
]

enter-IsPlaced : (rp : Route) (t : Table) → IsPlaced t → IsPlaced (enter rp t)
unfolding enter
enter-IsPlaced rp t p = elim (Bool-cases (rp.bits == 0)) [
  | inl z ↦ rw z (record { chains = p.chains; default_bits = ground arith })
  | inr n ↦
      let h = hash_ip rp.target in
      let b = rp.bits - 1 in
      rw n (record {
        chains =
            update-All t.routes b h (put_route rp (t.routes b h)) p.chains
              (put_route-All b h rp (ground arith, refl) (t.routes b h) (p.chains b h));
        default_bits = p.default_bits;
      })
]

flush-IsPlaced : (t : Table) → IsPlaced t → IsPlaced (flush t)
unfolding flush
flush-IsPlaced t p = record { chains = p.chains; default_bits = p.default_bits }

enter_flushed : (rp : Route) (t : Table) (s : ℕ) → ((enter rp (flush t)).cache s).route ≡ none
unfolding enter flush
enter_flushed rp t s = elim (Bool-cases (rp.bits == 0)) [ inl z ↦ rw z | inr n ↦ rw n ]

-- A change of the table leaves each route in its chain, and nothing in the cache.
abbrev pub Changed : Table → Type 0
Changed t = IsPlaced t × ((s : ℕ) → (t.cache s).route ≡ none)

pub rt_add-Changed :
    (net : Net) (t : Table) (target bits gateway : ℕ) (iface : Option ℕ) (metric : ℕ)
    (private : Bool)
    → IsPlaced t
    → let r = rt_add net t target bits gateway iface metric private in
      (r.0 ≡ none × (r.1 ≡ t)) ⊎ Changed r.1
unfolding rt_add
rt_add-Changed net t target bits gateway none metric private p = inl (refl, refl)
rt_add-Changed net t target bits gateway (some iface) metric private p =
    elim (Bool-cases (refused net target (at_most_32 bits) gateway iface)) [
      | inl y ↦ inl (rw y refl, rw y refl)
      | inr n ↦
          let rp : Route = record {
            target = bit_and target (prefix_mask (at_most_32 bits));
            bits = at_most_32 bits;
            gateway = gateway;
            metric = metric;
            iface = some iface;
            rtprivate = private;
          } in
          inr (rw n (enter-IsPlaced rp (flush t) (flush-IsPlaced t p), enter_flushed rp t))
    ]

pub rt_drop-Changed : (t : Table) (target bits : ℕ) → IsPlaced t → Changed (rt_drop t target bits).1
unfolding rt_drop flush
rt_drop-Changed t target bits p =
    let bits' = at_most_32 bits in
    let target' = bit_and target (prefix_mask bits') in
    let h = hash_ip target' in
    let chain = t.routes (bits' - 1) h in
    let dropped =
      update-All t.routes (bits' - 1) h (drop_route target' chain) p.chains
        (drop_route-All (bits' - 1) h target' chain (p.chains (bits' - 1) h)) in
    elim (Bool-cases (bits == 0)) [
      | inl z ↦ rw z (record { chains = p.chains; default_bits = p.default_bits }, λ s. refl)
      | inr n ↦ elim (Option-cases (find_target target' chain)) [
        | inl e ↦ rw (n, e) (record { chains = p.chains; default_bits = p.default_bits }, λ s. refl)
        | inr (r, e) ↦
            rw (n, e) (record { chains = dropped; default_bits = p.default_bits }, λ s. refl)
      ]
    ]
