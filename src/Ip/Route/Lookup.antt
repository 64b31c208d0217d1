-- ===== src/Ip/Route/Lookup.antt =====
-- The cache gives what the search would give, and a lookup is right after any history.
use ka9q_unix.Base.{
  ℕ, zero, suc, ◌-◌, ◌*◌, ◌^◌, ◌<◌, ◌≤◌, ◌≡◌, ◌⊎◌, inl, inr, Bool, true, false, ◌==◌, List, [], ◌∷◌,
  Option, none, some, if◌then◌else◌, bit_and, refl, sym, ap, ap₂, subst, ◌∙◌, arith, All,
  Bool-cases, Option-cases,
}
use native.Mathlib.Decide.{ℕ_discrete, dec_lt}
use ka9q_unix.Base.Word.{u32, IsU32}
use ka9q_unix.Ip.Route.{
  Net, Route, RtCache, Table, hash_ip, find_route, search, lookup_table, lookup_slow, stash,
  rt_lookup, is_set, rt_add, rt_drop, Event, add, drop, look, handle, run, empty,
}
use ka9q_unix.Ip.Route.Masks.{bit_and-leading}
use ka9q_unix.Ip.Route.Longest.{Serves, In, IsPlaced, Found, search-Found}
use ka9q_unix.Ip.Route.Changes.{Changed, rt_add-Changed, rt_drop-Changed}

-- No route in the table that serves the address is wider than `n`.
abbrev pub NoneWider : Net → Table → ℕ → ℕ → Type 0
NoneWider net t a n =
    (b h : ℕ) → b < 32 → All (λ (r : Route). Serves net a r → r.bits ≤ n) (t.routes b h)

-- The answer to a lookup: a route of the table with the longest prefix among those that serve the
-- address, or the default route if none does, or nothing if that is not set.
abbrev pub IsBest : Net → Table → ℕ → Option Route → Type 0
IsBest net t a none = NoneWider net t a 0 × (is_set t.r_default.iface ≡ false)
IsBest net t a (some rp) =
    NoneWider net t a rp.bits
    × ((Serves net a rp × ((b : ℕ) × ((h : ℕ) × In rp (t.routes b h))))
        ⊎ ((rp ≡ t.r_default) × (is_set rp.iface ≡ true)))

module _ (net : Net) where
  All-wider :
      (a b h n : ℕ) (rs : List Route)
      → All (λ (r : Route). (r.bits ≡ suc b) × (hash_ip r.target ≡ h)) rs
      → suc b ≤ n
      → All (λ (r : Route). Serves net a r → r.bits ≤ n) rs
  All-wider a b h n [] p le = tt
  All-wider a b h n (r ∷ rs) p le = (λ s. omega (arith, p.0.0), All-wider a b h n rs p.1 le)

  All-missed :
      (a n : ℕ) (rs : List Route)
      → All (λ (r : Route). ¬ Serves net a r) rs
      → All (λ (r : Route). Serves net a r → r.bits ≤ n) rs
  All-missed a n [] p = tt
  All-missed a n (r ∷ rs) p = (λ s. absurd (p.0 s), All-missed a n rs p.1)

  Found-IsBest :
      (t : Table) (a : ℕ) (o : Option Route)
      → IsPlaced t
      → Found net t a 32 o
      → IsBest net t a (elim o [
        | some rp ↦ some rp
        | none ↦ if is_set t.r_default.iface then some t.r_default else none
      ])
  Found-IsBest t a none p f = elim (Bool-cases (is_set t.r_default.iface)) [
    | inl y ↦
        rw y ((λ b h lt. All-missed a t.r_default.bits (t.routes b h) (f b lt h)), inr (refl, y))
    | inr n ↦ rw n ((λ b h lt. All-missed a 0 (t.routes b h) (f b lt h)), n)
  ]
  Found-IsBest t a (some rp) p f = (
    λ b h lt. elim (dec_lt f.0 b) [
      | yes wider ↦ All-missed a rp.bits (t.routes b h) (f.5 b wider lt h)
      | no other ↦ All-wider a b h rp.bits (t.routes b h) (p.chains b h) (omega (arith, f.2))
    ],
    inl (f.3, (f.0, f.4)),
  )

  lookup_table-IsBest :
      (t : Table) (a : ℕ) → IsPlaced t → IsU32 a → IsBest net t a (lookup_table net t a)
  unfolding lookup_table
  lookup_table-IsBest t a p h =
      Found-IsBest t a (search net t a a (2 ^ 32 - 1) 32) p
        (search-Found net a t 32 a (2 ^ 32 - 1) p h (omega arith) (bit_and-leading 32 a h) refl)

  -- The cache is no part of what a search looks at.
  search-stash :
      (t : Table) (slot x : ℕ) (r : Route) (n a target mask : ℕ)
      → search net (stash slot x r t) a target mask n ≡ search net t a target mask n
  unfolding search stash
  search-stash t slot x r zero a target mask = refl
  search-stash t slot x r (suc n) a target mask =
      let target' = bit_and target mask in
      ap
        (λ (rest : Option Route).
          elim (find_route net.encap a target' (t.routes n (hash_ip target')))
            as (λ y. Option Route) [ none ↦ rest | some rp ↦ some rp ])
        (search-stash t slot x r n a target' (u32 (mask * 2)))

  stash_default : (slot x : ℕ) (r : Route) (t : Table) → (stash slot x r t).r_default ≡ t.r_default
  unfolding stash
  stash_default slot x r t = refl

  lookup_table-stash :
      (t : Table) (slot x : ℕ) (r : Route) (a : ℕ)
      → lookup_table net (stash slot x r t) a ≡ lookup_table net t a
  unfolding lookup_table
  lookup_table-stash t slot x r a =
      ap₂
        (λ (o : Option Route) (d : Route). elim o as (λ y. Option Route) [
          | some rp ↦ some rp
          | none ↦ if is_set d.iface then some d else none
        ])
        (search-stash t slot x r 32 a a (2 ^ 32 - 1)) (stash_default slot x r t)

  -- Each route stands in its chain, and a cached route is what the search of the table gives.
  record IsSound (t : Table) : Type 0 where
    placed : IsPlaced t
    coherent :
        (s : ℕ) (rp : Route)
        → (t.cache s).route ≡ some rp
        → lookup_table net t (t.cache s).target ≡ some rp

  Changed-IsSound : (t : Table) → Changed t → IsSound t
  Changed-IsSound t c = record {
    placed = c.0;
    coherent = λ s rp e. absurd (none_some rp (sym (c.1 s) ∙ e));
  }
    where
      none_some : (rp : Route) → ¬ (none ≡ some rp)
      none_some rp e = cc

  stash-IsPlaced : (t : Table) (slot x : ℕ) (r : Route) → IsPlaced t → IsPlaced (stash slot x r t)
  unfolding stash
  stash-IsPlaced t slot x r p = record { chains = p.chains; default_bits = p.default_bits }

  -- An entry put into the cache is what the search gave.
  stash-coherent :
      (t : Table) (slot x : ℕ) (r : Route)
      → lookup_table net t x ≡ some r
      → IsSound t
      → (s : ℕ) (rp : Route) → ((stash slot x r t).cache s).route ≡ some rp
      → lookup_table net t ((stash slot x r t).cache s).target ≡ some rp
  unfolding stash
  stash-coherent t slot x r e q s rp h =
      let new : RtCache = record { target = x; route = some r } in
      elim (Bool-cases (s == slot)) [
        | inl y ↦
            let h' : some r ≡ some rp =
              subst (λ (c : Bool). (if c then new else t.cache s).route ≡ some rp) y h in
            rw y (e ∙ h')
        | inr n ↦
            let h' : (t.cache s).route ≡ some rp =
              subst (λ (c : Bool). (if c then new else t.cache s).route ≡ some rp) n h in
            rw n (q.coherent s rp h')
      ]

  stash-IsSound :
      (t : Table) (slot x : ℕ) (r : Route)
      → lookup_table net t x ≡ some r
      → IsSound t
      → IsSound (stash slot x r t)
  stash-IsSound t slot x r e q = record {
    placed = stash-IsPlaced t slot x r q.placed;
    coherent = λ s rp h.
        lookup_table-stash t slot x r ((stash slot x r t).cache s).target
        ∙ stash-coherent t slot x r e q s rp h;
  }

  lookup_slow-IsSound :
      (t : Table) (a : ℕ)
      → IsSound t
      → ((lookup_slow net t a).0 ≡ lookup_table net t a) × IsSound (lookup_slow net t a).1
  unfolding lookup_slow
  lookup_slow-IsSound t a q = elim (Option-cases (lookup_table net t a)) [
    | inl e ↦ rw (e, lookup_slow) (refl, q)
    | inr (rp, e) ↦ rw (e, lookup_slow) (refl, stash-IsSound t (hash_ip a) a rp e q)
  ]

  rt_lookup-IsSound :
      (t : Table) (a : ℕ)
      → IsSound t
      → ((rt_lookup net t a).0 ≡ lookup_table net t a) × IsSound (rt_lookup net t a).1
  unfolding rt_lookup
  rt_lookup-IsSound t a q = elim (ℕ_discrete a (t.cache (hash_ip a)).target) [
    | yes y ↦
        let b : (a == (t.cache (hash_ip a)).target) ≡ true = ground arith in
        rw (b, rt_lookup)
          (elim (Option-cases (t.cache (hash_ip a)).route) [
            | inl e ↦ rw e (lookup_slow-IsSound t a q)
            | inr (rp, e) ↦ rw e (sym (ap (lookup_table net t) y ∙ q.coherent (hash_ip a) rp e), q)
          ])
    | no n ↦
        let b : (a == (t.cache (hash_ip a)).target) ≡ false = ground arith in
        rw (b, rt_lookup) (lookup_slow-IsSound t a q)
  ]

  handle-IsSound : (e : Event) (t : Table) → IsSound t → IsSound (handle net e t)
  unfolding handle
  handle-IsSound (add target bits gateway iface metric private) t q =
      elim (rt_add-Changed net t target bits gateway iface metric private q.placed) [
        | inl (e, same) ↦ subst IsSound (sym same) q
        | inr c ↦ Changed-IsSound (rt_add net t target bits gateway iface metric private).1 c
      ]
  handle-IsSound (drop target bits) t q =
      Changed-IsSound (rt_drop t target bits).1 (rt_drop-Changed t target bits q.placed)
  handle-IsSound (look a) t q = (rt_lookup-IsSound t a q).1

  run-IsSound : (es : List Event) (t : Table) → IsSound t → IsSound (run net es t)
  unfolding run
  run-IsSound [] t q = q
  run-IsSound (e ∷ es) t q = run-IsSound es (handle net e t) (handle-IsSound e t q)

  empty-IsSound : IsSound empty
  empty-IsSound =
      Changed-IsSound empty (record { chains = λ b h. tt; default_bits = refl }, λ s. refl)

  rt_lookup-IsBest :
      (t : Table) (a : ℕ) → IsSound t → IsU32 a → IsBest net t a (rt_lookup net t a).0
  rt_lookup-IsBest t a q h =
      subst (λ (o : Option Route). IsBest net t a o) (sym (rt_lookup-IsSound t a q).0)
        (lookup_table-IsBest t a q.placed h)

-- After any sequence of additions, deletions and lookups from the empty table, `rt_lookup` of any
-- address gives, whether or not from the cache, a route of the table that serves the address and
-- whose prefix is the longest of those that do, or the default route if none does, or none if that
-- is not set.
pub rt_lookup-longest :
    (net : Net) (es : List Event) (a : ℕ)
    → IsU32 a
    → let t = run net es empty in IsBest net t a (rt_lookup net t a).0
rt_lookup-longest net es a h =
    rt_lookup-IsBest net (run net es empty) a (run-IsSound net es empty (empty-IsSound net)) h
