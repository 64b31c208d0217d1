-- ===== src/Ip/Route/Refines.antt =====
-- The routing table refines a map from prefixes to routes, whatever stands in its chains and cache.
use ka9q_unix.Base.{
  ℕ, ◌-◌, ◌≡◌, ◌≢◌, inl, inr, Bool, true, false, ◌==◌, List, [], ◌∷◌, Option, none, some,
  if◌then◌else◌, bit_and, refl, sym, ap, subst, ◌∙◌, arith, if_cases, Bool-cases, Option-cases,
}
use native.Mathlib.Decide.{ℕ_discrete}
use ka9q_unix.Ip.Route.{
  Net, Route, Table, hash_ip, find_target, put_route, enter, flush, rt_add, rt_drop, rt_blookup,
  drop_route, at_most_32, prefix_mask, refused, stash, rt_lookup, lookup_slow, lookup_table, Event,
  add, drop, look, handle, run, empty,
}
use ka9q_unix.Ip.Route.Entries.{
  Entries, AllUnique, same_prefix, same_prefix_zero, same_prefix_wide, rt_blookup-enter,
  rt_blookup-flush, rt_blookup_default, rt_blookup_chain, rt_blookup-with_chain, with_chain,
  update-Unique, rt_blookup_absent, enter_default, enter_chain,
}
use ka9q_unix.Ip.Route.Chains.{put_route-Unique, drop_route-Unique, find_target-drop_route}

-- What an event does to the map.
unfoldable pub specify : Net → Event → Entries → Entries
specify net (add target bits gateway none metric private) m = m
specify net (add target bits gateway (some iface) metric private) m =
    let bits' = at_most_32 bits in
    let rp : Route = record {
      target = bit_and target (prefix_mask bits');
      bits = bits';
      gateway = gateway;
      metric = metric;
      iface = some iface;
      rtprivate = private;
    } in
    if refused net target bits' gateway iface
    then m
    else (λ x b. if same_prefix x b target bits' then some rp else m x b)
specify net (drop target bits) m =
    λ x b. if same_prefix x b target (at_most_32 bits) then none else m x b
specify net (look target) m = m

unfoldable pub specify_all : Net → List Event → Entries → Entries
unfolding specify
specify_all net [] m = m
specify_all net (e ∷ es) m = specify_all net es (specify net e m)

-- The chains have no double entries, and rt_blookup is the map.
record Tracks (t : Table) (m : Entries) : Type 0 where
  unique : AllUnique t
  same : (x b : ℕ) → rt_blookup t x b ≡ m x b

enter-AllUnique : (rp : Route) (t : Table) → AllUnique t → AllUnique (enter rp t)
enter-AllUnique rp t u = elim (ℕ_discrete rp.bits 0) [
  | yes z ↦ subst AllUnique (sym (enter_default rp t z)) u
  | no n ↦
      let h = hash_ip rp.target in
      let l = put_route rp (t.routes (rp.bits - 1) h) in
      subst AllUnique (sym (enter_chain rp t n)) (
        update-Unique t.routes (rp.bits - 1) h l u
          (put_route-Unique rp (t.routes (rp.bits - 1) h) (u (rp.bits - 1) h)))
]

flush-AllUnique : (t : Table) → AllUnique t → AllUnique (flush t)
unfolding flush
flush-AllUnique t u = u

rt_drop_default :
    (t : Table) (target bits : ℕ)
    → bits ≡ 0
    → (rt_drop t target bits).1
      ≡ record (flush t) { r_default = record t.r_default { iface = none } }
unfolding rt_drop
rt_drop_default t target bits z = let c : (bits == 0) ≡ true = ground arith in rw c refl

rt_drop-none :
    (t : Table) (target bits : ℕ)
    → bits ≢ 0
    → let bits' = at_most_32 bits in
      let y = bit_and target (prefix_mask bits') in
      find_target y (t.routes (bits' - 1) (hash_ip y)) ≡ none → (rt_drop t target bits).1 ≡ flush t
unfolding rt_drop
rt_drop-none t target bits n e = let c : (bits == 0) ≡ false = ground arith in rw (c, e) refl

rt_drop-some :
    (t : Table) (target bits : ℕ) (r : Route)
    → bits ≢ 0
    → let bits' = at_most_32 bits in
      let y = bit_and target (prefix_mask bits') in
      let chain = t.routes (bits' - 1) (hash_ip y) in
      find_target y chain ≡ some r
      → (rt_drop t target bits).1
        ≡ with_chain (flush t) (bits' - 1) (hash_ip y) (drop_route y chain)
unfolding rt_drop flush
rt_drop-some t target bits r n e = let c : (bits == 0) ≡ false = ground arith in rw (c, e) refl

module _ (net : Net) where
  rt_add-Tracks :
      (target bits gateway : ℕ) (iface : Option ℕ) (metric : ℕ) (private : Bool) (t : Table)
      (m : Entries)
      → Tracks t m
      → Tracks
          (rt_add net t target bits gateway iface metric private).1
          (specify net (add target bits gateway iface metric private) m)
  unfolding rt_add specify
  rt_add-Tracks target bits gateway none metric private t m k = k
  rt_add-Tracks target bits gateway (some iface) metric private t m k =
      elim (Bool-cases (refused net target (at_most_32 bits) gateway iface)) [
        | inl y ↦ rw y k
        | inr n ↦
            let rp : Route = record {
              target = bit_and target (prefix_mask (at_most_32 bits));
              bits = at_most_32 bits;
              gateway = gateway;
              metric = metric;
              iface = some iface;
              rtprivate = private;
            } in
            rw n (record {
              unique = enter-AllUnique rp (flush t) (flush-AllUnique t k.unique);
              same = λ x b.
                  rt_blookup-enter (flush t) rp target x b refl refl
                  ∙ ap
                      (λ (o : Option Route).
                        if same_prefix x b target (at_most_32 bits) then some rp else o)
                      (rt_blookup-flush t x b ∙ k.same x b);
            })
      ]

  rt_drop-Tracks :
      (target bits : ℕ) (t : Table) (m : Entries)
      → Tracks t m
      → Tracks (rt_drop t target bits).1 (specify net (drop target bits) m)
  unfolding specify flush
  rt_drop-Tracks target bits t m k = elim (ℕ_discrete bits 0) [
    | yes z ↦
        let t' : Table = record (flush t) { r_default = record t.r_default { iface = none } } in
        subst
          (λ (u : Table).
            Tracks u (λ x b. if same_prefix x b target (at_most_32 bits) then none else m x b))
          (sym (rt_drop_default t target bits z))
          (record {
            unique = flush-AllUnique t k.unique;
            same = λ x b. elim (ℕ_discrete b 0) [
              | yes z' ↦
                  rw (same_prefix_zero x b target (at_most_32 bits) z' (ground (arith, z)))
                    (rt_blookup_default t' x b z')
              | no n' ↦
                  rw
                    (same_prefix_wide x b target (at_most_32 bits) (λ e. n' (ground (arith, e, z))))
                    (rt_blookup_chain t' x b n'
                      ∙ sym (rt_blookup_chain (flush t) x b n')
                      ∙ rt_blookup-flush t x b
                      ∙ k.same x b)
            ];
          })
    | no n ↦
        let bits' = at_most_32 bits in
        let y = bit_and target (prefix_mask bits') in
        let chain = t.routes (bits' - 1) (hash_ip y) in
        let n' : bits' ≢ 0 = λ e. n (ground (arith, e)) in
        elim (Option-cases (find_target y chain)) [
          | inl e ↦
              subst
                (λ (u : Table).
                  Tracks u (λ x b. if same_prefix x b target bits' then none else m x b))
                (sym (rt_drop-none t target bits n e))
                (record {
                  unique = flush-AllUnique t k.unique;
                  same = λ x b.
                      rt_blookup-flush t x b
                      ∙ rt_blookup_absent t target x b bits' n' e
                      ∙ ap (λ (o : Option Route). if same_prefix x b target bits' then none else o)
                          (k.same x b);
                })
          | inr (r, e) ↦
              subst
                (λ (u : Table).
                  Tracks u (λ x b. if same_prefix x b target bits' then none else m x b))
                (sym (rt_drop-some t target bits r n e))
                (record {
                  unique =
                      update-Unique t.routes (bits' - 1) (hash_ip y) (drop_route y chain) k.unique
                        (drop_route-Unique y chain (k.unique (bits' - 1) (hash_ip y)));
                  same = λ x b.
                      rt_blookup-with_chain (flush t) target x b bits' (drop_route y chain) none n'
                        (λ z. find_target-drop_route z y chain (k.unique (bits' - 1) (hash_ip y)))
                      ∙ ap (λ (o : Option Route). if same_prefix x b target bits' then none else o)
                          (rt_blookup-flush t x b ∙ k.same x b);
                })
        ]
  ]

  lookup_slow-Tracks :
      (a : ℕ) (t : Table) (m : Entries) → Tracks t m → Tracks (lookup_slow net t a).1 m
  unfolding lookup_slow stash rt_blookup
  lookup_slow-Tracks a t m k = elim (Option-cases (lookup_table net t a)) [
    | inl e ↦ rw (e, lookup_slow) k
    | inr (rp, e) ↦ rw (e, lookup_slow) (record { unique = k.unique; same = k.same })
  ]

  rt_lookup-Tracks : (a : ℕ) (t : Table) (m : Entries) → Tracks t m → Tracks (rt_lookup net t a).1 m
  unfolding rt_lookup
  rt_lookup-Tracks a t m k =
      let rcp = t.cache (hash_ip a) in
      elim (Option-cases (if a == rcp.target then rcp.route else none)) [
        | inl e ↦ rw (e, rt_lookup) (lookup_slow-Tracks a t m k)
        | inr (rp, e) ↦ rw (e, rt_lookup) k
      ]

  handle-Tracks :
      (e : Event) (t : Table) (m : Entries) → Tracks t m → Tracks (handle net e t) (specify net e m)
  unfolding handle specify
  handle-Tracks (add target bits gateway iface metric private) t m k =
      rt_add-Tracks target bits gateway iface metric private t m k
  handle-Tracks (drop target bits) t m k = rt_drop-Tracks target bits t m k
  handle-Tracks (look a) t m k = rt_lookup-Tracks a t m k

  run-Tracks :
      (es : List Event) (t : Table) (m : Entries)
      → Tracks t m
      → Tracks (run net es t) (specify_all net es m)
  unfolding run specify_all
  run-Tracks [] t m k = k
  run-Tracks (e ∷ es) t m k =
      run-Tracks es (handle net e t) (specify net e m) (handle-Tracks e t m k)

abbrev pub no_entries : Entries
no_entries = λ x b. none

empty-Tracks : Tracks empty no_entries
unfolding rt_blookup
empty-Tracks = record {
  unique = λ b h. tt;
  same = λ x b. if_cases (λ (o : Option Route). o ≡ none) (b == 0) (λ e. refl) (λ e. refl);
}

-- After any sequence of additions, deletions and lookups from the empty table, `rt_blookup` is the
-- map that the same sequence gives: an addition that is not refused maps its prefix to the new
-- route, a deletion takes the entry of its prefix away, all other entries stay, and a lookup changes
-- none.
pub run-specify_all :
    (net : Net) (es : List Event) (target bits : ℕ)
    → rt_blookup (run net es empty) target bits ≡ specify_all net es no_entries target bits
run-specify_all net es target bits =
    (run-Tracks net es empty no_entries empty-Tracks).same target bits
