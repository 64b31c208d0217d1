-- ===== src/Ip/Route/Chains.antt =====
-- A chain of the routing table has no two routes to the same target, and each is found by its own.
use ka9q_unix.Base.{
  ℕ, ◌≡◌, ◌≢◌, inl, inr, true, false, ◌==◌, List, [], ◌∷◌, none, some, if◌then◌else◌, refl, sym,
  subst, ◌∙◌, arith, if_cases, Option-cases,
}
use native.Mathlib.Decide.{ℕ_discrete}
use ka9q_unix.Ip.Route.{Route, find_target, set_route, put_route, drop_route}

-- No two routes of a chain have the same target.
abbrev pub Unique : List Route → Type 0
Unique [] = Unit
Unique (r ∷ rs) = (find_target r.target rs ≡ none) × Unique rs

find_target-set_route :
    (rp : Route) (x : ℕ) (rs : List Route)
    → rp.target ≢ x
    → find_target x (set_route rp rs) ≡ find_target x rs
unfolding find_target set_route
find_target-set_route rp x [] n = refl
find_target-set_route rp x (r ∷ rs) n = let ih = find_target-set_route rp x rs n in ground arith

find_target-set_route_same :
    (rp : Route) (rs : List Route) (r : Route)
    → find_target rp.target rs ≡ some r
    → find_target rp.target (set_route rp rs) ≡ some rp
unfolding find_target set_route
find_target-set_route_same rp [] r e = cc
find_target-set_route_same rp (q ∷ rs) r e = elim (ℕ_discrete q.target rp.target) [
  | yes y ↦ ground (arith, y)
  | no n ↦
      let e' : find_target rp.target rs ≡ some r = ground (arith, e) in
      let ih = find_target-set_route_same rp rs r e' in ground (arith, ih)
]

find_target-drop_route-none :
    (x y : ℕ) (rs : List Route) → find_target x rs ≡ none → find_target x (drop_route y rs) ≡ none
unfolding find_target drop_route
find_target-drop_route-none x y [] e = refl
find_target-drop_route-none x y (r ∷ rs) e = elim (ℕ_discrete r.target x) [
  | yes h ↦ ground arith
  | no n ↦
      let e' : find_target x rs ≡ none = ground (arith, e) in
      let ih = find_target-drop_route-none x y rs e' in ground arith
]

pub find_target-drop_route :
    (x y : ℕ) (rs : List Route)
    → Unique rs
    → find_target x (drop_route y rs) ≡ (if x == y then none else find_target x rs)
unfolding find_target drop_route
find_target-drop_route x y [] u = ground arith
find_target-drop_route x y (r ∷ rs) u = elim (ℕ_discrete r.target y) [
  | yes h ↦
      let e : find_target y rs ≡ none = subst (λ (k : ℕ). find_target k rs ≡ none) h u.0 in
      elim (ℕ_discrete x y) [
        | yes k ↦
            let e' : find_target x rs ≡ none =
              subst (λ (k : ℕ). find_target k rs ≡ none) (sym k) e in
            ground arith
        | no k ↦ ground arith
      ]
  | no n ↦ let ih = find_target-drop_route x y rs u.1 in ground arith
]

set_route-Unique : (rp : Route) (rs : List Route) → Unique rs → Unique (set_route rp rs)
unfolding set_route
set_route-Unique rp [] u = tt
set_route-Unique rp (r ∷ rs) u = elim (ℕ_discrete r.target rp.target) [
  | yes h ↦
      let b : (r.target == rp.target) ≡ true = ground arith in
      rw b (subst (λ (k : ℕ). find_target k rs ≡ none) h u.0, u.1)
  | no n ↦
      let b : (r.target == rp.target) ≡ false = ground arith in
      rw b (find_target-set_route rp r.target rs (λ e. n (sym e)) ∙ u.0, set_route-Unique rp rs u.1)
]

pub drop_route-Unique : (y : ℕ) (rs : List Route) → Unique rs → Unique (drop_route y rs)
unfolding drop_route
drop_route-Unique y [] u = tt
drop_route-Unique y (r ∷ rs) u =
    if_cases Unique (r.target == y) (λ e. u.1)
      (λ e. (find_target-drop_route-none r.target y rs u.0, drop_route-Unique y rs u.1))

pub put_route-Unique : (rp : Route) (rs : List Route) → Unique rs → Unique (put_route rp rs)
unfolding put_route
put_route-Unique rp rs u = elim (Option-cases (find_target rp.target rs)) [
  | inl e ↦ rw (e, put_route) (e, u)
  | inr (r, e) ↦ rw (e, put_route) (set_route-Unique rp rs u)
]

put_route_same : (rp : Route) (rs : List Route) → find_target rp.target (put_route rp rs) ≡ some rp
unfolding put_route find_target
put_route_same rp rs = elim (Option-cases (find_target rp.target rs)) [
  | inl e ↦ rw (e, put_route) (ground arith)
  | inr (r, e) ↦ rw (e, put_route) (find_target-set_route_same rp rs r e)
]

find_target_passed :
    (rp : Route) (x : ℕ) (rs : List Route)
    → rp.target ≢ x
    → find_target x (rp ∷ rs) ≡ find_target x rs
unfolding find_target
find_target_passed rp x rs n = ground arith

pub find_target-put_route :
    (rp : Route) (x : ℕ) (rs : List Route)
    → find_target x (put_route rp rs) ≡ (if x == rp.target then some rp else find_target x rs)
unfolding put_route
find_target-put_route rp x rs = elim (ℕ_discrete rp.target x) [
  | yes h ↦
      let b : (x == rp.target) ≡ true = ground arith in
      rw b (subst (λ (k : ℕ). find_target k (put_route rp rs) ≡ some rp) h (put_route_same rp rs))
  | no n ↦
      let b : (x == rp.target) ≡ false = ground arith in
      rw b (elim (Option-cases (find_target rp.target rs)) [
        | inl e ↦ rw (e, put_route) (find_target_passed rp x rs n)
        | inr (r, e) ↦ rw (e, put_route) (find_target-set_route rp x rs n)
      ])
]
