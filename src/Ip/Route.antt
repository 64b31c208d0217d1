-- ===== src/Ip/Route.antt =====
-- net/inet/iproute.c: the routing table. `Routes[b][h]` is `routes b h`, the routes to prefixes of
-- `b + 1` bits whose target hashes to `h`; an interface is known by its number. The cache holds a
-- copy of the route where the code holds a pointer: each change of a route here empties it. The
-- timer of a route and its count of uses are not part of the model.
pub mod Masks
pub mod Longest
pub mod Changes
pub mod Lookup
pub mod Chains
pub mod Entries
pub mod Refines
mod Tests
use ka9q_unix.Base.{
  ℕ, zero, suc, ◌+◌, ◌-◌, ◌*◌, ◌/◌, ◌%◌, ◌^◌, Bool, true, false, ◌&&◌, ◌||◌, not, ltb, ◌==◌, List,
  [], ◌∷◌, Option, none, some, if◌then◌else◌, bit_and, bit_xor,
}
use ka9q_unix.Base.Word.{u16, u32}

pub record Iface : Type 0 where
  pub number : ℕ
  pub addr : ℕ

pub record Route : Type 0 where
  pub target : ℕ
  pub bits : ℕ
  pub gateway : ℕ
  pub metric : ℕ
  pub iface : Option ℕ
  pub rtprivate : Bool

pub record RtCache : Type 0 where
  pub target : ℕ
  pub route : Option Route

pub record Table : Type 0 where
  pub routes : ℕ → ℕ → List Route
  pub r_default : Route
  pub cache : ℕ → RtCache

-- What the table is used with: the interfaces, and the number of the one that encapsulates.
pub record Net : Type 0 where
  pub ifaces : List Iface
  pub encap : ℕ

abbrev pub hashmod : ℕ
hashmod = 7

unfoldable pub hash_ip : ℕ → ℕ
hash_ip addr = bit_xor (u16 (addr / 2 ^ 16)) (u16 addr) % hashmod

has_addr : ℕ → List Iface → Bool
has_addr addr [] = false
has_addr addr (ifp ∷ ifs) = addr == ifp.addr || has_addr addr ifs

-- The unspecified address stands for the loopback interface.
unfoldable pub ismyaddr : Net → ℕ → Bool
unfolding has_addr
ismyaddr net addr = addr == 0 || has_addr addr net.ifaces

abbrev pub is_iface : Option ℕ → ℕ → Bool
is_iface none n = false
is_iface (some i) n = i == n

abbrev pub is_set : Option ℕ → Bool
is_set none = false
is_set (some i) = true

-- `~0L << (32 - bits)`, cut to an int32
unfoldable pub prefix_mask : ℕ → ℕ
prefix_mask bits = u32 ((2 ^ 32 - 1) * 2 ^ (32 - bits))

-- The search of one chain: the first route to `target` that does not lead through a tunnel whose
-- other end is `tsave` itself.
unfoldable pub find_route : ℕ → ℕ → ℕ → List Route → Option Route
find_route encap tsave target [] = none
find_route encap tsave target (rp ∷ rps) =
    if not (rp.target == target) || is_iface rp.iface encap && rp.gateway == tsave
    then find_route encap tsave target rps
    else some rp

-- The loop over the widths; `n` is `bits + 1`.
unfoldable pub search : Net → Table → ℕ → ℕ → ℕ → ℕ → Option Route
search net t tsave target mask zero = none
search net t tsave target mask (suc bits) =
    let target' = bit_and target mask in
    let rest = search net t tsave target' (u32 (mask * 2)) bits in
    elim (find_route net.encap tsave target' (t.routes bits (hash_ip target'))) [
      | none ↦ rest
      | some rp ↦ some rp
    ]

unfoldable pub stash : ℕ → ℕ → Route → Table → Table
stash slot target rp t =
    let cached : RtCache = record { target = target; route = some rp } in
    record t { cache = λ s. if s == slot then cached else t.cache s }

unfoldable pub lookup_table : Net → Table → ℕ → Option Route
lookup_table net t target = elim (search net t target target (2 ^ 32 - 1) 32) [
  | some rp ↦ some rp
  | none ↦ if is_set t.r_default.iface then some t.r_default else none
]

-- The route, and the table with the new entry of the cache.
unfoldable pub lookup_slow : Net → Table → ℕ → Option Route × Table
lookup_slow net t target = elim (lookup_table net t target) [
  | none ↦ (none, t)
  | some rp ↦ (some rp, stash (hash_ip target) target rp t)
]

unfoldable pub rt_lookup : Net → Table → ℕ → Option Route × Table
rt_lookup net t target =
    let rcp = t.cache (hash_ip target) in
    elim (if target == rcp.target then rcp.route else none) [
      | some rp ↦ (some rp, t)
      | none ↦ lookup_slow net t target
    ]

-- The route to just this target.
unfoldable pub find_target : ℕ → List Route → Option Route
find_target target [] = none
find_target target (rp ∷ rps) = if rp.target == target then some rp else find_target target rps

unfoldable pub rt_blookup : Table → ℕ → ℕ → Option Route
unfolding find_target
rt_blookup t target bits =
    let target' = bit_and target (prefix_mask bits) in
    if bits == 0
    then (if is_set t.r_default.iface then some t.r_default else none)
    else find_target target' (t.routes (bits - 1) (hash_ip target'))

unfoldable pub flush : Table → Table
flush t = record t { cache = λ s. record (t.cache s) { route = none } }

abbrev pub update : (ℕ → ℕ → List Route) → ℕ → ℕ → List Route → ℕ → ℕ → List Route
update routes b h l b' h' = if b' == b && h' == h then l else routes b' h'

-- The entry found is filled in where it stands, a new one at the head of its chain.
unfoldable pub set_route : Route → List Route → List Route
set_route rp [] = []
set_route rp (r ∷ rs) = if r.target == rp.target then rp ∷ rs else r ∷ set_route rp rs

unfoldable pub put_route : Route → List Route → List Route
unfolding set_route find_target
put_route rp chain = elim (find_target rp.target chain) [
  | none ↦ rp ∷ chain
  | some r ↦ set_route rp chain
]

unfoldable pub refused : Net → ℕ → ℕ → ℕ → ℕ → Bool
refused net target bits gateway iface =
    bits == 32 && ismyaddr net target
    || iface == net.encap && (gateway == 0 || ismyaddr net gateway)

abbrev pub at_most_32 : ℕ → ℕ
at_most_32 bits = if ltb 32 bits then 32 else bits

unfoldable pub enter : Route → Table → Table
unfolding put_route
enter rp t =
    let h = hash_ip rp.target in
    if rp.bits == 0 then record t { r_default = rp } else record t {
      routes = update t.routes (rp.bits - 1) h (put_route rp (t.routes (rp.bits - 1) h));
    }

-- The new route, or null where the code refuses it.
unfoldable pub rt_add : Net → Table → ℕ → ℕ → ℕ → Option ℕ → ℕ → Bool → Option Route × Table
rt_add net t target bits gateway none metric private = (none, t)
rt_add net t target bits gateway (some iface) metric private =
    let bits' = at_most_32 bits in
    let rp : Route = record {
      target = bit_and target (prefix_mask bits');
      bits = bits';
      gateway = gateway;
      metric = metric;
      iface = some iface;
      rtprivate = private;
    } in
    if refused net target bits' gateway iface then (none, t) else (some rp, enter rp (flush t))

unfoldable pub drop_route : ℕ → List Route → List Route
drop_route target [] = []
drop_route target (r ∷ rs) = if r.target == target then rs else r ∷ drop_route target rs

-- `false` is the -1 for a route that is not in the table.
unfoldable pub rt_drop : Table → ℕ → ℕ → Bool × Table
rt_drop t target bits =
    let bits' = at_most_32 bits in
    let target' = bit_and target (prefix_mask bits') in
    let h = hash_ip target' in
    let chain = t.routes (bits' - 1) h in
    let dropped = update t.routes (bits' - 1) h (drop_route target' chain) in
    if bits == 0
    then (true, record (flush t) { r_default = record t.r_default { iface = none } })
    else elim (find_target target' chain) [
      | none ↦ (false, flush t)
      | some r ↦ (true, record (flush t) { routes = dropped })
    ]

-- The table at the start: no route, no default and nothing in the cache.
abbrev pub no_route : Route
no_route = record {
  target = 0;
  bits = 0;
  gateway = 0;
  metric = 16;
  iface = none;
  rtprivate = false;
}

abbrev pub empty : Table
empty = record {
  routes = λ b h. [];
  r_default = no_route;
  cache = λ s. record { target = 0; route = none };
}

-- What happens to the table.
pub data Event : Type 0 where
  add : ℕ → ℕ → ℕ → Option ℕ → ℕ → Bool → Event
  drop : ℕ → ℕ → Event
  look : ℕ → Event

unfoldable pub handle : Net → Event → Table → Table
handle net (add target bits gateway iface metric private) t =
    (rt_add net t target bits gateway iface metric private).1
handle net (drop target bits) t = (rt_drop t target bits).1
handle net (look target) t = (rt_lookup net t target).1

unfoldable pub run : Net → List Event → Table → Table
unfolding handle
run net [] t = t
run net (e ∷ es) t = run net es (handle net e t)
