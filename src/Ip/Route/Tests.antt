-- ===== src/Ip/Route/Tests.antt =====
-- The theorems on the routing table at a small network.
use ka9q_unix.Base.{ℕ, ◌≡◌, false, List, [], ◌∷◌, Option, none, some, arith, refl}
use ka9q_unix.Ip.Route.{
  Net, Route, Event, add, drop, look, run, empty, rt_lookup, rt_blookup, hash_ip, refused, rt_add,
  rt_drop, ismyaddr, enter, flush, lookup_slow, lookup_table, search, find_route, find_target,
  prefix_mask, stash, drop_route,
}
use ka9q_unix.Ip.Route.Lookup.{IsBest, rt_lookup-longest}
use ka9q_unix.Ip.Route.Refines.{specify_all, no_entries, run-specify_all}

-- This host is 44.0.0.1; the interface 1 encapsulates.
abbrev net : Net
net = record { ifaces = record { number = 2; addr = 0x2c000001 } ∷ []; encap = 1 }

-- A default route, a route to 44.0.0.0/8, one to 44.1.0.0/16 with a lookup behind it, and one to
-- 44.1.2.0/24 through a tunnel whose other end is the address looked for.
abbrev events : List Event
events =
    add 0 0 0 (some 2) 1 false
    ∷ add 0x2c000000 8 0 (some 3) 1 false
    ∷ add 0x2c010000 16 0 (some 4) 1 false
    ∷ look 0x2c010203
    ∷ add 0x2c010200 24 0x2c010203 (some 1) 1 false
    ∷ look 0x2c010203
    ∷ []

rt_lookup-longest_example :
    let t = run net events empty in IsBest net t 0x2c010203 (rt_lookup net t 0x2c010203).0
rt_lookup-longest_example = rt_lookup-longest net events 0x2c010203 (omega arith)

run-specify_all_example :
    rt_blookup (run net events empty) 0x2c010200 24
    ≡ specify_all net events no_entries 0x2c010200 24
run-specify_all_example = run-specify_all net events 0x2c010200 24

-- The number of the interface that the answer names.
via : Option Route → Option ℕ
via none = none
via (some rp) = rp.iface

-- The tunnel to the address itself is passed over.
longest : via (rt_lookup net (run net events empty) 0x2c010203).0 ≡ some 4
unfolding via run rt_lookup rt_add refused ismyaddr enter flush lookup_slow lookup_table search
    find_route hash_ip prefix_mask stash
longest = refl

-- Without the route to 44.1.0.0/16 the shorter prefix is taken.
dropped :
    via (rt_lookup net (run net (drop 0x2c010000 16 ∷ []) (run net events empty)) 0x2c010203).0
    ≡ some 3
unfolding via run rt_lookup rt_add refused ismyaddr enter flush lookup_slow lookup_table search
    find_route hash_ip prefix_mask stash rt_drop find_target drop_route
dropped = refl
