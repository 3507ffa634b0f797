-- ===== src/Client/Pool/Runs.antt =====
-- Runs of the pool at concrete connections.
use dubbogo.Base.{ℕ, ◌≡◌, refl, false, none, some, [], ◌∷◌, arith, string_key, nat_key, lookup}
use dubbogo.Client.Pool.{
  slice_of, visit, search, or_dial, get_conn, release_conn, release, PoolConn, Pool, Search,
}
use dubbogo.Client.Pool.Reuse.{IsSearch, get_conn-IsSearch, IsBounded, get_conn-release}

abbrev conn : ℕ → ℕ → PoolConn
conn number created = record { number = number; created = created }

abbrev empty_pool : Pool
empty_pool = record { size = 2; ttl = 60; conns = [] }

-- One address with two connections, the last of them young enough at 100.
abbrev busy_pool : Pool
busy_pool = record { size = 2; ttl = 60; conns = ("h:1@dubbo", conn 1 20 ∷ conn 2 50 ∷ []) ∷ [] }

take_second : (get_conn "dubbo" "h:1" 100 none busy_pool).0 ≡ some (conn 2 50)
unfolding get_conn slice_of lookup search visit or_dial
take_second = refl

full_refused : (release "dubbo" "h:1" (some (conn 3 90)) false busy_pool).1 ≡ conn 3 90 ∷ []
unfolding release release_conn slice_of lookup
full_refused = refl

empty_pool-IsBounded : IsBounded empty_pool
unfolding lookup slice_of
empty_pool-IsBounded key = omega arith

get_conn-IsSearch_example :
    (s : Search) × IsSearch 60 100 (slice_of (lookup "h:1@dubbo" busy_pool.conns)) s
    × (get_conn "dubbo" "h:1" 100 none busy_pool).0 ≡ or_dial s.found none
    × (get_conn "dubbo" "h:1" 100 none busy_pool).2 ≡ s.closed
    × slice_of (lookup "h:1@dubbo" (get_conn "dubbo" "h:1" 100 none busy_pool).1.conns) ≡ s.kept
get_conn-IsSearch_example = get_conn-IsSearch "dubbo" "h:1" 100 none busy_pool

get_conn-release_example :
    (get_conn "dubbo" "h:1" 80 none (release "dubbo" "h:1" (some (conn 1 20)) false empty_pool).0).0
    ≡ some (conn 1 20)
unfolding lookup slice_of
get_conn-release_example =
    get_conn-release "dubbo" "h:1" 80 none (conn 1 20) empty_pool (λ e. omega arith) (omega arith)
      (omega arith)
