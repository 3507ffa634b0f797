-- ===== src/Client/Pool.antt =====
-- The connection pool of client/rpc_pool.go. The pool's state goes through each call, with the
-- connections that are closed on the way; the lock makes each part a single step.
pub mod Reuse
mod Runs
use Prim.Native.String.{String, ◌++◌ as str_append}
use dubbogo.Base.{
  ℕ, zero, suc, ◌+◌, Bool, Option, none, some, List, [], ◌∷◌, ◌++◌, ltb, leb, ◌==◌, if◌then◌else◌,
  length, take, get_elem?, string_key, nat_key, Dict, lookup, insert,
}

-- A connection by its number; `created` is in seconds, and 0 once it is closed.
pub record PoolConn : Type 0 where
  pub number : ℕ
  pub created : ℕ

pub record Pool : Type 0 where
  pub size : ℕ
  pub ttl : ℕ
  pub conns : Dict String (List PoolConn)

-- What the loop of `getConn` ends with: a connection, if one is found, the ones that stay, and the
-- ones that it closed, as they stood in the slice.
pub record Search : Type 0 where
  pub found : Option PoolConn
  pub kept : List PoolConn
  pub closed : List PoolConn

-- `p.conns[key]`, an empty slice where the key is missing.
unfoldable pub slice_of : Option (List PoolConn) → List PoolConn
slice_of none = []
slice_of (some cs) = cs

-- `now - conn.created > p.ttl`
abbrev pub expired : ℕ → ℕ → PoolConn → Bool
expired ttl now c = ltb (c.created + ttl) now

module _ (ttl now : ℕ) where
  -- One round: an expired connection is closed and the loop goes on with those before it.
  unfoldable pub visit :
      Option PoolConn
      → List PoolConn
      → List PoolConn
      → (List PoolConn → List PoolConn → Search)
      → Search
  visit none kept closed loop = record { found = none; kept = kept; closed = closed }
  visit (some c) kept closed loop =
      if expired ttl now c
      then loop kept (c ∷ closed)
      else record { found = some c; kept = kept; closed = closed }

  -- The loop over a slice of `n` connections, from the last one on.
  unfoldable pub search : ℕ → List PoolConn → List PoolConn → Search
  search zero cs closed = record { found = none; kept = cs; closed = closed }
  search (suc n) cs closed = visit (get_elem? cs n) (take n cs) closed (search n)

-- `p.conns[key] = conns`
abbrev pub set_conns : String → List PoolConn → Pool → Pool
set_conns key cs p = record { size = p.size; ttl = p.ttl; conns = insert key cs p.conns }

-- The key of the connections to an address: `addr + "@" + protocol`.
abbrev pub pool_key : String → String → String
pool_key protocol addr = str_append addr (str_append "@" protocol)

-- The connection that is found, or else the one that `Dial` makes, if it does not fail.
unfoldable pub or_dial : Option PoolConn → Option PoolConn → Option PoolConn
or_dial none dialled = dialled
or_dial (some c) dialled = some c

-- `getConn`: the connection, the pool, and the connections closed on the way. `none` is an error.
unfoldable pub get_conn :
    String → String → ℕ → Option PoolConn → Pool → Option PoolConn × Pool × List PoolConn
get_conn protocol addr now dialled p =
    let key = pool_key protocol addr in
    let cs = slice_of (lookup key p.conns) in
    let s = search p.ttl now (length cs) cs [] in
    (or_dial s.found dialled, if length cs == 0 then p else set_conns key s.kept p, s.closed)

-- `release` of a connection that is not nil; `failed` says that it has an error.
unfoldable pub release_conn : String → PoolConn → Bool → Pool → Pool × List PoolConn
release_conn key c failed p =
    let cs = slice_of (lookup key p.conns) in
    if c.created == 0
    then (p, [])
    else if failed
    then (p, c ∷ [])
    else if leb p.size (length cs)
    then (p, c ∷ [])
    else (set_conns key (cs ++ (c ∷ [])) p, [])

unfoldable pub release : String → String → Option PoolConn → Bool → Pool → Pool × List PoolConn
release protocol addr none failed p = (p, [])
release protocol addr (some c) failed p = release_conn (pool_key protocol addr) c failed p
