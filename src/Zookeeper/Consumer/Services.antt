-- ===== src/Zookeeper/Consumer/Services.antt =====
-- Which providers a consumer is given.
use Prim.Native.String.{String}
use dubbogo.Base.{
  ◌≡◌, refl, sym, ◌∙◌, inl, inr, true, false, ◌&&◌, Option, none, some, List, [], ◌∷◌, arith,
  if◌then◌else◌, Bool-cases, All, or_else, or_else_assoc, or_else-none, string_key, nat_key,
  text_key, Dict, lookup, insert, lookup-insert,
}
use dubbogo.Registry.Service.{query_get, key, service_equal, ServiceUrl, ServiceConfig}
use dubbogo.Registry.Urls.{new_service_url, UrlLib}
use dubbogo.Zookeeper.Watcher.{get_children, Answer}
use dubbogo.Zookeeper.Consumer.{values, add_location, service_map, get_services, ConsumerRegistry}

-- The provider at an address.
unfoldable pub find_at : String → List ServiceUrl → Option ServiceUrl
find_at location [] = none
find_at location (s ∷ ss) =
    let others = find_at location ss in
    if string_key.same s.location location then some s else others

-- Every url of the map stands under its address.
abbrev IsKeyed : Dict String ServiceUrl → Type 0
IsKeyed = All (λ e. e.1.location ≡ e.0)

find_at-values :
    (location : String) (table : Dict String ServiceUrl)
    → IsKeyed table
    → find_at location (values table) ≡ lookup location table
unfolding find_at values lookup
find_at-values location [] h = refl
find_at-values location ((at, url) ∷ rest) (here, others) =
    ground (arith, here, find_at-values location rest others)

insert-IsKeyed :
    (url : ServiceUrl) (table : Dict String ServiceUrl)
    → IsKeyed table
    → IsKeyed (insert url.location url table)
unfolding insert
insert-IsKeyed url [] h = (refl, tt)
insert-IsKeyed url ((at, old) ∷ rest) (here, others) =
    elim (Bool-cases (string_key.same at url.location)) [
      | inl same ↦ rw same (refl, others)
      | inr other ↦ rw other (here, insert-IsKeyed url rest others)
    ]

module _ (lib : UrlLib) (conf : ServiceConfig) where
  -- What a child stands for at an address.
  abbrev fit_at : String → Option ServiceUrl → Option ServiceUrl
  fit_at location none = none
  fit_at location (some url) =
      if service_equal conf url && string_key.same url.location location then some url else none

  -- The last child that fits at an address.
  unfoldable pub last_fit : String → List String → Option ServiceUrl
  last_fit location [] = none
  last_fit location (n ∷ ns) =
      or_else (last_fit location ns) (fit_at location (new_service_url lib n))

  -- The urls that fit have an address, and no query that is named by it.
  abbrev pub IsAddressed : Type 0
  IsAddressed =
      (n : String) (url : ServiceUrl)
      → new_service_url lib n ≡ some url
      → service_equal conf url ≡ true
      → (string_key.same url.location "" ≡ false) × (query_get url.location url ≡ "")

  -- A map without a blank address.
  abbrev IsTable : Dict String ServiceUrl → Type 0
  IsTable table = IsKeyed table × (lookup "" table ≡ none)

  insert-IsTable :
      (url : ServiceUrl) (table : Dict String ServiceUrl)
      → string_key.same url.location "" ≡ false
      → IsTable table
      → IsTable (insert url.location url table)
  insert-IsTable url table full (keyed, no_blank) =
      (insert-IsKeyed url table keyed, lookup-insert url.location "" url table ∙ rw full no_blank)

  Located : String → Dict String ServiceUrl → Option ServiceUrl → Type 0
  Located location table o =
      IsTable (add_location lib conf table o)
      × (lookup location (add_location lib conf table o)
          ≡ or_else (fit_at location o) (lookup location table))

  add_location-IsTable :
      (n location : String) (table : Dict String ServiceUrl) (o : Option ServiceUrl)
      → IsAddressed
      → new_service_url lib n ≡ o
      → IsTable table
      → Located location table o
  unfolding Located
  add_location-IsTable n location table none addressed e h = (h, refl)
  add_location-IsTable n location table (some url) addressed e h =
      elim (Bool-cases (service_equal conf url)) [
        | inr unfit ↦ rw unfit (h, refl)
        | inl fit ↦
            let (full, unasked) = addressed n url e fit in
            rw (fit, unasked, h.1)
              (
                insert-IsTable url table full h,
                lookup-insert url.location location url table ∙ ground arith,
              )
      ]

  service_map_lem :
      (location : String) (ns : List String) (table : Dict String ServiceUrl)
      → IsAddressed
      → IsTable table
      → IsKeyed (service_map lib conf ns table)
        × (lookup location (service_map lib conf ns table)
            ≡ or_else (last_fit location ns) (lookup location table))
  unfolding service_map last_fit Located
  service_map_lem location [] table addressed h = (h.0, refl)
  service_map_lem location (n ∷ ns) table addressed h =
      let (next, found) =
        add_location-IsTable n location table (new_service_url lib n) addressed refl h in
      let (keyed, later) =
        service_map_lem location ns (add_location lib conf table (new_service_url lib n)) addressed
          next in
      (
        keyed,
        later
            ∙ rw found (
                sym (
                  or_else_assoc (last_fit location ns) (fit_at location (new_service_url lib n))
                    (lookup location table))),
      )

  -- Where the urls that fit have an address, and no query that is named by it, a consumer that is
  -- registered is given, for each address, the last child that fits there.
  pub get_services-last_fit :
      (c : ConsumerRegistry) (sc : ServiceConfig) (answer : Answer) (nodes : List String)
      (location : String)
      → lookup (key sc) c.services ≡ some conf
      → get_children answer ≡ some nodes
      → IsAddressed
      → (services : List ServiceUrl) × (get_services lib c sc true answer ≡ some services)
        × (find_at location services ≡ last_fit location nodes)
  unfolding get_services lookup
  get_services-last_fit c sc answer nodes location known answered addressed =
      let (keyed, found) = service_map_lem location nodes [] addressed (tt, refl) in
      (
        values (service_map lib conf nodes []),
        rw (known, answered) refl,
        find_at-values location (service_map lib conf nodes []) keyed
            ∙ found
            ∙ or_else-none (last_fit location nodes),
      )
