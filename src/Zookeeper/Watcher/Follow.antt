-- ===== src/Zookeeper/Watcher/Follow.antt =====
-- The selector's cache follows the children that the watcher sees.
use Prim.Native.String.{String}
use text.Mathlib.TextEquality.{eq_iff}
use mathlib.Core.Option.{some-injective}
use dubbogo.Base.{
  ℕ, Bool, ◌≡◌, refl, sym, subst, inl, inr, true, false, not, ◌&&◌, none, some, List, [], ◌∷◌, ◌++◌,
  arith, if◌then◌else◌, Bool-cases, All, All-append, Option-cases, string_key,
}
use dubbogo.Registry.Service.{key, service_equal, ServiceUrl, ServiceConfig, service_url_del}
use dubbogo.Registry.Urls.{new_service_url, new_service_url-primitive, UrlLib}
use dubbogo.Selector.Cache.{CacheSelector}
use dubbogo.Selector.Cache.Loop.{count_url}
use dubbogo.Selector.Cache.Update.{cached, IsDistinctCache}
use dubbogo.Zookeeper.Watcher.{
  contains, get_children, send, or_no_children, added_nodes, deleted_nodes, handle_zk_node_event,
  found_nodes, watch_service, Event, Answer,
}
use dubbogo.Zookeeper.Watcher.Effects.{
  deliver, StaysValid, effect, effect-append, is_fit, wanted, Fits, deliver-effect, fits_here,
  added-Fits, same_contained, added-effect,
}

module _ (lib : UrlLib) (conf : ServiceConfig) where
  -- What the deletions of children do.
  abbrev Deletes : List String → List String → List Event → Type 0
  Deletes new ns es =
      All (Fits lib conf) es
      × ((u : String) (m : ℕ)
          → effect es u m ≡ (
              if contains ns u && not (contains new u) && is_fit lib conf (new_service_url lib u)
              then 0
              else m))

  delete_known :
      (new ns : List String) (n : String) (es : List Event)
      → contains new n ≡ true
      → Deletes new ns es
      → Deletes new (n ∷ ns) es
  unfolding contains
  delete_known new ns n es known (fits, effects) =
      (fits, λ u m. rw (effects u m) (ground (arith, same_contained lib conf new n u true known)))

  delete_unfit :
      (new ns : List String) (n : String) (s : ServiceUrl) (es : List Event)
      → new_service_url lib n ≡ some s
      → service_equal conf s ≡ false
      → Deletes new ns es
      → Deletes new (n ∷ ns) es
  unfolding contains
  delete_unfit new ns n s es e unfit (fits, effects) =
      (fits, λ u m. rw (effects u m) (ground (arith, fits_here lib conf n u (some s) e)))

  delete_fit :
      (new ns : List String) (n : String) (s : ServiceUrl) (es : List Event)
      → contains new n ≡ false
      → new_service_url lib n ≡ some s
      → service_equal conf s ≡ true
      → Deletes new ns es
      → Deletes new (n ∷ ns) (send service_url_del s es)
  unfolding contains effect
  delete_fit new ns n s es gone e fit (fits, effects) = (
    (fit, fits),
    λ u m. rw effects (
        ground (
          arith,
          fits_here lib conf n u (some s) e,
          same_contained lib conf new n u false gone,
          new_service_url-primitive lib n s e,
        )),
  )

  no_deletion : (u : String) (m : ℕ) → effect [] u m ≡ m
  unfolding effect
  no_deletion u m = refl

  deleted_nodes-Deletes :
      (new ns : List String) (es : List Event)
      → deleted_nodes lib conf new ns ≡ some es
      → Deletes new ns es
  unfolding deleted_nodes contains
  deleted_nodes-Deletes new [] es h =
      subst (Deletes new []) (some-injective [] es h) (tt, λ u m. no_deletion u m)
  deleted_nodes-Deletes new (n ∷ ns) es h = elim (Bool-cases (contains new n)) [
    | inl known ↦ delete_known new ns n es known (deleted_nodes-Deletes new ns es (rw known at h))
    | inr gone ↦ elim (Option-cases (new_service_url lib n)) [
      | inl e ↦ absurd (ground arith)
      | inr (s, e) ↦ elim (Bool-cases (service_equal conf s)) [
        | inr unfit ↦
            delete_unfit new ns n s es e unfit
              (deleted_nodes-Deletes new ns es (rw (gone, e, unfit) at h))
        | inl fit ↦ elim (Option-cases (deleted_nodes lib conf new ns)) [
          | inl e' ↦ absurd (ground arith)
          | inr (later, e') ↦
              subst (Deletes new (n ∷ ns)) (some-injective _ es (rw (gone, e, fit, e') at h))
                (delete_fit new ns n s later gone e fit (deleted_nodes-Deletes new ns later e'))
        ]
      ]
    ]
  ]

  deleted-panics :
      (new ns : List String) (n : String)
      → contains ns n ≡ true
      → contains new n ≡ false
      → new_service_url lib n ≡ none
      → deleted_nodes lib conf new ns ≡ none
  unfolding deleted_nodes contains
  deleted-panics new [] n known gone bad = absurd (ground arith)
  deleted-panics new (m ∷ ns) n known gone bad = elim (Bool-cases (string_key.same m n)) [
    | inl same ↦ rw ((eq_iff m n).0 same, gone, bad) refl
    | inr other ↦ rw (deleted-panics new ns n (rw other at known) gone bad) (ground arith)
  ]

  -- The selector's cache, with just the children that fit before, has just those that fit behind the
  -- events of `handleZkNodeEvent`, whatever the times at which it takes them, where its connection is
  -- valid at each of these times, zookeeper answers some children and the watcher does not panic.
  pub handle_zk_node_event-follows :
      (at : ℕ → ℕ × Bool) (c : CacheSelector) (old new : List String) (answer : Answer)
      (es : List Event)
      → StaysValid at
      → get_children answer ≡ some new
      → handle_zk_node_event lib conf old answer ≡ some es
      → IsDistinctCache c
      → ((u : String) → count_url u (cached c (key conf)) ≡ wanted lib conf old u)
      → (u : String) → count_url u (cached (deliver at c es) (key conf)) ≡ wanted lib conf new u
  unfolding handle_zk_node_event wanted
  handle_zk_node_event-follows at c old new answer es valid answered sent d before u =
      elim (Option-cases (deleted_nodes lib conf new old)) [
        | inl e ↦ absurd (ground arith)
        | inr (gone, e) ↦
            let whole : added_nodes lib conf old new ++ gone ≡ es =
              some-injective _ es (rw (answered, e) at sent) in
            let (fits, effects) = deleted_nodes-Deletes new old gone e in
            let all_fit =
              All-append (Fits lib conf) (added_nodes lib conf old new) gone
                (added-Fits lib conf old new) fits in
            rw
              (
                sym whole,
                (deliver-effect lib conf at c (added_nodes lib conf old new ++ gone) valid all_fit
                      d).1
                    u,
                effect-append (added_nodes lib conf old new) gone u,
                effects u,
                added-effect lib conf old new u,
                before u,
              )
              (ground arith)
      ]

  found-added : (cs : List String) → found_nodes lib conf cs ≡ added_nodes lib conf [] cs
  unfolding found_nodes added_nodes contains
  found-added [] = refl
  found-added (c ∷ cs) = rw (found-added cs) refl

  -- The events of `watchService` bring just the children that fit into a cache that has none of the
  -- service before.
  pub watch_service-follows :
      (at : ℕ → ℕ × Bool) (c : CacheSelector) (answer : Answer)
      → StaysValid at
      → IsDistinctCache c
      → ((u : String) → count_url u (cached c (key conf)) ≡ 0)
      → (u : String)
      → count_url u (cached (deliver at c (watch_service lib conf answer)) (key conf))
        ≡ wanted lib conf (or_no_children (get_children answer)) u
  unfolding watch_service wanted contains
  watch_service-follows at c answer valid d none_before u =
      let cs = or_no_children (get_children answer) in
      rw
        (
          found-added cs,
          (deliver-effect lib conf at c (added_nodes lib conf [] cs) valid
                (added-Fits lib conf [] cs) d).1
              u,
          added-effect lib conf [] cs u,
          none_before u,
        )
        (ground arith)

  -- A child that is gone and is no url takes the watcher down, whatever else has changed.
  pub handle_zk_node_event-panics :
      (old new : List String) (answer : Answer) (n : String)
      → get_children answer ≡ some new
      → contains old n ≡ true
      → contains new n ≡ false
      → new_service_url lib n ≡ none
      → handle_zk_node_event lib conf old answer ≡ none
  unfolding handle_zk_node_event
  handle_zk_node_event-panics old new answer n answered known gone bad =
      rw (answered, deleted-panics new old n known gone bad) refl
