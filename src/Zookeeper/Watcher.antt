-- ===== src/Zookeeper/Watcher.antt =====
-- registry/zk/watch.go: the events that a watcher sends to the selector, as a list in their order.
-- The children are those of the path of one service; each call runs without the others.
pub mod Effects
pub mod Follow
mod Runs
use Prim.Native.String.{String}
use dubbogo.Base.{
  Bool, true, false, not, Option, none, some, List, [], ◌∷◌, ◌++◌, ◌==◌, if◌then◌else◌, length,
  string_key,
}
use dubbogo.Registry.Service.{
  service_equal, Action, ServiceUrl, ServiceConfig, service_url_add, service_url_del,
}
use dubbogo.Registry.Urls.{new_service_url, UrlLib}

pub record Event : Type 0 where
  pub action : Action
  pub service : ServiceUrl

-- `common.Contains`
unfoldable pub contains : List String → String → Bool
contains [] e = false
contains (a ∷ s) e = let others = contains s e in if string_key.same a e then true else others

-- What `conn.Children` answers: no connection, an error, or the children beside the node's state,
-- which may be nil.
pub data Answer : Type 0 where
  no_conn : Answer
  failed : Answer
  listed : Bool → List String → Answer

-- A node without children is an error.
unfoldable pub get_children : Answer → Option (List String)
get_children no_conn = none
get_children failed = none
get_children (listed stat children) =
    if not stat then none else if length children == 0 then none else some children

abbrev pub send : Action → ServiceUrl → List Event → List Event
send action url later = record { action = action; service = url } ∷ later

abbrev pub send_later : Action → ServiceUrl → Option (List Event) → Option (List Event)
send_later action url none = none
send_later action url (some later) = some (send action url later)

abbrev pub both_events : List Event → Option (List Event) → Option (List Event)
both_events added none = none
both_events added (some deleted) = some (added ++ deleted)

abbrev pub or_no_children : Option (List String) → List String
or_no_children none = []
or_no_children (some children) = children

module _ (lib : UrlLib) (conf : ServiceConfig) where
  -- The event for a new child, if it is a url that fits the configuration.
  abbrev pub send_add : Option ServiceUrl → List Event → List Event
  send_add none later = later
  send_add (some url) later =
      if not (service_equal conf url) then later else send service_url_add url later

  -- The loop over the new children.
  unfoldable pub added_nodes : List String → List String → List Event
  added_nodes children [] = []
  added_nodes children (n ∷ ns) =
      let later = added_nodes children ns in
      if contains children n then later else send_add (new_service_url lib n) later

  -- The event for a child that is gone. `ServiceEqual` of a nil url panics, which is `none`.
  abbrev pub send_del : Option ServiceUrl → Option (List Event) → Option (List Event)
  send_del none later = none
  send_del (some url) later =
      if not (service_equal conf url) then later else send_later service_url_del url later

  -- The loop over the old children.
  unfoldable pub deleted_nodes : List String → List String → Option (List Event)
  deleted_nodes new_children [] = some []
  deleted_nodes new_children (n ∷ ns) =
      let later = deleted_nodes new_children ns in
      if contains new_children n then later else send_del (new_service_url lib n) later

  abbrev pub handle_children : List String → Option (List String) → Option (List Event)
  handle_children children none = some []
  handle_children children (some new_children) =
      both_events (added_nodes children new_children) (deleted_nodes new_children children)

  -- `handleZkNodeEvent`, with the children before and what zookeeper answers now.
  unfoldable pub handle_zk_node_event : List String → Answer → Option (List Event)
  handle_zk_node_event children answer = handle_children children (get_children answer)

  -- The loop of `watchService` over the children that it finds.
  unfoldable pub found_nodes : List String → List Event
  found_nodes [] = []
  found_nodes (c ∷ cs) = send_add (new_service_url lib c) (found_nodes cs)

  -- `watchService`, up to the watches that it starts.
  unfoldable pub watch_service : Answer → List Event
  watch_service answer = found_nodes (or_no_children (get_children answer))
