-- ===== src/Services.antt =====
-- src/services.cpp and src/services.hpp: the registry of services, and the factories.
-- A service is an object behind the interface `Service`; no class of the sources implements it, so
-- its methods are parameters: functions of the object's state.
pub mod Laws
use passdoq.Prelude.{
  Bool, true, false, not, ◌&&◌, Option, none, some, List, [], ◌∷◌, ◌++◌, if◌then◌else◌, is_set,
}
use passdoq.Prelude.Text.{Text}
use passdoq.StdMap.{StdMap, find, contains_key, insert, erase, keys}

pub data ServiceStatus : Type 0 where
  stopped starting running stopping failed : ServiceStatus

pub record Service (S : Type 0) : Type 0 where
  pub name : Text
  pub status : S → ServiceStatus
  pub start : S → Bool × S
  pub stop : S → Bool × S
  pub self : S

-- A call that the registry made of a method of a service, and its result.
pub data Event : Type 0 where
  started stopped_with : Text → Bool → Event

pub record Registry (S : Type 0) : Type 0 where
  pub services : StdMap (Service S)
  -- the calls so far, the first one first
  pub log : List Event

abbrev pub is_running_status : ServiceStatus → Bool
is_running_status running = true
is_running_status _ = false

module _ {S : Type 0} where
  abbrev pub empty_registry : Registry S
  empty_registry = record { services = []; log = [] }

  -- `service->start()` and `service->stop()` on the object, in place.
  abbrev pub start_object : Service S → Bool × Service S
  start_object o = let (b, s) = o.start o.self in (b, record o { self = s })

  abbrev pub stop_object : Service S → Bool × Service S
  stop_object o = let (b, s) = o.stop o.self in (b, record o { self = s })

  -- A null pointer is refused, and so is a name that is taken.
  unfoldable pub register_service : Option (Service S) → Registry S → Bool × Registry S
  register_service none r = (false, r)
  register_service (some o) r =
      if contains_key o.name r.services
      then (false, r)
      else (true, record r { services = insert o.name o r.services })

  abbrev pub unregister_found : Text → Option (Service S) → Registry S → Bool × Registry S
  unregister_found name none r = (false, r)
  unregister_found name (some o) r = (
    true,
    record {
      services = erase name r.services;
      log =
          if is_running_status (o.status o.self)
          then r.log ++ stopped_with name (stop_object o).0 ∷ []
          else r.log;
    },
  )

  unfoldable pub unregister_service : Text → Registry S → Bool × Registry S
  unregister_service name r = unregister_found name (find name r.services) r

  abbrev pub start_found : Text → Option (Service S) → Registry S → Bool × Registry S
  start_found name none r = (false, r)
  start_found name (some o) r =
      let (b, o') = start_object o in
      (b, record { services = insert name o' r.services; log = r.log ++ started name b ∷ [] })

  unfoldable pub start_service : Text → Registry S → Bool × Registry S
  start_service name r = start_found name (find name r.services) r

  abbrev pub stop_found : Text → Option (Service S) → Registry S → Bool × Registry S
  stop_found name none r = (false, r)
  stop_found name (some o) r =
      let (b, o') = stop_object o in
      (b, record { services = insert name o' r.services; log = r.log ++ stopped_with name b ∷ [] })

  unfoldable pub stop_service : Text → Registry S → Bool × Registry S
  stop_service name r = stop_found name (find name r.services) r

  unfoldable pub restart_service : Text → Registry S → Bool × Registry S
  restart_service name r =
      let (b, r') = stop_service name r in if not b then (false, r') else start_service name r'

  unfoldable pub get_service : Text → Registry S → Option (Service S)
  get_service name r = find name r.services

  unfoldable pub list_services : Registry S → List Text
  list_services r = keys r.services

  abbrev status_of : Option (Service S) → ServiceStatus
  status_of none = stopped
  status_of (some o) = o.status o.self

  unfoldable pub get_status : Text → Registry S → ServiceStatus
  unfolding get_service
  get_status name r = status_of (get_service name r)

  -- The loop of `start_all` over the services: whether all have started so far, and the log.
  unfoldable pub start_each : StdMap (Service S) → Bool → List Event → Bool × Registry S
  start_each [] all log = (all, record { services = []; log = log })
  start_each ((name, o) ∷ m) all log =
      let (b, o') = start_object o in
      let (all', r) = start_each m (if not b then false else all) (log ++ started name b ∷ []) in
      (all', record r { services = (name, o') ∷ r.services })

  unfoldable pub start_all : Registry S → Bool × Registry S
  unfolding start_each
  start_all r = start_each r.services true r.log

  unfoldable pub stop_each : StdMap (Service S) → Bool → List Event → Bool × Registry S
  stop_each [] all log = (all, record { services = []; log = log })
  stop_each ((name, o) ∷ m) all log =
      let (b, o') = stop_object o in
      let (all', r) =
        stop_each m (if not b then false else all) (log ++ stopped_with name b ∷ []) in
      (all', record r { services = (name, o') ∷ r.services })

  unfoldable pub stop_all : Registry S → Bool × Registry S
  unfolding stop_each
  stop_all r = stop_each r.services true r.log

-- The factories of `ServiceManager`; a factory is called when a service is created.
module _ {F A : Type 0} (call : F → A) where
  unfoldable pub register_factory : Text → F → StdMap F → StdMap F
  register_factory kind factory factories = insert kind factory factories

  abbrev created : Option F → Option A
  created none = none
  created (some factory) = some (call factory)

  unfoldable pub create_service : Text → StdMap F → Option A
  create_service kind factories = created (find kind factories)
