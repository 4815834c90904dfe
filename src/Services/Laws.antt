-- ===== src/Services/Laws.antt =====
-- What the registry of services promises.
use passdoq.Prelude.{
  Bool, true, false, not, ◌&&◌, some, List, [], ◌∷◌, ◌++◌, if◌then◌else◌, is_set, ◌≡◌, arith,
  append_assoc, append-nil,
}
use passdoq.Prelude.Text.{Text, eq_text}
use passdoq.StdMap.{StdMap, find, contains_key, insert}
use passdoq.StdMap.Laws.{find-insert, find-insert_self}
use passdoq.Services.{
  Service, Event, started, stopped_with, Registry, start_object, stop_object, register_service,
  start_service, stop_service, restart_service, start_each, start_all,
}

module _ {S : Type 0} where
  -- Each service after a call of its `start`, and whether every call returned true.
  abbrev pub started_services : StdMap (Service S) → StdMap (Service S)
  started_services [] = []
  started_services ((name, o) ∷ m) = (name, (start_object o).1) ∷ started_services m

  abbrev pub all_start : StdMap (Service S) → Bool
  all_start [] = true
  all_start ((name, o) ∷ m) = (start_object o).0 && all_start m

  abbrev pub start_events : StdMap (Service S) → List Event
  start_events [] = []
  start_events ((name, o) ∷ m) = started name (start_object o).0 ∷ start_events m

  start_each_lem :
      (m : StdMap (Service S)) (all : Bool) (log : List Event)
      → start_each m all log ≡ (
        all && all_start m,
        record { services = started_services m; log = log ++ start_events m },
      )
  unfolding start_each
  start_each_lem [] all log = ground (arith, append-nil log)
  start_each_lem ((name, o) ∷ m) all log =
      rw
        (start_each_lem m (if not (start_object o).0 then false else all)
          (log ++ started name (start_object o).0 ∷ []))
        (ground (arith, append_assoc log (started name (start_object o).0 ∷ []) (start_events m)))

  -- `start_all` calls `start` of every service once, in the order of the names and past failures,
  -- and returns whether all calls returned true.
  pub start_all_lem :
      (r : Registry S)
      → start_all r ≡ (
        all_start r.services,
        record { services = started_services r.services; log = r.log ++ start_events r.services },
      )
  unfolding start_all
  start_all_lem r = start_each_lem r.services true r.log

  -- `restart_service` of a name that is registered: a service whose `stop` fails is not started; one
  -- that stops is started from the state in which `stop` left it. The calls made are in the log.
  restart_service_lem :
      (name : Text) (o : Service S) (r : Registry S)
      → find name r.services ≡ some o
      → let (stopped, o') = stop_object o in
        let (restarted, o'') = start_object o' in
        let (result, t) = restart_service name r in
        (result ≡ (if stopped then restarted else false))
        × (find name t.services ≡ some (if stopped then o'' else o'))
        × (t.log
            ≡ r.log
              ++ stopped_with name stopped ∷ (if stopped then started name restarted ∷ [] else []))
  unfolding restart_service stop_service start_service
  restart_service_lem name o r h =
      let o' = (stop_object o).1 in
      let o'' = (start_object o').1 in
      let e = stopped_with name (stop_object o).0 in
      let f = started name (start_object o').0 in
      let g = find-insert_self name o' r.services in
      let g' = find-insert_self name o'' (insert name o' r.services) in
      (
        ground (arith, g),
        ground (arith, g, g'),
        ground (arith, g, append_assoc r.log (e ∷ []) (f ∷ [])),
      )

  -- `register_service` never replaces a service: a name that is taken is refused and nothing
  -- changes; a new one is registered, and no other name is affected.
  register_service_lem :
      (o : Service S) (j : Text) (r : Registry S)
      → let (result, t) = register_service (some o) r in
        (result ≡ not (is_set (find o.name r.services)))
        × (find j t.services ≡ (if result && eq_text o.name j then some o else find j r.services))
  unfolding register_service contains_key
  register_service_lem o j r = ground (arith, find-insert o.name j o r.services)
