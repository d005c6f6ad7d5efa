-- ===== src/Manager/Cleanup.antt =====
-- What `cleanup_dead_connections` keeps.
use sse_gateway.Prelude.{
  ◌≡◌, refl, Text, Option, none, some, Bool, false, not, List, [], ◌∷◌, contains, Distinct, keys,
  lookup, contains-keys, if◌then◌else◌, arith,
}
use sse_gateway.Extern.Json.{Json}
use sse_gateway.Extern.DashMap.{DashMap}
use sse_gateway.Extern.Mpsc.{Mpsc}
use sse_gateway.Event.{SseEvent}
use sse_gateway.Connection.{SseConnection, is_active}
use sse_gateway.Manager.{
  ConnectionManager, unregister, unregister_all, dead_ids, cleanup_dead_connections,
}
use sse_gateway.Manager.Index.{IsIndexed, get-unregister, unregister-IsIndexed}

module _ ⦃J : Json⦄ ⦃D : DashMap⦄ ⦃M : Mpsc SseEvent⦄ where
  abbrev pub is_dead : M.State → Option SseConnection → Bool
  is_dead w none = false
  is_dead w (some c) = not (is_active c w)

  abbrev pub if_active : M.State → Option SseConnection → Option SseConnection
  if_active w none = none
  if_active w (some c) = if is_active c w then some c else none

  contains-dead_ids :
      (id : Text) (l : List (Text × SseConnection)) (w : M.State)
      → Distinct (keys l)
      → contains id (dead_ids l w) ≡ is_dead w (lookup id l)
  unfolding dead_ids
  contains-dead_ids id [] w d = refl
  contains-dead_ids id ((k, c) ∷ l) w d =
      ground (arith, contains-dead_ids id l w d.1, contains-keys id l)

  get-unregister_all :
      (id : Text) (ids : List Text) (m : ConnectionManager)
      → D.get id (unregister_all ids m).connections
        ≡ (if contains id ids then none else D.get id m.connections)
  unfolding unregister_all
  get-unregister_all id [] m = refl
  get-unregister_all id (x ∷ ids) m =
      ground (arith, get-unregister_all id ids (unregister x m), get-unregister x m id)

  unregister_all-IsIndexed :
      (ids : List Text) (m : ConnectionManager) → IsIndexed m → IsIndexed (unregister_all ids m)
  unfolding unregister_all
  unregister_all-IsIndexed [] m h = h
  unregister_all-IsIndexed (x ∷ ids) m h =
      unregister_all-IsIndexed ids (unregister x m) (unregister-IsIndexed x m h)

  module _ (m : ConnectionManager) (w : M.State) where
    -- After a cleanup an id is registered exactly if it was and its receiver is there; its
    -- connection is the same.
    pub get-cleanup :
        (id : Text)
        → D.get id (cleanup_dead_connections m w).connections ≡ if_active w (D.get id m.connections)
    unfolding cleanup_dead_connections
    get-cleanup id = ground (
      arith,
      get-unregister_all id (dead_ids (D.iter m.connections) w) m,
      contains-dead_ids id (D.iter m.connections) w (D.iter-Distinct m.connections),
      D.lookup-iter id m.connections,
    )

    pub cleanup-IsIndexed : IsIndexed m → IsIndexed (cleanup_dead_connections m w)
    unfolding cleanup_dead_connections
    cleanup-IsIndexed = unregister_all-IsIndexed (dead_ids (D.iter m.connections) w) m
