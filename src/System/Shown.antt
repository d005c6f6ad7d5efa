-- ===== src/System/Shown.antt =====
-- What the statistics show of the sessions.
use sse_gateway.Prelude.{
  ℕ, ◌≡◌, refl, sym, ap, ◌∙◌, Text, is_some, List, [], ◌∷◌, map, contains, length, length_of_same,
  lookup, keys, Distinct, All, All-map, contains-keys, arith, if◌then◌else◌,
}
use sse_gateway.Extern.Json.{Json}
use sse_gateway.Extern.DashMap.{DashMap}
use sse_gateway.Extern.Mpsc.{Mpsc}
use sse_gateway.Extern.SseFrame.{SseFrame}
use sse_gateway.Event.{SseEvent}
use sse_gateway.Connection.{SseConnection}
use sse_gateway.Manager.{values, list_connections}
use sse_gateway.Manager.Broadcast.{entries_found}
use sse_gateway.Manager.Cleanup.{if_active}
use sse_gateway.Storage.Trait.{MessageStorage}
use sse_gateway.Handler.{Callbacks}
use sse_gateway.Handler.Stats.{ConnectionStats, connection_stats, get_stats}
use sse_gateway.System.{System, Steps}
use sse_gateway.System.Sound.{ids}
use sse_gateway.System.Safety.{initial, initial-IsSound, Steps-IsSound, sessions_live, length-ids}

-- the ids that are shown as active
abbrev pub active_ids : List ConnectionStats → List Text
active_ids [] = []
active_ids (c ∷ l) = let rest = active_ids l in if c.active then c.id ∷ rest else rest

module _ ⦃J : Json⦄ ⦃D : DashMap⦄ ⦃M : Mpsc SseEvent⦄ (to_rfc3339 : ℕ → Text) (w : M.State) where
  abbrev Entries : Type 0
  Entries = List (Text × SseConnection)

  abbrev shown : Entries → List Text
  shown l = active_ids (map (connection_stats to_rfc3339 w) (values l))

  contains-shown :
      (id : Text) (l : Entries)
      → All (λ ((k, c) : Text × SseConnection). c.id ≡ k) l
      → Distinct (keys l)
      → contains id (shown l) ≡ is_some (if_active w (lookup id l))
  unfolding values connection_stats
  contains-shown id [] h d = refl
  contains-shown id ((k, c) ∷ l) h d =
      ground (arith, contains-shown id l h.1 d.1, contains-keys id l, h.0)

  shown-Distinct :
      (l : Entries)
      → All (λ ((k, c) : Text × SseConnection). c.id ≡ k) l
      → Distinct (keys l)
      → Distinct (shown l)
  unfolding values connection_stats
  shown-Distinct [] h d = tt
  shown-Distinct ((k, c) ∷ l) h d =
      ground
        (arith, shown-Distinct l h.1 d.1, contains-shown c.id l h.1 d.1, contains-keys k l, h.0)

module _ ⦃J : Json⦄ ⦃D : DashMap⦄ ⦃M : Mpsc SseEvent⦄ ⦃F : SseFrame⦄ {S : MessageStorage}
    {Response E : Type 0} (k : Callbacks Response E) where
  -- In every state that steps lead to from the start of the gateway, the connections that the
  -- statistics show as active have the ids of the sessions, each once and no others, and are as
  -- many.
  pub stats_show_sessions :
      (to_rfc3339 : ℕ → Text) (instance_id : Text) (wires : M.State) (storage : S.State) (env : E)
      {s : System S E}
      → Steps k (initial instance_id wires storage env) s
      → (let active = active_ids (get_stats to_rfc3339 s.world).connections in
          Distinct active
          × ((id : Text) → contains id active ≡ contains id (ids s.sessions))
          × (length active ≡ length s.sessions))
  unfolding get_stats list_connections
  stats_show_sessions to_rfc3339 instance_id wires storage env {s} r =
      let h = Steps-IsSound r (initial-IsSound instance_id wires storage env) in
      let m = s.world.manager in
      let l = D.iter m.connections in
      let distinct = D.iter-Distinct m.connections in
      let named =
        All-map (λ ((i, c) : Text × SseConnection) e. h.wired.named i c e) l (entries_found m) in
      let active = shown to_rfc3339 s.world.wires l in
      let once : Distinct active = shown-Distinct to_rfc3339 s.world.wires l named distinct in
      let same : (id : Text) → contains id active ≡ contains id (ids s.sessions) = λ id.
        contains-shown to_rfc3339 s.world.wires id l named distinct
        ∙ ap (λ o. is_some (if_active s.world.wires o)) (D.lookup-iter id m.connections)
        ∙ sym (sessions_live s id h) in
      (
        once,
        same,
        length_of_same active (ids s.sessions) once h.distinct same ∙ length-ids s.sessions,
      )
