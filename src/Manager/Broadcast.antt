-- ===== src/Manager/Broadcast.antt =====
-- Who receives a broadcast. The loop over the table's entries is `send_each` over its keys.
use sse_gateway.Prelude.{
  ℕ, ◌≡◌, refl, sym, ap, ◌∙◌, Text, some, is_some, List, [], ◌∷◌, ◌++◌, contains, Distinct, retain,
  length, keys, All, All-lookup, contains-keys, if◌then◌else◌, arith,
}
use sse_gateway.Extern.Json.{Json}
use sse_gateway.Extern.DashMap.{DashMap}
use sse_gateway.Extern.Mpsc.{Mpsc}
use sse_gateway.Event.{SseEvent}
use sse_gateway.Connection.{SseConnection}
use sse_gateway.Manager.{ConnectionManager, send_each, broadcast_each, broadcast}
use sse_gateway.Manager.Senders.{IsWired}
use sse_gateway.Manager.Delivery.{
  is_reachable, send_each_found, send_each_count, accepted-send_each, is_closed-send_each,
  send_each_keeps,
}

module _ ⦃J : Json⦄ ⦃D : DashMap⦄ ⦃M : Mpsc SseEvent⦄ where
  module _ (m : ConnectionManager) where
    -- the ids of the table, in the order of its iteration
    unfoldable pub table_ids : List Text
    table_ids = keys (D.iter m.connections)

    pub entries_found :
        All
          (λ ((k, c) : Text × SseConnection). D.get k m.connections ≡ some c)
          (D.iter m.connections)
    entries_found =
        All-lookup (λ k. D.get k m.connections) (D.iter m.connections)
          (D.iter-Distinct m.connections) λ k c. sym (D.lookup-iter k m.connections)

    pub table_ids-Distinct : Distinct table_ids
    unfolding table_ids
    table_ids-Distinct = D.iter-Distinct m.connections

    pub contains-table_ids : (id : Text) → contains id table_ids ≡ is_some (D.get id m.connections)
    unfolding table_ids
    contains-table_ids id =
        contains-keys id (D.iter m.connections) ∙ ap is_some (D.lookup-iter id m.connections)

    broadcast_each-send_each :
        (e : SseEvent) (l : List (Text × SseConnection)) (n : ℕ) (w : M.State)
        → All (λ ((k, c) : Text × SseConnection). D.get k m.connections ≡ some c) l
        → broadcast_each l e n w ≡ send_each (keys l) e m n w
    unfolding broadcast_each
    broadcast_each-send_each e [] n w h = unfold send_each in refl
    broadcast_each-send_each e ((k, c) ∷ l) n w h =
        rw (send_each_found e m k (keys l) n w c h.0)
          (rw (← M.send_result c.sender e w) (broadcast_each-send_each e l _ _ h.1))

  module _ (e : SseEvent) (m : ConnectionManager) (w : M.State) where
    broadcast-send_each : broadcast e m w ≡ send_each (table_ids m) e m 0 w
    unfolding broadcast table_ids
    broadcast-send_each = broadcast_each-send_each m e _ 0 w (entries_found m)

    -- If no two entries send to the same channel, a broadcast appends the event once to the queue
    -- of a registered connection whose receiver is there, and leaves the queue of another as it
    -- was.
    pub accepted-broadcast :
        (id : Text) (conn : SseConnection)
        → IsWired m w
        → D.get id m.connections ≡ some conn
        → M.accepted conn.sender (broadcast e m w).1 ≡ (
            if M.is_closed conn.sender w
            then M.accepted conn.sender w
            else M.accepted conn.sender w ++ e ∷ [])
    accepted-broadcast id conn h g =
        rw
          (
            broadcast-send_each,
            accepted-send_each e m (table_ids m) 0 w id conn h (table_ids-Distinct m) g,
            contains-table_ids m id,
            g,
          )
          (ground arith)

    -- `broadcast` returns the number of the table's ids whose connection has its receiver.
    broadcast_count : (broadcast e m w).0 ≡ length (retain (is_reachable m w) (table_ids m))
    broadcast_count = rw broadcast-send_each (omega (arith, send_each_count e m (table_ids m) 0 w))

    pub is_closed-broadcast : (s : M.Sender) → M.is_closed s (broadcast e m w).1 ≡ M.is_closed s w
    is_closed-broadcast s = rw broadcast-send_each (is_closed-send_each e m (table_ids m) 0 w s)

    pub broadcast_keeps : (s : M.Sender) → M.IsMade w s → M.IsMade (broadcast e m w).1 s
    broadcast_keeps s h = rw broadcast-send_each (send_each_keeps e m (table_ids m) 0 w s h)

    pub broadcast-IsWired : IsWired m w → IsWired m (broadcast e m w).1
    broadcast-IsWired h = record {
      named = h.named;
      made = λ i a g.
          rw broadcast-send_each (send_each_keeps e m (table_ids m) 0 w a.sender (h.made i a g));
      apart = h.apart;
    }
