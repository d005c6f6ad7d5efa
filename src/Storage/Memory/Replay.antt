-- ===== src/Storage/Memory/Replay.antt =====
-- What a client that reconnects is sent again.
use sse_gateway.Prelude.{
  ℕ, zero, suc, ◌+◌, ◌-◌, ◌≤◌, ◌<◌, ◌≡◌, refl, sym, ap, ◌∙◌, Text, some, true, false, List, [], ◌∷◌,
  ◌++◌, length, length-append, drop, keys, ==_refl, contains, append_assoc, arith, Option-cases,
  inl, inr,
}
use sse_gateway.Extern.Json.{Json}
use sse_gateway.Extern.DashMap.{DashMap}
use sse_gateway.Event.{SseEvent}
use sse_gateway.Storage.Trait.{StoreCall}
use sse_gateway.Storage.Memory.{MemoryStorage, Entry, new, after_entries, get_messages_after, store}
use sse_gateway.Storage.Memory.Window.{
  newest, stream, store_all, log, stream_refines_log, stream-store, drop-append,
}

module _ ⦃J : Json⦄ where
  -- the events of entries
  abbrev pub events : List Entry → List SseEvent
  events [] = []
  events ((_, e) ∷ l) = e ∷ events l

  events-append : (l r : List Entry) → events (l ++ r) ≡ events l ++ events r
  events-append [] r = refl
  events-append ((_, e) ∷ l) r = ap (λ t. e ∷ t) (events-append l r)

  after_entries_found : (id : Text) (l : List Entry) → after_entries true id l ≡ events l
  unfolding after_entries
  after_entries_found id [] = refl
  after_entries_found id ((i, e) ∷ l) = ap (λ r. e ∷ r) (after_entries_found id l)

  after_entries_missing :
      (id : Text) (l : List Entry) → contains id (keys l) ≡ false → after_entries false id l ≡ []
  unfolding after_entries
  after_entries_missing id [] h = refl
  after_entries_missing id ((i, e) ∷ l) h = ground (arith, after_entries_missing id l)

  pub after_entries_at :
      (id : Text) (e : SseEvent) (before rest : List Entry)
      → contains id (keys before) ≡ false
      → after_entries false id (before ++ (id, e) ∷ rest) ≡ events rest
  unfolding after_entries
  after_entries_at id e [] rest h = ground (arith, after_entries_found id rest)
  after_entries_at id e ((i, f) ∷ before) rest h = ground (arith, after_entries_at id e before rest)

  pub keys-drop :
      (id : Text) (n : ℕ) (l : List Entry)
      → contains id (keys l) ≡ false
      → contains id (keys (drop n l)) ≡ false
  keys-drop id zero l h = h
  keys-drop id (suc n) [] h = refl
  keys-drop id (suc n) ((i, e) ∷ l) h = keys-drop id n l (ground arith)

  drop_past : (n : ℕ) (l r : List Entry) → length l ≤ n → drop n (l ++ r) ≡ drop (n - length l) r
  drop_past n [] r h = let z : n - 0 ≡ n = omega arith in rw z
  drop_past zero (x ∷ l) r h = absurd (omega arith)
  drop_past (suc n) (x ∷ l) r h =
      let z : suc n - suc (length l) ≡ n - length l = omega arith in
      rw z (drop_past n l r (omega arith))

module _ ⦃J : Json⦄ ⦃D : DashMap⦄ where
  pub messages_from_stream :
      (c id : Text) (s : MemoryStorage)
      → get_messages_after c (some id) s ≡ after_entries false id (stream c s)
  unfolding get_messages_after stream
  messages_from_stream c id s = elim (Option-cases (D.get c s.streams)) [
    | inl e ↦ rw (e, get_messages_after) (unfold after_entries in refl)
    | inr (l, e) ↦ rw (e, get_messages_after)
  ]

  module _ (max : ℕ) (h : List StoreCall) (c id : Text) (e : SseEvent)
      (before rest : List Entry) where
    -- Start from an empty storage and run any list of stores. A client that saw the event `id`, at
    -- its first place in what was stored for the channel, is sent exactly the events stored for
    -- that channel since, in order, if fewer than `max` were.
    pub replay_exact :
        log c h ≡ before ++ (id, e) ∷ rest
        → contains id (keys before) ≡ false
        → length rest < max
        → get_messages_after c (some id) (store_all h (new max)) ≡ events rest
    unfolding newest
    replay_exact split fresh few =
        let k = length (before ++ (id, e) ∷ rest) - max in
        let small : k ≤ length before = omega (arith, length-append before ((id, e) ∷ rest)) in
        rw
          (
            messages_from_stream,
            stream_refines_log,
            split,
            drop-append k before ((id, e) ∷ rest) small,
          )
          (after_entries_at id e (drop k before) rest (keys-drop id k before fresh))

    -- If `max` or more events were stored for the channel since the event `id`, none of them under
    -- that id, it is out of the window and a client that saw it is sent nothing.
    pub replay_lost :
        log c h ≡ before ++ (id, e) ∷ rest
        → contains id (keys rest) ≡ false
        → max ≤ length rest
        → get_messages_after c (some id) (store_all h (new max)) ≡ []
    unfolding newest
    replay_lost split once many =
        let k = length (before ++ (id, e) ∷ rest) - max in
        let front = before ++ (id, e) ∷ [] in
        let big : length front ≤ k =
          omega
            (arith, length-append before ((id, e) ∷ rest), length-append before ((id, e) ∷ [])) in
        let shape : before ++ (id, e) ∷ rest ≡ front ++ rest =
          sym (append_assoc before ((id, e) ∷ []) rest) in
        let window : drop k (before ++ (id, e) ∷ rest) ≡ drop (k - length front) rest =
          ap (drop k) shape ∙ drop_past k front rest big in
        rw (messages_from_stream, stream_refines_log, split, window)
          (after_entries_missing id _ (keys-drop id (k - length front) rest once))

  -- A message that is stored when the client's last event is recent enough is added to the replay.
  pub replay-store :
      (s : MemoryStorage) (c id : Text) (e : SseEvent) (before rest : List Entry) (stream_id : Text)
      (event : SseEvent)
      → stream c s ≡ before ++ (id, e) ∷ rest
      → contains id (keys before) ≡ false
      → length rest + 1 < s.max_per_channel
      → get_messages_after c (some id) (store c stream_id event s)
        ≡ events rest ++ (record event { stream_id = some stream_id }) ∷ []
  unfolding newest
  replay-store s c id e before rest stream_id event split fresh few =
      let entry : Entry = (stream_id, record event { stream_id = some stream_id }) in
      let tail = (id, e) ∷ (rest ++ entry ∷ []) in
      let k = length (before ++ tail) - s.max_per_channel in
      let small : k ≤ length before =
        omega (arith, length-append before tail, length-append rest (entry ∷ [])) in
      rw
        (
          messages_from_stream,
          stream-store,
          ==_refl,
          split,
          append_assoc before ((id, e) ∷ rest) (entry ∷ []),
          drop-append k before tail small,
        )
        (after_entries_at id e (drop k before) (rest ++ entry ∷ []) (keys-drop id k before fresh)
          ∙ events-append rest (entry ∷ []))
