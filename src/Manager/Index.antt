-- ===== src/Manager/Index.antt =====
-- The channel index agrees with the connection table.
use sse_gateway.Prelude.{
  ℕ, ◌≡◌, refl, Text, ◌==◌, Option, none, some, Bool, false, not, List, [], ◌∷◌, ◌++◌, contains,
  Distinct, if◌then◌else◌, arith, contains-append, contains-retain_ne, retain_ne-Distinct,
  concat-Distinct, retain, Option-cases, inl, inr,
}
use sse_gateway.Extern.Json.{Json}
use sse_gateway.Extern.DashMap.{DashMap}
use sse_gateway.Extern.Mpsc.{Mpsc}
use sse_gateway.Event.{SseEvent}
use sse_gateway.Connection.{SseConnection}
use sse_gateway.Manager.{ConnectionManager, new, register, unregister, channel_ids}

module _ ⦃J : Json⦄ ⦃D : DashMap⦄ ⦃M : Mpsc SseEvent⦄ where
  abbrev pub in_channel : Text → Option SseConnection → Bool
  in_channel c none = false
  in_channel c (some conn) = conn.channel_id == c

  -- An id is in the index of a channel exactly if it is registered for that channel, and then once.
  pub record IsIndexed (m : ConnectionManager) : Type 0 where
    pub agrees :
        (c id : Text) → contains id (channel_ids c m) ≡ in_channel c (D.get id m.connections)
    pub distinct : (c : Text) → Distinct (channel_ids c m)

  pub new-IsIndexed : (instance_id : Text) → IsIndexed (new instance_id)
  unfolding new channel_ids
  new-IsIndexed i = record {
    agrees =
        λ c id. ground (arith, D.get-empty {V = List Text} c, D.get-empty {V = SseConnection} id);
    distinct = λ c. ground (arith, D.get-empty {V = List Text} c);
  }

  pub get-register :
      (uuid : Text) (now : ℕ) (channel_id : Text) (ip agent : Option Text) (m : ConnectionManager)
      (w : M.State) (id : Text)
      → D.get id (register uuid now channel_id ip agent m w).2.connections ≡ (
          if id == uuid
          then some (register uuid now channel_id ip agent m w).0
          else D.get id m.connections)
  unfolding register
  get-register uuid now channel_id ip agent m w id = D.get-insert id uuid _ m.connections

  pub register_fields :
      (uuid : Text) (now : ℕ) (channel_id : Text) (ip agent : Option Text) (m : ConnectionManager)
      (w : M.State)
      → let c = (register uuid now channel_id ip agent m w).0 in
        (c.id ≡ uuid) × (c.channel_id ≡ channel_id)
  unfolding register
  register_fields uuid now channel_id ip agent m w = (refl, refl)

  pub channel_ids-register :
      (uuid : Text) (now : ℕ) (channel_id : Text) (ip agent : Option Text) (m : ConnectionManager)
      (w : M.State) (c : Text)
      → channel_ids c (register uuid now channel_id ip agent m w).2
        ≡ (if c == channel_id then channel_ids c m ++ uuid ∷ [] else channel_ids c m)
  unfolding register channel_ids
  channel_ids-register uuid now channel_id ip agent m w c =
      ground (arith, D.get-entry_or c channel_id [] (λ ids. ids ++ uuid ∷ []) m.channel_index)

  -- If the index agrees with the table, it does so after the registration of a connection whose id
  -- is new to the table: an id is in a channel's list exactly if it is registered for that
  -- channel, and then once.
  pub register-IsIndexed :
      (uuid : Text) (now : ℕ) (channel_id : Text) (ip agent : Option Text) (m : ConnectionManager)
      (w : M.State)
      → IsIndexed m
      → D.get uuid m.connections ≡ none
      → IsIndexed (register uuid now channel_id ip agent m w).2
  register-IsIndexed uuid now channel_id ip agent m w h fresh = record {
    agrees = λ c id. ground (
      arith,
      channel_ids-register uuid now channel_id ip agent m w c,
      get-register uuid now channel_id ip agent m w id,
      register_fields uuid now channel_id ip agent m w,
      contains-append id (channel_ids c m) (uuid ∷ []),
      h.agrees c id,
    );
    distinct = λ c. ground (
      arith,
      channel_ids-register uuid now channel_id ip agent m w c,
      concat-Distinct uuid (channel_ids c m) (h.distinct c),
      h.agrees c uuid,
      h.distinct c,
    );
  }

  pub get-unregister :
      (id : Text) (m : ConnectionManager) (j : Text)
      → D.get j (unregister id m).connections ≡ (if j == id then none else D.get j m.connections)
  unfolding unregister
  get-unregister id m j = ground (arith, D.get-remove j id m.connections)

  pub channel_ids-unregister :
      (id : Text) (m : ConnectionManager) (c : Text)
      → channel_ids c (unregister id m) ≡ (
          if in_channel c (D.get id m.connections)
          then retain (λ j. not (j == id)) (channel_ids c m)
          else channel_ids c m)
  unfolding unregister channel_ids
  channel_ids-unregister id m c = elim (Option-cases (D.get id m.connections)) [
    | inl e ↦ rw (e, unregister)
    | inr (conn, e) ↦
        rw (e, unregister)
          (ground
            (arith, D.get-alter c conn.channel_id (retain (λ j. not (j == id))) m.channel_index))
  ]

  -- If the index agrees with the table, it does so after any id, registered or not, is
  -- unregistered.
  pub unregister-IsIndexed :
      (id : Text) (m : ConnectionManager) → IsIndexed m → IsIndexed (unregister id m)
  unregister-IsIndexed id m h = record {
    agrees = λ c j. ground (
      arith,
      channel_ids-unregister id m c,
      get-unregister id m j,
      contains-retain_ne j id (channel_ids c m),
      h.agrees c j,
      h.agrees c id,
    );
    distinct = λ c. ground (
      arith,
      channel_ids-unregister id m c,
      retain_ne-Distinct id (channel_ids c m) (h.distinct c),
      h.distinct c,
    );
  }
