-- ===== src/Session/Stream/Read.antt =====
-- The heartbeats do not disturb what a client reads.
use sse_gateway.Prelude.{
  ℕ, zero, suc, ◌≡◌, refl, ap, ◌∙◌, Text, codes, ◌==◌, ==_refl, Option, none, some, Bool, true,
  false, not, List, [], ◌∷◌, ◌++◌, map, retain, All,
}
use sse_gateway.Extern.Json.{Json}
use sse_gateway.Extern.DashMap.{DashMap}
use sse_gateway.Extern.Mpsc.{Mpsc}
use sse_gateway.Extern.SseFrame.{SseFrame, Fields}
use sse_gateway.Std.Decimal.{ℤ}
use sse_gateway.Event
use sse_gateway.Event.{SseEvent}
use sse_gateway.Storage.Trait.{MessageStorage}
use sse_gateway.Source.{ConnectionInfo}
use sse_gateway.Handler.{World, sse_event_to_axum}
use sse_gateway.Handler.Frame.{view-sse_event_to_axum, IdAccepted, wire_id}
use sse_gateway.Session.{ConnectRequest, start_stream}
use sse_gateway.Session.Stream.{oks, select, heartbeat, read}

-- how often a side was asked
abbrev pub asked : Bool → List Bool → ℕ
asked side [] = 0
asked true (true ∷ turns) = suc (asked true turns)
asked true (false ∷ turns) = asked true turns
asked false (true ∷ turns) = asked false turns
asked false (false ∷ turns) = suc (asked false turns)

abbrev pub take {ℓ} : {A : Type ℓ} → ℕ → List A → List A
take zero l = []
take (suc n) [] = []
take (suc n) (x ∷ l) = x ∷ take n l

module _ {ℓ} {A : Type ℓ} (p : A → Bool) where
  take_nil : (n : ℕ) → take {A = A} n [] ≡ []
  take_nil zero = refl
  take_nil (suc n) = refl

  -- Of two sides that a test tells apart, the test picks the one.
  retain-select :
      (turns : List Bool) (a b : List A)
      → All (λ x. p x ≡ true) a
      → All (λ x. p x ≡ false) b
      → retain p (select turns a b) ≡ take (asked true turns) a
  unfolding select
  retain-select [] a b h k = refl
  retain-select (true ∷ turns) [] b h k = retain-select turns [] b h k ∙ take_nil (asked true turns)
  retain-select (true ∷ turns) (x ∷ a) b h k =
      rw h.0 (ap (λ l. x ∷ l) (retain-select turns a b h.1 k))
  retain-select (false ∷ turns) a [] h k = retain-select turns a [] h k
  retain-select (false ∷ turns) a (y ∷ b) h k = rw k.0 (retain-select turns a b h k.1)

  retain-All : (l r : List A) → All (λ x. p x ≡ true) l → retain p (l ++ r) ≡ l ++ retain p r
  retain-All [] r h = refl
  retain-All (x ∷ l) r h = rw h.0 (ap (λ k. x ∷ k) (retain-All l r h.1))

All-of_map {ℓ κ μ} :
    {A : Type ℓ} {B : Type κ} (P : B → Type μ) (f : A → B) (l : List A)
    → All (λ a. P (f a)) l
    → All P (map f l)
All-of_map P f [] h = tt
All-of_map P f (x ∷ l) h = (h.0, All-of_map P f l h.1)

module _ ⦃J : Json⦄ ⦃F : SseFrame⦄ where
  -- a frame that is no heartbeat, by its type
  abbrev of_type : Option Text → Bool
  of_type none = true
  of_type (some t) = not (t == codes "heartbeat")

  abbrev pub is_event : F.Event → Bool
  is_event frame = of_type (F.view frame).event

  -- axum accepts the texts of the event, and its type is not that of a heartbeat
  abbrev pub IsOrdinary : SseEvent → Type 0
  IsOrdinary e =
      (F.accepts_event e.event_type ≡ true)
      × (F.accepts_payload (Event.to_string e.payload) ≡ true)
      × IdAccepted (wire_id e.stream_id e.id)
      × ((e.event_type == codes "heartbeat") ≡ false)

  ordinary_is_event : (e : SseEvent) → IsOrdinary e → is_event (sse_event_to_axum e) ≡ true
  ordinary_is_event e (a, b, c, d) =
      ap (λ v. of_type v.event) (view-sse_event_to_axum e a b c) ∙ ap not d

  All-is_event :
      (l : List SseEvent)
      → All IsOrdinary l
      → All (λ f. is_event f ≡ true) (map sse_event_to_axum l)
  All-is_event [] h = tt
  All-is_event (e ∷ l) h = (ordinary_is_event e h.0, All-is_event l h.1)

  module _ (ts_text : ℤ → Text) (named : F.accepts_event (codes "heartbeat") ≡ true)
      (printed : (ts : ℤ) → F.accepts_payload (ts_text ts) ≡ true) where
    heartbeat_is_none : (ts : ℤ) → is_event (heartbeat ts_text ts) ≡ false
    unfolding heartbeat
    heartbeat_is_none ts =
        let e = F.event (codes "heartbeat") F.default in
        let named_view =
          F.view-event (codes "heartbeat") F.default named
            (ap (λ (v : Fields). v.event) F.view-default) in
        let no_data : (F.view e).payload ≡ none =
          ap (λ (v : Fields). v.payload) named_view
          ∙ ap (λ (v : Fields). v.payload) F.view-default in
        ap (λ (v : Fields). of_type v.event) (F.view-payload (ts_text ts) e (printed ts) no_data)
        ∙ ap (λ (v : Fields). of_type v.event) named_view
        ∙ ap not (==_refl (codes "heartbeat"))

    All-heartbeat : (l : List ℤ) → All (λ f. is_event f ≡ false) (map (heartbeat ts_text) l)
    All-heartbeat [] = tt
    All-heartbeat (ts ∷ l) = (heartbeat_is_none ts, All-heartbeat l)

    module _ ⦃D : DashMap⦄ ⦃M : Mpsc SseEvent⦄ {S : MessageStorage} {E : Type 0} where
      -- Let axum accept the texts of heartbeats, and let the replayed events and those that the
      -- channel accepted have texts that it accepts and no type `heartbeat`. Whatever turns the
      -- stream takes between events and heartbeats, and whichever heartbeats were lost: what it
      -- gives without the heartbeats is the replay, and behind it the channel's events in order,
      -- as many as turns were the events' or all of them.
      pub events_among_heartbeats :
          (turns : List Bool) (beats : List (Option ℤ)) (r : ConnectRequest) (info : ConnectionInfo)
          (receiver : M.Sender) (world : World S E) (wires : M.State)
          → All IsOrdinary
              (S.get_messages_after r.channel_id (r.headers (codes "last-event-id")) world.storage)
          → All IsOrdinary (M.accepted receiver wires)
          → (let stream = start_stream r info receiver world in
              retain is_event (read ts_text turns beats stream wires)
              ≡ stream.replay
                ++ take (asked true turns) (map sse_event_to_axum (M.accepted receiver wires)))
      unfolding read start_stream
      events_among_heartbeats turns beats r info receiver world wires h k =
          retain-All is_event _ _ (All-is_event _ h)
          ∙ ap
              (λ l.
                map sse_event_to_axum (
                  S.get_messages_after r.channel_id (r.headers (codes "last-event-id"))
                    world.storage)
                ++ l)
              (retain-select is_event turns _ _ (All-is_event _ k) (All-heartbeat (oks beats)))
