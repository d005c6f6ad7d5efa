-- ===== src/System/Filled.antt =====
-- With the memory storage: what the background tasks make of it.
use sse_gateway.Prelude.{
  ℕ, ◌≡◌, refl, sym, subst, ap, ◌∙◌, Text, ◌==◌, Option, none, some, List, [], ◌∷◌, ◌++◌,
  Bool-cases, inl, inr, append-nil, is_empty, arith,
}
use sse_gateway.Extern.Json.{Json}
use sse_gateway.Extern.DashMap.{DashMap}
use sse_gateway.Extern.Mpsc.{Mpsc}
use sse_gateway.Extern.SseFrame.{SseFrame}
use sse_gateway.Std.Decimal.{ℤ}
use sse_gateway.Event.{SseEvent}
use sse_gateway.Storage.Trait.{StoreCall}
use sse_gateway.Storage.Memory.{MemoryStorage, Entry, new, store, memory_storage, generate_id}
use sse_gateway.Storage.Memory.Window.{
  log, store_all, stream, newest, newest-append, stream-store, max-store, stream_refines_log,
}
use sse_gateway.Handler.{World, Callbacks, run_task, deliver, deliver_all, route, send_message}
use sse_gateway.Session.{open_session, drop_stream}
use sse_gateway.Gateway.{dispatch, handle}
use sse_gateway.System.Safety.{initial}
use sse_gateway.System.{
  System, Step, entered, responded, left, aborted, sent, dispatched, stored, cleaned, Steps, here,
  next, run_stored, enter, leave, abort,
}
use sse_gateway.System.Tasks.{ran, all_ran}

module _ ⦃J : Json⦄ ⦃D : DashMap⦄ where
  log-append : (c : Text) (l r : List StoreCall) → log c (l ++ r) ≡ log c l ++ log c r
  log-append c [] r = refl
  log-append c (x ∷ l) r = ground (arith, log-append c l r)

  -- one more call
  stream_store_next :
      (c : Text) (t : StoreCall) (done : List StoreCall) (s : MemoryStorage) (max : ℕ)
      → s.max_per_channel ≡ max
      → stream c s ≡ newest max (log c done)
      → stream c (store t.channel_id t.stream_id t.event s) ≡ newest max (log c (done ++ t ∷ []))
  stream_store_next c t done s max m e =
      let entry : Entry = (t.stream_id, record t.event { stream_id = some t.stream_id }) in
      rw (stream-store t.channel_id t.stream_id t.event s c, log-append c done (t ∷ []))
        (elim (Bool-cases (c == t.channel_id)) [
          | inl p ↦ rw p (
              ap (λ n. newest n (stream c s ++ entry ∷ [])) m
              ∙ ap (λ l. newest max (l ++ entry ∷ [])) e
              ∙ newest-append max (log c done) (entry ∷ []))
          | inr p ↦ rw p (e ∙ ap (newest max) (sym (append-nil (log c done))))
        ])

  -- The storage is what the calls made of it.
  pub record IsFilled (max : ℕ) (done : List StoreCall) (s : MemoryStorage) : Type 0 where
    pub limit : s.max_per_channel ≡ max
    pub window : (c : Text) → stream c s ≡ newest max (log c done)

  IsFilled-more :
      {max : ℕ} {done : List StoreCall} {s : MemoryStorage}
      → IsFilled max done s
      → IsFilled max (done ++ []) s
  IsFilled-more {max} {done} {s} h = subst (λ l. IsFilled max l s) (sym (append-nil done)) h

  IsFilled-generate_id :
      {max : ℕ} {done : List StoreCall} {s : MemoryStorage} (ts : ℤ)
      → IsFilled max done s
      → IsFilled max done (generate_id ts s).1
  unfolding generate_id stream
  IsFilled-generate_id ts h = record { limit = h.limit; window = h.window }

  IsFilled-store :
      {max : ℕ} {done : List StoreCall} {s : MemoryStorage} (t : StoreCall)
      → IsFilled max done s
      → IsFilled max (done ++ t ∷ []) (store t.channel_id t.stream_id t.event s)
  IsFilled-store {max} {done} {s} t h = record {
    limit = max-store t.channel_id t.stream_id t.event s ∙ h.limit;
    window = λ c. stream_store_next c t done s max h.limit (h.window c);
  }

  new-IsFilled : (max : ℕ) → IsFilled max [] (new max)
  unfolding new store_all
  new-IsFilled max = record { limit = refl; window = λ c. stream_refines_log c [] max }

module _ ⦃J : Json⦄ ⦃D : DashMap⦄ ⦃M : Mpsc SseEvent⦄ {E : Type 0} where
  dispatch-IsFilled :
      {max : ℕ} {done : List StoreCall} (ts : ℤ) (o : Option Text) (e : SseEvent)
      (world : World memory_storage E)
      → IsFilled max done world.storage
      → IsFilled max done (dispatch ts o e world).1.storage
  unfolding dispatch deliver deliver_all
  dispatch-IsFilled ts none e world h = h
  dispatch-IsFilled ts (some c) e world h = IsFilled-generate_id ts h

  route-IsFilled :
      {max : ℕ} {done : List StoreCall} (ts : ℤ) (o : Option Text) (e : SseEvent)
      (world : World memory_storage E)
      → IsFilled max done world.storage
      → IsFilled max done (route ts o e world).1.storage
  unfolding route deliver deliver_all
  route-IsFilled ts none e world h = h
  route-IsFilled ts (some c) e world h = elim (Bool-cases (is_empty c)) [
    | inl p ↦ rw p h
    | inr p ↦ rw p (IsFilled-generate_id ts h)
  ]

module _ ⦃J : Json⦄ ⦃D : DashMap⦄ ⦃M : Mpsc SseEvent⦄ ⦃F : SseFrame⦄ {Response E : Type 0}
    {k : Callbacks Response E} where
  Step-IsFilled :
      {max : ℕ} {done : List StoreCall} {s t : System memory_storage E} (st : Step k s t)
      → IsFilled max done s.world.storage
      → IsFilled max (done ++ ran st) t.world.storage
  unfolding enter leave abort run_stored run_task handle send_message open_session drop_stream
  Step-IsFilled (entered uuid now r v fresh) h = IsFilled-more h
  Step-IsFilled (responded before x after e n) h = IsFilled-more h
  Step-IsFilled (left before x after replay e n) h = IsFilled-more h
  Step-IsFilled (aborted before x after e n) h = IsFilled-more h
  Step-IsFilled {s} (sent uuid ts req) h =
      IsFilled-more (route-IsFilled ts req.channel_id _ s.world h)
  Step-IsFilled {s} (dispatched uuid ts msg) h =
      IsFilled-more (dispatch-IsFilled ts msg.channel_id _ s.world h)
  Step-IsFilled (stored before t after e) h = IsFilled-store t h
  Step-IsFilled cleaned h = IsFilled-more h

  Steps-IsFilled :
      {max : ℕ} {s t : System memory_storage E} (r : Steps k s t)
      → IsFilled max [] s.world.storage
      → IsFilled max (all_ran r) t.world.storage
  Steps-IsFilled here h = h
  Steps-IsFilled {max} (next {t} {u} r st) h = Step-IsFilled st (Steps-IsFilled r h)

  -- With the memory storage, which begins empty, the stream of a channel is, after any steps, the
  -- newest `max` of the events that the background tasks stored for it, in the order in which they
  -- ran.
  pub stream_refines_run :
      (instance_id : Text) (wires : M.State) (max : ℕ) (env : E) {s : System memory_storage E}
      (r : Steps k (initial instance_id wires (new max) env) s) (c : Text)
      → stream c s.world.storage ≡ newest max (log c (all_ran r))
  stream_refines_run instance_id wires max env r c = (Steps-IsFilled r (new-IsFilled max)).window c
