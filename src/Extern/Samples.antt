-- ===== src/Extern/Samples.antt =====
-- Concrete values of the interfaces: they show that the laws can be met, and run the tests.
pub mod Listeners
pub mod Slots
use mathlib.Core.Option
use sse_gateway.Prelude.{
  ℕ, suc, ◌<◌, ◌≡◌, refl, ap, ◌≢◌, Text, ◌==◌, Option, none, some, Bool, true, false, not, ◌&&◌,
  ◌||◌, List, [], ◌∷◌, ◌++◌, contains, Distinct, keys, lookup, length, if◌then◌else◌, arith, eqb,
  Option-cases, inl, inr, Text,
}
use sse_gateway.Extern.Json.{Json}
use sse_gateway.Extern.DashMap.{DashMap}
use sse_gateway.Extern.Mpsc.{Mpsc}
use sse_gateway.Extern.SseFrame.{SseFrame, Fields}

-- A document is its text.
instance abbrev pub text_json : Json
text_json = record { Value = Text; to_string = some; display = λ t. t }

-- An association list that never holds a key twice. The invariant is part of the type.
module _ {V : Type 0} where
  unfoldable pub without : Text → List (Text × V) → List (Text × V)
  without k [] = []
  without k ((j, v) ∷ l) = let rest = without k l in if k == j then rest else (j, v) ∷ rest

  pub lookup-without :
      (j k : Text) (l : List (Text × V))
      → lookup j (without k l) ≡ (if j == k then none else lookup j l)
  unfolding without
  lookup-without j k [] = ground arith
  lookup-without j k ((i, v) ∷ l) = ground (arith, lookup-without j k l)

  contains-without :
      (j k : Text) (l : List (Text × V))
      → contains j (keys (without k l)) ≡ (if j == k then false else contains j (keys l))
  unfolding without
  contains-without j k [] = ground arith
  contains-without j k ((i, v) ∷ l) = ground (arith, contains-without j k l)

  pub without-Distinct :
      (k : Text) (l : List (Text × V)) → Distinct (keys l) → Distinct (keys (without k l))
  unfolding without
  without-Distinct k [] d = tt
  without-Distinct k ((i, v) ∷ l) d =
      ground (arith, without-Distinct k l d.1, contains-without i k l)

pub record Assoc (V : Type 0) : Type 0 where
  pub entries : List (Text × V)
  pub unique : Distinct (keys entries)

module _ {V : Type 0} where
  abbrev pub assoc_empty : Assoc V
  assoc_empty = record { entries = []; unique = tt }

  abbrev pub assoc_get : Text → Assoc V → Option V
  assoc_get k m = lookup k m.entries

  pub insert_unique :
      (k : Text) (v : V) (l : List (Text × V))
      → Distinct (keys l)
      → Distinct (keys ((k, v) ∷ without k l))
  insert_unique k v l d = ground (arith, without-Distinct k l d, contains-without k k l)

  abbrev pub assoc_insert : Text → V → Assoc V → Assoc V
  assoc_insert k v m = record {
    entries = (k, v) ∷ without k m.entries;
    unique = insert_unique k v m.entries m.unique;
  }

  abbrev pub assoc_remove : Text → Assoc V → Assoc V
  assoc_remove k m = record {
    entries = without k m.entries;
    unique = without-Distinct k m.entries m.unique;
  }

  abbrev pub assoc_alter : Text → (V → V) → Assoc V → Assoc V
  assoc_alter k f m = elim (assoc_get k m) [ none ↦ m | some v ↦ assoc_insert k (f v) m ]

  abbrev pub assoc_entry_or : Text → V → (V → V) → Assoc V → Assoc V
  assoc_entry_or k d f m = assoc_insert k (f (Option.get_or (assoc_get k m) d)) m

  pub get-assoc_insert :
      (j k : Text) (v : V) (m : Assoc V)
      → assoc_get j (assoc_insert k v m) ≡ (if j == k then some v else assoc_get j m)
  get-assoc_insert j k v m = ground (arith, lookup-without j k m.entries)

  same_key : (j k : Text) (m : Assoc V) → j ≡ k → assoc_get j m ≡ assoc_get k m
  same_key j k m p = ap (λ t. assoc_get t m) p

  pub get-assoc_alter :
      (j k : Text) (f : V → V) (m : Assoc V)
      → assoc_get j (assoc_alter k f m)
        ≡ (if j == k then Option.map f (assoc_get k m) else assoc_get j m)
  get-assoc_alter j k f m = elim (Option-cases (assoc_get k m)) [
    | inl e ↦ rw (e, assoc_alter) (ground (arith, same_key j k m))
    | inr (v, e) ↦ rw (e, assoc_alter) (get-assoc_insert j k (f v) m)
  ]

  pub get-assoc_entry_or :
      (j k : Text) (d : V) (f : V → V) (m : Assoc V)
      → assoc_get j (assoc_entry_or k d f m)
        ≡ (if j == k then some (f (Option.get_or (assoc_get k m) d)) else assoc_get j m)
  get-assoc_entry_or j k d f m = get-assoc_insert j k _ m

instance abbrev pub assoc_map : DashMap
assoc_map = record {
  Map = Assoc;
  empty = assoc_empty;
  get = assoc_get;
  insert = assoc_insert;
  remove = assoc_remove;
  alter = assoc_alter;
  entry_or = assoc_entry_or;
  len = λ m. length m.entries;
  iter = λ m. m.entries;
  get-empty = λ k. refl;
  get-insert = get-assoc_insert;
  get-remove = λ j k m. lookup-without j k m.entries;
  get-alter = get-assoc_alter;
  get-entry_or = get-assoc_entry_or;
  lookup-iter = λ k m. refl;
  iter-Distinct = λ m. m.unique;
  len-iter = λ m. refl;
}

-- Channels are numbered; a send to an open one always has room.
pub record Queues (A : Type 0) : Type 0 where
  pub next : ℕ
  pub closed : ℕ → Bool
  pub queue : ℕ → List A

module _ {A : Type 0} where
  abbrev pub queue_channel : ℕ → Queues A → ℕ × Queues A
  queue_channel n w = (
    w.next,
    record {
      next = suc w.next;
      closed = λ s. if eqb s w.next then false else w.closed s;
      queue = λ s. if eqb s w.next then [] else w.queue s;
    },
  )

  abbrev pub queue_send : ℕ → A → Queues A → Bool × Queues A
  queue_send s a w = (
    not (w.closed s),
    record w {
      queue = λ t. if eqb t s && not (w.closed s) then w.queue t ++ a ∷ [] else w.queue t;
    },
  )

  abbrev pub queue_close : ℕ → Queues A → Queues A
  queue_close s w = record w { closed = λ t. eqb t s || w.closed t }

  pub queue-send_self :
      (s : ℕ) (a : A) (w : Queues A)
      → (queue_send s a w).1.queue s ≡ (if w.closed s then w.queue s else w.queue s ++ a ∷ [])
  queue-send_self s a w = ground arith

  pub queue-send_ne :
      (s t : ℕ) (a : A) (w : Queues A) → s ≢ t → (queue_send t a w).1.queue s ≡ w.queue s
  queue-send_ne s t a w h = ground arith

  pub channel_is_open :
      (n : ℕ) (w : Queues A) → (queue_channel n w).1.closed (queue_channel n w).0 ≡ false
  channel_is_open n w = ground arith

  pub channel_is_empty :
      (n : ℕ) (w : Queues A) → (queue_channel n w).1.queue (queue_channel n w).0 ≡ []
  channel_is_empty n w = ground arith

  pub queue-channel :
      (n s : ℕ) (w : Queues A) → s < w.next → (queue_channel n w).1.queue s ≡ w.queue s
  queue-channel n s w h = ground arith

  pub closed-channel :
      (n s : ℕ) (w : Queues A) → s < w.next → (queue_channel n w).1.closed s ≡ w.closed s
  closed-channel n s w h = ground arith

  pub channel_made : (n : ℕ) (w : Queues A) → (queue_channel n w).0 < (queue_channel n w).1.next
  channel_made n w = omega arith

  pub channel_keeps : (n s : ℕ) (w : Queues A) → s < w.next → s < (queue_channel n w).1.next
  channel_keeps n s w h = omega arith

  pub channel_fresh : (n s : ℕ) (w : Queues A) → s < w.next → s ≢ (queue_channel n w).0
  channel_fresh n s w h = omega arith

  pub queue_is_closed : (s : ℕ) (w : Queues A) → (queue_close s w).closed s ≡ true
  queue_is_closed s w = ground arith

  pub closed-close_stays :
      (s t : ℕ) (w : Queues A) → w.closed s ≡ true → (queue_close t w).closed s ≡ true
  closed-close_stays s t w h = ground arith

  pub closed-close_ne : (s t : ℕ) (w : Queues A) → s ≢ t → (queue_close t w).closed s ≡ w.closed s
  closed-close_ne s t w h = ground arith

instance abbrev pub queues : {A : Type 0} → Mpsc A
queues {A} = record {
  State = Queues A;
  Sender = ℕ;
  IsMade = λ w s. s < w.next;
  channel = queue_channel;
  is_closed = λ s w. w.closed s;
  send = queue_send;
  close = queue_close;
  accepted = λ s w. w.queue s;
  send_result = λ s a w. refl;
  accepted-send_self = queue-send_self;
  accepted-send_ne = queue-send_ne;
  is_closed-send = λ s t a w. refl;
  send_keeps = λ s t a w h. h;
  channel_made = channel_made;
  channel_keeps = channel_keeps;
  channel_fresh = channel_fresh;
  channel_open = channel_is_open;
  channel_empty = channel_is_empty;
  accepted-channel = queue-channel;
  is_closed-channel = closed-channel;
  close_keeps = λ s t w h. h;
  is_closed-close_self = queue_is_closed;
  is_closed-close_ne = closed-close_ne;
  is_closed-close_stays = closed-close_stays;
  accepted-close = λ s t w. refl;
}

-- A frame is its fields.
instance abbrev pub fields_frame : SseFrame
fields_frame = record {
  Event = Fields;
  default = record { event = none; payload = none; id = none; retry = none };
  event = λ t e. record e { event = some t };
  payload = λ t e. record e { payload = some t };
  id = λ t e. record e { id = some t };
  retry = λ ms e. record e { retry = some ms };
  accepts_event = λ t. true;
  accepts_payload = λ t. true;
  accepts_id = λ t. true;
  view = λ e. e;
  view-default = refl;
  view-event = λ t e a n. refl;
  view-payload = λ t e a n. refl;
  view-id = λ t e a n. refl;
  view-retry = λ ms e n. refl;
}
