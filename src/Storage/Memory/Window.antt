-- ===== src/Storage/Memory/Window.antt =====
-- A channel's stream is the newest part of everything that was stored for it.
use mathlib.Core.Option
use sse_gateway.Prelude.{
  ℕ, zero, suc, ◌+◌, ◌-◌, ◌≤◌, ◌≡◌, refl, sym, ap, ◌∙◌, Text, ◌==◌, some, List, [], ◌∷◌, ◌++◌,
  length, length-append, drop, ==_refl, text_dec, append_assoc, append-nil, if◌then◌else◌, arith,
}
use native.Mathlib.Nat.{zero-add, suc-add}
use sse_gateway.Extern.Json.{Json}
use sse_gateway.Extern.DashMap.{DashMap}
use sse_gateway.Event.{SseEvent}
use sse_gateway.Storage.Trait.{StoreCall}
use sse_gateway.Storage.Memory.{MemoryStorage, Entry, new, store, trim_old}

module _ {ℓ} {A : Type ℓ} where
  -- the last `max` items
  unfoldable pub newest : ℕ → List A → List A
  newest max l = drop (length l - max) l

  drop_none : (l : List A) → drop 0 l ≡ l
  drop_none l = refl

  pub trim_old-newest : (max : ℕ) (l : List A) → trim_old max l ≡ newest max l
  unfolding trim_old newest
  trim_old-newest max l = ground (arith, drop_none l)

  length-drop : (n : ℕ) (l : List A) → length (drop n l) ≡ length l - n
  length-drop zero l = omega arith
  length-drop (suc n) [] = omega arith
  length-drop (suc n) (x ∷ l) = omega (arith, length-drop n l)

  pub length-newest-le : (max : ℕ) (l : List A) → length (newest max l) ≤ max
  unfolding newest
  length-newest-le max l = omega (arith, length-drop (length l - max) l)

  pub drop-append : (n : ℕ) (l r : List A) → n ≤ length l → drop n (l ++ r) ≡ drop n l ++ r
  drop-append zero l r h = refl
  drop-append (suc n) [] r h = absurd (omega arith)
  drop-append (suc n) (x ∷ l) r h = drop-append n l r (omega arith)

  drop-nil : (n : ℕ) → drop {A = A} n [] ≡ []
  drop-nil zero = refl
  drop-nil (suc n) = refl

  drop-drop : (m n : ℕ) (l : List A) → drop m (drop n l) ≡ drop (n + m) l
  drop-drop m zero l = rw zero-add
  drop-drop m (suc n) [] = drop-nil m ∙ sym (drop-nil (suc n + m))
  drop-drop m (suc n) (x ∷ l) = rw suc-add (drop-drop m n l)

  -- Forgetting the old items early changes nothing.
  pub newest-append :
      (max : ℕ) (l r : List A) → newest max (newest max l ++ r) ≡ newest max (l ++ r)
  unfolding newest
  newest-append max l r =
      let k = length l - max in
      let a = length (drop k l ++ r) - max in
      let total : length (l ++ r) - max ≡ k + a =
        omega (arith, length-append l r, length-append (drop k l) r, length-drop k l) in
      rw total (ap (drop a) (sym (drop-append k l r (omega arith))) ∙ drop-drop a k (l ++ r))

  pub newest_fits : (max : ℕ) (l : List A) → length l ≤ max → newest max l ≡ l
  unfolding newest
  newest_fits max l h = let z : length l - max ≡ 0 = omega arith in rw z

module _ ⦃J : Json⦄ where
  -- what was stored for a channel, oldest first
  abbrev pub log : Text → List StoreCall → List Entry
  log c [] = []
  log c (x ∷ h) =
      let rest = log c h in
      if c == x.channel_id
      then (x.stream_id, record x.event { stream_id = some x.stream_id }) ∷ rest
      else rest

module _ ⦃J : Json⦄ ⦃D : DashMap⦄ where
  unfoldable pub store_all : List StoreCall → MemoryStorage → MemoryStorage
  store_all [] s = s
  store_all (x ∷ h) s = store_all h (store x.channel_id x.stream_id x.event s)

  unfoldable pub stream : Text → MemoryStorage → List Entry
  stream c s = Option.get_or (D.get c s.streams) []

  module _ (channel_id stream_id : Text) (event : SseEvent) (s : MemoryStorage) where
    -- `store` appends to one channel's stream and keeps its newest `max_per_channel` entries.
    pub stream-store :
        (c : Text)
        → stream c (store channel_id stream_id event s) ≡ (
            if c == channel_id
            then newest s.max_per_channel
                (stream c s ++ (stream_id, record event { stream_id = some stream_id }) ∷ [])
            else stream c s)
    unfolding stream store
    stream-store c =
        let entry : Entry = (stream_id, record event { stream_id = some stream_id }) in
        let pushed = D.entry_or channel_id [] (λ v. v ++ entry ∷ []) s.streams in
        ground (
          arith,
          D.get-alter c channel_id (trim_old s.max_per_channel) pushed,
          D.get-entry_or c channel_id [] (λ v. v ++ entry ∷ []) s.streams,
          D.get-entry_or channel_id channel_id [] (λ v. v ++ entry ∷ []) s.streams,
          trim_old-newest s.max_per_channel
              (Option.get_or (D.get channel_id s.streams) [] ++ entry ∷ []),
          ==_refl channel_id,
        )

    pub max-store : (store channel_id stream_id event s).max_per_channel ≡ s.max_per_channel
    unfolding store
    max-store = refl

  store_fits :
      (c : Text) (x : StoreCall) (s : MemoryStorage)
      → length (stream c s) ≤ s.max_per_channel
      → let s' = store x.channel_id x.stream_id x.event s in
        length (stream c s') ≤ s'.max_per_channel
  store_fits c x s fits =
      let added =
        stream c s ++ (x.stream_id, record x.event { stream_id = some x.stream_id }) ∷ [] in
      rw (stream-store, max-store) (ground (arith, length-newest-le s.max_per_channel added))

  stream-store_all :
      (c : Text) (h : List StoreCall) (s : MemoryStorage)
      → length (stream c s) ≤ s.max_per_channel
      → stream c (store_all h s) ≡ newest s.max_per_channel (stream c s ++ log c h)
  unfolding store_all
  stream-store_all c [] s fits = rw append-nil (sym (newest_fits _ _ fits))
  stream-store_all c (x ∷ h) s fits =
      let s' = store x.channel_id x.stream_id x.event s in
      let entry : Entry = (x.stream_id, record x.event { stream_id = some x.stream_id }) in
      let max = s.max_per_channel in
      let later : stream c (store_all h s') ≡ newest s'.max_per_channel (stream c s' ++ log c h) =
        stream-store_all c h s' (store_fits c x s fits) in
      rw
        (
          later,
          stream-store x.channel_id x.stream_id x.event s c,
          max-store x.channel_id x.stream_id x.event s,
        )
        (elim (text_dec c x.channel_id) [
          | yes p ↦ ground (
            arith,
            newest-append max (stream c s ++ entry ∷ []) (log c h),
            append_assoc (stream c s) (entry ∷ []) (log c h),
          )
          | no p ↦ ground arith
        ])

  -- From an empty storage and after any list of stores, a channel's stream is the newest `max` of
  -- all that was stored for it.
  pub stream_refines_log :
      (c : Text) (h : List StoreCall) (max : ℕ)
      → stream c (store_all h (new max)) ≡ newest max (log c h)
  stream_refines_log c h max =
      let empty_stream : stream c (new max) ≡ [] =
        unfold stream new in ground (arith, D.get-empty {V = List Entry} c) in
      let fits : length (stream c (new max)) ≤ max = rw empty_stream (omega arith) in
      let run : stream c (store_all h (new max)) ≡ newest max (stream c (new max) ++ log c h) =
        unfold new in stream-store_all c h (new max) fits in
      run ∙ ap (λ l. newest max (l ++ log c h)) empty_stream
