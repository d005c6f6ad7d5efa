-- ===== src/Redis/Storage/Entries.antt =====
-- `parse_stream_entries` and `get_messages_after`: events read back from a stream. The server's
-- answer is an argument; what XADD keeps of a command is the record `Keeps`.
use sse_gateway.Prelude.{
  text_dec, ℕ, ◌≡◌, ◌≤◌, refl, ap, ◌∙◌, Text, codes, Option, none, some, true, List, [], ◌∷◌,
  lookup, drop, map, if◌then◌else◌,
}
use sse_gateway.Extern.Json.{Json}
use sse_gateway.Std.Decimal.{pos, parse-show, max_u64}
use sse_gateway.Std.Utf8.{is_utf8, from_utf8}
use sse_gateway.Event.{SseEvent, raw}
use sse_gateway.Redis.Command.{Command, Arg, text, Value, bulk_string, simple_string, other}
use sse_gateway.Redis.Storage.{
  RedisStorage, StoreRequest, is_valid_stream_id, range_query, both_numeric,
}
use sse_gateway.Redis.Storage.Flush.{xadd, id_args}
use sse_gateway.Storage.Memory.{stream_id_text}
use sse_gateway.Storage.Memory.Ids.{split-stream_id}

-- `redis::streams::StreamId`; the hash map of an entry is read only by key.
pub record StreamId : Type 0 where
  pub id : Text
  pub map : Text → Option Value

-- the closure that the three fields share
unfoldable pub text_of : Option Value → Option Text
text_of none = none
text_of (some (bulk_string bytes)) = from_utf8 bytes
text_of (some (simple_string s)) = some s
text_of (some other) = none

module _ ⦃J : Json⦄ where
  entry_event : Text → Option Text → Option Text → Option Text → Option SseEvent
  entry_event stream_id none _ id = none
  entry_event stream_id (some event_type) none id = none
  entry_event stream_id (some event_type) (some payload) id = some (record {
    event_type = event_type;
    payload = raw payload;
    id = id;
    stream_id = some stream_id;
    retry = none;
  })

  -- the closure of `filter_map`
  unfoldable pub parse_entry : StreamId → Option SseEvent
  unfolding entry_event text_of
  parse_entry entry =
      entry_event entry.id (text_of (entry.map (codes "event_type")))
        (text_of (entry.map (codes "data"))) (text_of (entry.map (codes "id")))

  keep : Option SseEvent → List SseEvent → List SseEvent
  keep none events = events
  keep (some event) events = event ∷ events

  pub parse_stream_entries : List StreamId → List SseEvent
  unfolding parse_entry keep
  parse_stream_entries [] = []
  parse_stream_entries (entry ∷ entries) = keep (parse_entry entry) (parse_stream_entries entries)

  answered : Option (List StreamId) → List SseEvent
  unfolding parse_stream_entries
  answered none = []
  answered (some ids) = parse_stream_entries ids

  module _ {Connection : Type 0} where
    -- `server` answers a query on a connection; `none` is an error.
    unfoldable pub get_messages_after :
        (Connection → Command → Option (List StreamId))
        → Text
        → Option Text
        → RedisStorage Connection
        → List SseEvent
    unfolding answered
    get_messages_after server channel_id none s = []
    get_messages_after server channel_id (some after_id) s =
        if is_valid_stream_id after_id
        then elim s.redis [
          | none ↦ []
          | some conn ↦ answered (server conn (range_query channel_id after_id s.max_per_channel))
        ]
        else []

-- The names and values that stand after the id in the arguments of XADD.
abbrev pub field_pairs : List Arg → List (Text × Text)
field_pairs (text name ∷ text v ∷ args) = (name, v) ∷ field_pairs args
field_pairs _ = []

abbrev pub bulk : Option Text → Option Value
bulk none = none
bulk (some bytes) = some (bulk_string bytes)

-- Documented behaviour of XADD: the entry has the id and the fields of the command.
pub record Keeps (max_per_channel : ℕ) (req : StoreRequest) (entry : StreamId) : Type 0 where
  pub id : entry.id ≡ req.stream_id
  pub fields :
      (name : Text)
      → entry.map name ≡ bulk (lookup name (field_pairs (drop 5 (xadd max_per_channel req).args)))

-- A Rust `String` is UTF-8.
pub record IsText (req : StoreRequest) : Type 0 where
  pub event_type : is_utf8 req.event_type ≡ true
  pub payload : is_utf8 req.payload ≡ true
  pub id : (id : Text) → req.id ≡ some id → is_utf8 id ≡ true

text_of-bulk : (s : Text) → is_utf8 s ≡ true → text_of (some (bulk_string s)) ≡ some s
unfolding text_of from_utf8
text_of-bulk s h = ap (λ b. if b then some s else none) h

id_kept :
    (id : Option Text)
    → ((i : Text) → id ≡ some i → is_utf8 i ≡ true)
    → text_of (bulk (lookup (codes "id") (field_pairs (id_args id)))) ≡ id
unfolding id_args text_of text_dec from_utf8
id_kept none h = refl
id_kept (some i) h = text_of-bulk i (h i refl)

module _ ⦃J : Json⦄ where
  -- the event that a replay makes of a request
  abbrev pub stored_event : StoreRequest → SseEvent
  stored_event req = record {
    event_type = req.event_type;
    payload = raw req.payload;
    id = req.id;
    stream_id = some req.stream_id;
    retry = none;
  }

  parse_entry-xadd :
      (max : ℕ) (req : StoreRequest) (entry : StreamId)
      → IsText req
      → Keeps max req entry
      → parse_entry entry ≡ some (stored_event req)
  unfolding parse_entry xadd text_dec entry_event
  parse_entry-xadd max req entry t k =
      let event_type =
        ap text_of (k.fields (codes "event_type")) ∙ text_of-bulk req.event_type t.event_type in
      let payload = ap text_of (k.fields (codes "data")) ∙ text_of-bulk req.payload t.payload in
      let id = ap text_of (k.fields (codes "id")) ∙ id_kept req.id t.id in
      rw (k.id, event_type, payload, id)

-- A generated id of a time after the epoch can be asked for.
pub is_valid_stream_id-generate :
    (ts seq : ℕ)
    → ts ≤ max_u64
    → seq ≤ max_u64
    → is_valid_stream_id (stream_id_text (pos ts) seq) ≡ true
unfolding is_valid_stream_id both_numeric
is_valid_stream_id-generate ts seq h k =
    rw (split-stream_id ts seq) (rw (parse-show ts h) (rw (parse-show seq k)))

-- A list of entries that XADD keeps of a list of requests.
abbrev pub AllKeep : ℕ → List StoreRequest → List StreamId → Type 0
AllKeep max [] [] = Unit
AllKeep max (req ∷ reqs) (entry ∷ entries) =
    IsText req × Keeps max req entry × AllKeep max reqs entries
AllKeep max _ _ = ⊥

module _ ⦃J : Json⦄ where
  parse-xadd :
      (max : ℕ) (reqs : List StoreRequest) (entries : List StreamId)
      → AllKeep max reqs entries
      → parse_stream_entries entries ≡ map stored_event reqs
  unfolding parse_stream_entries keep
  parse-xadd max [] [] h = refl
  parse-xadd max [] (entry ∷ entries) h = elim h [ ]
  parse-xadd max (req ∷ reqs) [] h = elim h [ ]
  parse-xadd max (req ∷ reqs) (entry ∷ entries) (t, k, h) =
      rw (parse_entry-xadd max req entry t k)
        (ap (λ l. stored_event req ∷ l) (parse-xadd max reqs entries h))

  module _ {Connection : Type 0} where
    -- Let the storage be connected, `ts` and `seq` fit 64 bits, and the server answer the range
    -- query with entries that XADD keeps of requests whose texts are UTF-8. Then a client that
    -- returns with the id generated of `ts` and `seq` gets the events that were stored: type, data
    -- and id as given, and the stream id of the store.
    pub redis_replay :
        (server : Connection → Command → Option (List StreamId)) (conn : Connection)
        (s : RedisStorage Connection) (channel_id : Text) (ts seq : ℕ) (reqs : List StoreRequest)
        (entries : List StreamId)
        → s.redis ≡ some conn
        → ts ≤ max_u64
        → seq ≤ max_u64
        → server conn (range_query channel_id (stream_id_text (pos ts) seq) s.max_per_channel)
          ≡ some entries
        → AllKeep s.max_per_channel reqs entries
        → get_messages_after server channel_id (some (stream_id_text (pos ts) seq)) s
          ≡ map stored_event reqs
    unfolding get_messages_after answered
    redis_replay server conn s channel_id ts seq reqs entries c ht hs answer h =
        let query = range_query channel_id (stream_id_text (pos ts) seq) s.max_per_channel in
        rw (is_valid_stream_id-generate ts seq ht hs) (
          ap (λ r. elim r [ none ↦ [] | some c ↦ answered (server c query) ]) c
          ∙ ap answered answer
          ∙ parse-xadd s.max_per_channel reqs entries h)
