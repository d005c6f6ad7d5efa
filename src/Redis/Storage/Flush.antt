-- ===== src/Redis/Storage/Flush.antt =====
-- `flush_batch`: the pipeline that a batch becomes. A Rust `HashSet` is iterated in no fixed order,
-- so the order is the argument `shuffle`.
use sse_gateway.Prelude.{
  retain, text_dec, ◌∙◌, append-nil, refl, true, false, ℕ, ◌≡◌, ap, Text, codes, ◌==◌, Option, none,
  some, Bool, false, ◌||◌, List, [], ◌∷◌, ◌++◌, map, contains, Distinct, if◌then◌else◌, arith,
  contains-append, concat-Distinct, Bool-cases, inl, inr,
}
use sse_gateway.Redis.Command.{Command, Arg, text, number}
use sse_gateway.Redis.Storage.{StoreRequest, stream_key}

unfoldable pub id_args : Option Text → List Arg
id_args none = []
id_args (some id) = text (codes "id") ∷ text id ∷ []

-- the XADD command of a request
unfoldable pub xadd : ℕ → StoreRequest → Command
unfolding id_args
xadd max_per_channel req = record {
  name = codes "XADD";
  args =
      text (stream_key req.channel_id)
      ∷ text (codes "MAXLEN")
      ∷ text (codes "~")
      ∷ number max_per_channel
      ∷ text req.stream_id
      ∷ text (codes "event_type")
      ∷ text req.event_type
      ∷ text (codes "data")
      ∷ text req.payload
      ∷ id_args req.id;
}

unfoldable pub expire : ℕ → Text → Command
expire ttl_seconds key = record { name = codes "EXPIRE"; args = text key ∷ number ttl_seconds ∷ [] }

-- `HashSet::insert` for the key of each request
pub keys_to_expire : List StoreRequest → List Text → List Text
keys_to_expire [] keys = keys
keys_to_expire (req ∷ batch) keys =
    let key = stream_key req.channel_id in
    keys_to_expire batch (if contains key keys then keys else keys ++ key ∷ [])

-- The pipeline that is executed, if one is, and the batch that is left. The server's answer, an
-- error and a timeout are only logged.
unfoldable pub flush_batch :
    (List Text → List Text)
    → Bool
    → ℕ
    → ℕ
    → List StoreRequest
    → Option (List Command) × List StoreRequest
unfolding keys_to_expire
flush_batch shuffle connected max_per_channel ttl_seconds [] = (none, [])
flush_batch shuffle connected max_per_channel ttl_seconds (req ∷ reqs) =
    let batch = req ∷ reqs in
    if connected
    then (
      some (
          map (xadd max_per_channel) batch
          ++ map (expire ttl_seconds) (shuffle (keys_to_expire batch []))),
      [],
    )
    else (none, [])

-- the key is that of a request of the batch
abbrev pub touches : Text → List StoreRequest → Bool
touches key [] = false
touches key (req ∷ batch) = key == stream_key req.channel_id || touches key batch

same_contains : (a b : Text) (xs : List Text) → a ≡ b → contains a xs ≡ contains b xs
same_contains a b xs e = ap (λ x. contains x xs) e

keys_lem :
    (key : Text) (batch : List StoreRequest) (keys : List Text)
    → Distinct keys
    → Distinct (keys_to_expire batch keys)
      × (contains key (keys_to_expire batch keys) ≡ (contains key keys || touches key batch))
unfolding keys_to_expire
keys_lem key [] keys d = (d, ground arith)
keys_lem key (req ∷ batch) keys d =
    let k = stream_key req.channel_id in
    elim (Bool-cases (contains k keys)) [
      | inl there ↦ rw there (ground (arith, keys_lem key batch keys d, same_contains key k keys))
      | inr new ↦ rw new (
          ground (
            arith,
            keys_lem key batch (keys ++ k ∷ []) (concat-Distinct k keys d new),
            contains-append key keys (k ∷ []),
          ))
    ]

-- The keys that a flush refreshes are distinct, and they are the stream keys of the requests of
-- the batch and no others.
keys_to_expire_lem :
    (batch : List StoreRequest)
    → Distinct (keys_to_expire batch [])
      × ((key : Text) → contains key (keys_to_expire batch []) ≡ touches key batch)
keys_to_expire_lem batch = ((keys_lem [] batch [] tt).0, λ key. (keys_lem key batch [] tt).1)

-- No branch leaves a request in the batch.
pub left_by_flush_batch :
    (shuffle : List Text → List Text) (connected : Bool) (max_per_channel ttl_seconds : ℕ)
    (batch : List StoreRequest)
    → (flush_batch shuffle connected max_per_channel ttl_seconds batch).1 ≡ []
unfolding flush_batch
left_by_flush_batch shuffle connected max ttl [] = refl
left_by_flush_batch shuffle true max ttl (req ∷ reqs) = refl
left_by_flush_batch shuffle false max ttl (req ∷ reqs) = refl

-- the XADD commands of some commands
abbrev pub xadds : List Command → List Command
xadds l = retain (λ (c : Command). c.name == codes "XADD") l

pub xadds-append : (l r : List Command) → xadds (l ++ r) ≡ xadds l ++ xadds r
xadds-append [] r = refl
xadds-append (c ∷ l) r = ground (arith, xadds-append l r)

xadds_kept :
    (max : ℕ) (batch : List StoreRequest) → xadds (map (xadd max) batch) ≡ map (xadd max) batch
unfolding xadd text_dec
xadds_kept max [] = refl
xadds_kept max (req ∷ batch) = ap (λ l. xadd max req ∷ l) (xadds_kept max batch)

no_xadds : (ttl : ℕ) (keys : List Text) → xadds (map (expire ttl) keys) ≡ []
unfolding expire text_dec
no_xadds ttl [] = refl
no_xadds ttl (key ∷ keys) = no_xadds ttl keys

-- A pipeline has an XADD for each request of the batch, in order, and no other.
pub xadds-pipeline :
    (max ttl : ℕ) (batch : List StoreRequest) (keys : List Text)
    → xadds (map (xadd max) batch ++ map (expire ttl) keys) ≡ map (xadd max) batch
xadds-pipeline max ttl batch keys =
    xadds-append (map (xadd max) batch) (map (expire ttl) keys)
    ∙ ap (λ l. l ++ xadds (map (expire ttl) keys)) (xadds_kept max batch)
    ∙ ap (λ l. map (xadd max) batch ++ l) (no_xadds ttl keys)
    ∙ append-nil _
