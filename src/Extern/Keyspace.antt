-- ===== src/Extern/Keyspace.antt =====
-- A Redis server, as far as the channel registry uses it: texts under keys. A key that is set with an
-- expiry is there until the server removes it, which the model writes as `del`.
use sse_gateway.Prelude.{ℕ, ◌≡◌, Text, Option, none, some, ◌==◌, ltb, if◌then◌else◌}

pub record Keyspace : Type 1 where
  pub Db : Type 0
  pub empty : Db
  -- GET; the crate turns a missing key into an error, and `.ok()` that into `none`
  pub get : Text → Db → Option Text
  -- SET key value EX ttl, which the server refuses for 0
  pub set : Text → Text → ℕ → Db → Db
  -- DEL
  pub del : Text → Db → Db
  pub get-empty : (k : Text) → get k empty ≡ none
  pub get-set :
      (j k v : Text) (ttl : ℕ) (db : Db)
      → get j (set k v ttl db)
        ≡ (if ltb 0 ttl then if j == k then some v else get j db else get j db)
  pub get-del : (j k : Text) (db : Db) → get j (del k db) ≡ (if j == k then none else get j db)
