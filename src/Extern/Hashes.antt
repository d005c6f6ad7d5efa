-- ===== src/Extern/Hashes.antt =====
-- A Redis server's hashes with expiry, as far as the instance registry uses them: documented behaviour
-- of HSET, EXPIRE, DEL and of commands on other keys. Times are seconds; a key that has expired reads
-- as a missing one.
use sse_gateway.Prelude.{
  ℕ, ◌+◌, ◌≤◌, ◌≡◌, Text, codes, Option, none, some, Bool, true, ◌&&◌, ltb, List, [], ◌∷◌, lookup,
  if◌then◌else◌,
}
use sse_gateway.Redis.Command.{Command, Arg, text, number}

-- names and values, as they stand in the arguments of HSET
abbrev pub pairs : List Arg → List (Text × Arg)
pairs (text name ∷ v ∷ args) = (name, v) ∷ pairs args
pairs _ = []

-- the value that is set, or else the one that was there
abbrev pub or_before : Option Arg → Option Arg → Option Arg
or_before none old = old
or_before (some v) old = some v

abbrev pub hset : Text → List Arg → Command
hset key args = record { name = codes "HSET"; args = text key ∷ args }

abbrev pub expire : Text → ℕ → Command
expire key ttl = record { name = codes "EXPIRE"; args = text key ∷ number ttl ∷ [] }

abbrev pub del : Text → Command
del key = record { name = codes "DEL"; args = text key ∷ [] }

-- SADD and SREM, which act on other keys
abbrev pub set_command : Text → Text → Text → Command
set_command name key member = record { name = name; args = text key ∷ text member ∷ [] }

pub record Hashes : Type 1 where
  pub Db : Type 0
  -- a command that runs at a time
  pub exec : ℕ → Command → Db → Db
  -- EXISTS and HGET at a time
  pub exists : ℕ → Text → Db → Bool
  pub field : ℕ → Text → Text → Db → Option Arg
  pub exists-hset :
      (now : ℕ) (k : Text) (args : List Arg) (db : Db)
      → exists now k (exec now (hset k args) db) ≡ true
  pub field-hset :
      (now : ℕ) (k f : Text) (args : List Arg) (db : Db)
      → field now k f (exec now (hset k args) db)
        ≡ or_before (lookup f (pairs args)) (field now k f db)
  -- EXPIRE has no effect on a missing key
  pub field-expire :
      (now t ttl : ℕ) (k f : Text) (db : Db)
      → now ≤ t
      → field t k f (exec now (expire k ttl) db)
        ≡ (if exists now k db && ltb t (now + ttl) then field now k f db else none)
  pub field-del :
      (now t : ℕ) (k f : Text) (db : Db) → now ≤ t → field t k f (exec now (del k) db) ≡ none
