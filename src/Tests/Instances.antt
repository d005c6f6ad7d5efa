-- ===== src/Tests/Instances.antt =====
-- An instance at a server whose hashes expire: it ticks, and it is late.
use sse_gateway.Prelude.{
  ℕ, ◌+◌, ◌≡◌, ◌==◌, ==_refl, refl, Text, codes, text_dec, Option, none, some, is_some,
  Option-cases, inl, inr, Bool, true, ◌&&◌, ltb, List, [], ◌∷◌, ◌++◌, arith, lookup, if◌then◌else◌,
}
use sse_gateway.Redis.Command.{Command, Arg, text, number}
use sse_gateway.Extern.Hashes.{Hashes, pairs, hset, expire, del, or_before}
use sse_gateway.Server.Instances.{ServiceRegistry, instance_key, tick, register_and_start_heartbeat}
use sse_gateway.Server.Instances.Alive.{run_all, address, stays_announced}
use sse_gateway.Server.Instances.Expiry.{address_lost}

-- a hash: when it expires, and its fields
abbrev Entry : Type 0
Entry = Option ℕ × List (Text × Arg)

abbrev Db : Type 0
Db = Text → Option Entry

unfoldable alive : ℕ → Option Entry → Option Entry
alive now none = none
alive now (some (none, l)) = some (none, l)
alive now (some (some d, l)) = if ltb now d then some (some d, l) else none

unfoldable put_fields : List (Text × Arg) → Option Entry → Option Entry
put_fields l none = some (none, l)
put_fields l (some (d, old)) = some (d, l ++ old)

unfoldable set_deadline : ℕ → Option Entry → Option Entry
set_deadline d none = none
set_deadline d (some (_, l)) = some (some d, l)

unfoldable read : Text → Option Entry → Option Arg
read f none = none
read f (some (_, l)) = lookup f l

-- a command on a key that may be there, after the key's name
-- the number that stands first
unfoldable seconds : List Arg → ℕ
seconds (number n ∷ args) = n
seconds _ = 0

unfoldable change : Text → ℕ → List Arg → Option Entry → Option Entry
change name now args e =
    if name == codes "HSET"
    then put_fields (pairs args) e
    else if name == codes "EXPIRE"
    then set_deadline (now + seconds args) e
    else if name == codes "DEL"
    then none
    else e

-- the rest of the arguments, behind a key that they begin with
unfoldable behind : Text → List Arg → Option (List Arg)
behind j (text key ∷ args) = if j == key then some args else none
behind j _ = none

unfoldable exec : ℕ → Command → Db → Db
exec now c db j = elim (behind j c.args) [
  | none ↦ db j
  | some args ↦ change c.name now args (alive now (db j))
]

lookup-append :
    (f : Text) (l old : List (Text × Arg))
    → lookup f (l ++ old) ≡ or_before (lookup f l) (lookup f old)
lookup-append f [] old = refl
lookup-append f ((g, v) ∷ l) old = ground (arith, lookup-append f l old)

alive-put_fields :
    (now : ℕ) (l : List (Text × Arg)) (o : Option Entry)
    → alive now (put_fields l (alive now o)) ≡ put_fields l (alive now o)
unfolding alive put_fields
alive-put_fields now l none = refl
alive-put_fields now l (some (none, old)) = refl
alive-put_fields now l (some (some d, old)) = ground arith

read-put_fields :
    (f : Text) (l : List (Text × Arg)) (o : Option Entry)
    → read f (put_fields l o) ≡ or_before (lookup f l) (read f o)
unfolding read put_fields
read-put_fields f l none = elim (Option-cases (lookup f l)) [ inl p ↦ rw p | inr (v, p) ↦ rw p ]
read-put_fields f l (some (d, old)) = lookup-append f l old

put_there : (l : List (Text × Arg)) (o : Option Entry) → is_some (put_fields l o) ≡ true
unfolding put_fields
put_there l none = refl
put_there l (some e) = refl

read-set_deadline :
    (f : Text) (t d : ℕ) (o : Option Entry)
    → read f (alive t (set_deadline d o)) ≡ (if is_some o && ltb t d then read f o else none)
unfolding read alive set_deadline
read-set_deadline f t d none = refl
read-set_deadline f t d (some (_, old)) = ground arith

-- what a command does to its own key
exec_here :
    (now : ℕ) (name k : Text) (args : List Arg) (db : Db)
    → exec now (record { name = name; args = text k ∷ args }) db k
      ≡ change name now args (alive now (db k))
unfolding exec behind
exec_here now name k args db = rw (exec, behind, ==_refl k)

abbrev exists : ℕ → Text → Db → Bool
exists now k db = is_some (alive now (db k))

abbrev field : ℕ → Text → Text → Db → Option Arg
field now k f db = read f (alive now (db k))

exists-hset :
    (now : ℕ) (k : Text) (args : List Arg) (db : Db)
    → exists now k (exec now (hset k args) db) ≡ true
unfolding change text_dec
exists-hset now k args db =
    rw (exec_here now (codes "HSET") k args db, alive-put_fields now (pairs args) (db k))
      (put_there (pairs args) (alive now (db k)))

field-hset :
    (now : ℕ) (k f : Text) (args : List Arg) (db : Db)
    → field now k f (exec now (hset k args) db)
      ≡ or_before (lookup f (pairs args)) (field now k f db)
unfolding change text_dec
field-hset now k f args db =
    rw (exec_here now (codes "HSET") k args db, alive-put_fields now (pairs args) (db k))
      (read-put_fields f (pairs args) (alive now (db k)))

field-expire :
    (now t ttl : ℕ) (k f : Text) (db : Db)
    → field t k f (exec now (expire k ttl) db)
      ≡ (if exists now k db && ltb t (now + ttl) then field now k f db else none)
unfolding change text_dec seconds
field-expire now t ttl k f db =
    rw (exec_here now (codes "EXPIRE") k (number ttl ∷ []) db)
      (read-set_deadline f t (now + ttl) (alive now (db k)))

field-del : (now t : ℕ) (k f : Text) (db : Db) → field t k f (exec now (del k) db) ≡ none
unfolding change text_dec alive read
field-del now t k f db = rw (exec_here now (codes "DEL") k [] db)

instance abbrev hashes : Hashes
hashes = record {
  Db = Db;
  exec = exec;
  exists = exists;
  field = field;
  exists-hset = exists-hset;
  field-hset = field-hset;
  field-expire = λ now t ttl k f db after. field-expire now t ttl k f db;
  field-del = λ now t k f db after. field-del now t k f db;
}

abbrev registry : ServiceRegistry
registry = record {
  instance_id = codes "gw-1";
  instance_addr = codes "10.0.0.1:8080";
  heartbeat_interval = 10;
  instance_ttl = 30;
}

abbrev no_keys : Db
no_keys j = none

stays_announced_example :
    field 135
      (codes "gateway:instance:gw-1")
      address
      (run_all (register_and_start_heartbeat 100 (tick 110 ∷ tick 120 ∷ []) registry) no_keys)
    ≡ some (text (codes "10.0.0.1:8080"))
unfolding instance_key
stays_announced_example =
    stays_announced registry 100 (tick 110 ∷ tick 120 ∷ []) 135 no_keys (omega arith)

address_lost_example :
    field 165 (codes "gateway:instance:gw-1") address (
      run_all
        (register_and_start_heartbeat 100 (tick 110 ∷ tick 150 ∷ tick 160 ∷ []) registry)
        no_keys)
    ≡ none
unfolding instance_key
address_lost_example =
    address_lost registry 100 (110 ∷ []) 150 (160 ∷ []) 165 no_keys (omega arith) (omega arith)
