-- ===== src/Server/Instances/Alive.antt =====
-- What the server says of an instance while its heartbeat task runs.
use sse_gateway.Prelude.{
  ℕ, ◌+◌, ◌≤◌, ◌<◌, ◌≡◌, ◌∙◌, Text, codes, text_dec, some, List, [], ◌∷◌, arith,
}
use sse_gateway.Redis.Command.{Command, Arg, text, number}
use sse_gateway.Extern.Hashes.{Hashes, hset, expire, set_command}
use sse_gateway.Server.Instances.{
  ServiceRegistry, instance_key, expire_instance, register_instance, heartbeat, Beat, cancelled,
  tick, beats, register_and_start_heartbeat,
}

module _ ⦃H : Hashes⦄ where
  -- A pipeline runs at one time.
  unfoldable pub run : ℕ → List Command → H.Db → H.Db
  run now [] db = db
  run now (c ∷ l) db = run now l (H.exec now c db)

  unfoldable pub run_all : List (ℕ × List Command) → H.Db → H.Db
  run_all [] db = db
  run_all ((now, l) ∷ rest) db = run_all rest (run now l db)

-- The rounds are ticks, each less than `ttl` seconds after the one before, and `t` is so after the
-- last.
abbrev pub IsPaced : ℕ → ℕ → List Beat → ℕ → Type 0
IsPaced ttl last [] t = (last ≤ t) × (t < last + ttl)
IsPaced ttl last (tick now ∷ l) t = (last ≤ now) × (now < last + ttl) × IsPaced ttl now l t
IsPaced ttl last (cancelled now ∷ l) t = ⊥

abbrev pub address : Text
address = codes "address"

module _ ⦃H : Hashes⦄ (r : ServiceRegistry) where
  abbrev pub key : Text
  key = instance_key r.instance_id

  -- The address is there at `now`, and stays for `ttl` seconds.
  abbrev IsAnnounced : ℕ → H.Db → Type 0
  IsAnnounced now db =
      (t : ℕ)
      → now ≤ t
      → t < now + r.instance_ttl
      → H.field t key address db ≡ some (text r.instance_addr)

  -- HSET and EXPIRE at one time
  announced :
      (now t : ℕ) (fields : List Arg) (db : H.Db)
      → now ≤ t
      → t < now + r.instance_ttl
      → H.field now key address (H.exec now (hset key fields) db) ≡ some (text r.instance_addr)
      → H.field t key address
          (H.exec now (expire key r.instance_ttl) (H.exec now (hset key fields) db))
        ≡ some (text r.instance_addr)
  announced now t fields db after before there = ground (
    arith,
    H.field-expire now t r.instance_ttl key address (H.exec now (hset key fields) db) after,
    H.exists-hset now key fields db,
  )

  register-IsAnnounced :
      (now : ℕ) (db : H.Db) → IsAnnounced now (run now (register_instance now r) db)
  unfolding run register_instance expire_instance text_dec
  register-IsAnnounced now db t after before =
      let fields =
        text address
        ∷ text r.instance_addr
        ∷ text (codes "last_seen")
        ∷ number now
        ∷ text (codes "registered_at")
        ∷ number now
        ∷ [] in
      announced now t fields
        (H.exec now (set_command (codes "SADD") (codes "gateway:instances") r.instance_id) db) after
        before (H.field-hset now key address fields _)

  heartbeat-IsAnnounced :
      (now : ℕ) (db : H.Db)
      → H.field now key address db ≡ some (text r.instance_addr)
      → IsAnnounced now (run now (heartbeat now r) db)
  unfolding run heartbeat expire_instance text_dec
  heartbeat-IsAnnounced now db there t after before =
      let fields = text (codes "last_seen") ∷ number now ∷ [] in
      announced now t fields db after before (H.field-hset now key address fields db ∙ there)

  beats_announced :
      (l : List Beat) (last t : ℕ) (db : H.Db)
      → IsAnnounced last db
      → IsPaced r.instance_ttl last l t
      → H.field t key address (run_all (beats l r) db) ≡ some (text r.instance_addr)
  unfolding run_all beats
  beats_announced [] last t db h p = h t p.0 p.1
  beats_announced (tick now ∷ l) last t db h (a, b, p) =
      beats_announced l now t (run now (heartbeat now r) db)
        (heartbeat-IsAnnounced now db (h now a b)) p
  beats_announced (cancelled now ∷ l) last t db h p = elim p [ ]

  -- While the rounds of the task are ticks, each less than `ttl` seconds after the one before, the
  -- server has the address of the instance at any time from the last on that is less than `ttl`
  -- seconds after it.
  pub stays_announced :
      (start : ℕ) (l : List Beat) (t : ℕ) (db : H.Db)
      → IsPaced r.instance_ttl start l t
      → H.field t key address (run_all (register_and_start_heartbeat start l r) db)
        ≡ some (text r.instance_addr)
  unfolding register_and_start_heartbeat run_all
  stays_announced start l t db p =
      beats_announced l start t (run start (register_instance start r) db)
        (register-IsAnnounced start db) p
