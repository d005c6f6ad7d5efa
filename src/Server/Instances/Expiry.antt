-- ===== src/Server/Instances/Expiry.antt =====
-- What the server says of an instance whose task has stopped, or was late.
use sse_gateway.Prelude.{
  ℕ, ◌+◌, ◌≤◌, ◌≡◌, refl, ap, ◌∙◌, Text, codes, text_dec, none, List, [], ◌∷◌, ◌++◌, map, arith,
}
use sse_gateway.Redis.Command.{Command, text, number}
use sse_gateway.Extern.Hashes.{Hashes, hset, expire, set_command}
use sse_gateway.Server.Instances.{
  ServiceRegistry, expire_instance, register_instance, heartbeat, unregister_instance, Beat,
  cancelled, tick, beats, register_and_start_heartbeat,
}
use sse_gateway.Server.Instances.Alive.{run, run_all, key, address}

-- ticks in order, and a time after them
abbrev pub IsOrdered : ℕ → List ℕ → ℕ → Type 0
IsOrdered last [] t = last ≤ t
IsOrdered last (now ∷ l) t = (last ≤ now) × IsOrdered now l t

abbrev pub last_of : ℕ → List ℕ → ℕ
last_of last [] = last
last_of last (now ∷ l) = last_of now l

module _ ⦃H : Hashes⦄ (r : ServiceRegistry) where
  run_all-append :
      (a b : List (ℕ × List Command)) (db : H.Db) → run_all (a ++ b) db ≡ run_all b (run_all a db)
  unfolding run_all
  run_all-append [] b db = refl
  run_all-append ((now, l) ∷ a) b db = run_all-append a b (run now l db)

  beats-append :
      (a : List ℕ) (b : List Beat) → beats (map tick a ++ b) r ≡ beats (map tick a) r ++ beats b r
  unfolding beats
  beats-append [] b = refl
  beats-append (now ∷ a) b = ap (λ l. (now, heartbeat now r) ∷ l) (beats-append a b)

  -- After any ticks, a cancelled task leaves no field of the instance's hash, and no later round
  -- adds one.
  gone_after_cancel :
      (start : ℕ) (ticks : List ℕ) (now : ℕ) (later : List Beat) (t : ℕ) (f : Text) (db : H.Db)
      → now ≤ t
      → H.field t (key r) f (
          run_all
            (register_and_start_heartbeat start (map tick ticks ++ cancelled now ∷ later) r)
            db)
        ≡ none
  unfolding register_and_start_heartbeat beats run_all run unregister_instance
  gone_after_cancel start ticks now later t f db after =
      let registered = run start (register_instance start r) db in
      let ticked = run_all (beats (map tick ticks) r) registered in
      ap (H.field t (key r) f) (
        ap (λ l. run_all l registered) (beats-append ticks (cancelled now ∷ later))
        ∙ run_all-append (beats (map tick ticks) r) ((now, unregister_instance r) ∷ []) registered)
      ∙ H.field-del now t (key r) f
          (H.exec now (set_command (codes "SREM") (codes "gateway:instances") r.instance_id) ticked)
          after

  -- The key is due at a time.
  abbrev IsDue : ℕ → H.Db → Type 0
  IsDue d db = (t : ℕ) → d ≤ t → H.field t (key r) address db ≡ none

  expire-IsDue :
      (now : ℕ) (db : H.Db)
      → IsDue (now + r.instance_ttl) (H.exec now (expire (key r) r.instance_ttl) db)
  expire-IsDue now db t late =
      ground (arith, H.field-expire now t r.instance_ttl (key r) address db (omega arith))

  register-IsDue :
      (now : ℕ) (db : H.Db) → IsDue (now + r.instance_ttl) (run now (register_instance now r) db)
  unfolding run register_instance expire_instance
  register-IsDue now db = expire-IsDue now _

  heartbeat-IsDue :
      (now : ℕ) (db : H.Db) → IsDue (now + r.instance_ttl) (run now (heartbeat now r) db)
  unfolding run heartbeat expire_instance
  heartbeat-IsDue now db = expire-IsDue now _

  -- a heartbeat does not bring the address back
  heartbeat_lost : (now : ℕ) (db : H.Db) → IsDue now db → IsDue now (run now (heartbeat now r) db)
  unfolding run heartbeat expire_instance text_dec
  heartbeat_lost now db lost t after =
      let fields = text (codes "last_seen") ∷ number now ∷ [] in
      ground (
        arith,
        H.field-expire now t r.instance_ttl (key r) address (H.exec now (hset (key r) fields) db)
            after,
        H.field-hset now (key r) address fields db,
        lost now (omega arith),
      )

  later-IsDue : (d e : ℕ) (db : H.Db) → d ≤ e → IsDue d db → IsDue e db
  later-IsDue d e db h lost t after = lost t (omega arith)

  ticks_lost :
      (l : List ℕ) (last t : ℕ) (db : H.Db)
      → IsDue last db
      → IsOrdered last l t
      → H.field t (key r) address (run_all (beats (map tick l) r) db) ≡ none
  unfolding run_all beats
  ticks_lost [] last t db lost h = lost t h
  ticks_lost (now ∷ l) last t db lost (a, h) =
      ticks_lost l now t (run now (heartbeat now r) db)
        (heartbeat_lost now db (later-IsDue last now db a lost)) h

  ticks-IsDue :
      (l : List ℕ) (last : ℕ) (db : H.Db)
      → IsDue (last + r.instance_ttl) db
      → IsDue (last_of last l + r.instance_ttl) (run_all (beats (map tick l) r) db)
  unfolding run_all beats
  ticks-IsDue [] last db due = due
  ticks-IsDue (now ∷ l) last db due =
      ticks-IsDue l now (run now (heartbeat now r) db) (heartbeat-IsDue now db)

  -- When a tick comes `ttl` seconds or more after the one before, the server has no address of the
  -- instance at any time from the last tick on, however many ticks followed it, in the order of
  -- their times.
  pub address_lost :
      (start : ℕ) (ticks : List ℕ) (late : ℕ) (more : List ℕ) (t : ℕ) (db : H.Db)
      → last_of start ticks + r.instance_ttl ≤ late
      → IsOrdered late more t
      → H.field t (key r) address (
          run_all
            (register_and_start_heartbeat start (map tick ticks ++ map tick (late ∷ more)) r)
            db)
        ≡ none
  unfolding register_and_start_heartbeat run_all
  address_lost start ticks late more t db gap h =
      let registered = run start (register_instance start r) db in
      ap (H.field t (key r) address) (
        ap (λ l. run_all l registered) (beats-append ticks (map tick (late ∷ more)))
        ∙ run_all-append (beats (map tick ticks) r) (beats (map tick (late ∷ more)) r) registered)
      ∙ ticks_lost (late ∷ more) (last_of start ticks + r.instance_ttl) t
          (run_all (beats (map tick ticks) r) registered)
          (ticks-IsDue ticks start registered (register-IsDue start db)) (gap, h)
