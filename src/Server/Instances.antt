-- ===== src/Server/Instances.antt =====
-- `ServiceRegistry` of src/main.rs: the commands that announce an instance. The registry is
-- connected; the server's answers are only logged. Times are seconds.
pub mod Alive
pub mod Expiry
pub mod Listing
use sse_gateway.Prelude.{ℕ, Text, codes, List, [], ◌∷◌, ◌++◌}
use sse_gateway.Redis.Command.{Command, text, number}

pub record ServiceRegistry : Type 0 where
  pub instance_id : Text
  pub instance_addr : Text
  pub heartbeat_interval : ℕ
  pub instance_ttl : ℕ

unfoldable pub new : Text → Text → ServiceRegistry
new instance_id instance_addr = record {
  instance_id = instance_id;
  instance_addr = instance_addr;
  heartbeat_interval = 10;
  instance_ttl = 30;
}

unfoldable pub instance_key : Text → Text
instance_key id = codes "gateway:instance:" ++ id

unfoldable pub expire_instance : ServiceRegistry → Command
expire_instance r = record {
  name = codes "EXPIRE";
  args = text (instance_key r.instance_id) ∷ number r.instance_ttl ∷ [];
}

unfoldable pub register_instance : ℕ → ServiceRegistry → List Command
unfolding expire_instance
register_instance now r =
    record {
      name = codes "SADD";
      args = text (codes "gateway:instances") ∷ text r.instance_id ∷ [];
    }
    ∷ record {
      name = codes "HSET";
      args =
          text (instance_key r.instance_id)
          ∷ text (codes "address")
          ∷ text r.instance_addr
          ∷ text (codes "last_seen")
          ∷ number now
          ∷ text (codes "registered_at")
          ∷ number now
          ∷ [];
    }
    ∷ expire_instance r
    ∷ []

unfoldable pub heartbeat : ℕ → ServiceRegistry → List Command
unfolding expire_instance
heartbeat now r =
    record {
      name = codes "HSET";
      args = text (instance_key r.instance_id) ∷ text (codes "last_seen") ∷ number now ∷ [];
    }
    ∷ expire_instance r
    ∷ []

unfoldable pub unregister_instance : ServiceRegistry → List Command
unregister_instance r =
    record {
      name = codes "SREM";
      args = text (codes "gateway:instances") ∷ text r.instance_id ∷ [];
    }
    ∷ record { name = codes "DEL"; args = text (instance_key r.instance_id) ∷ [] }
    ∷ []

-- A round of the heartbeat task: its token is cancelled, or the interval ticks, at a time.
pub data Beat : Type 0 where
  cancelled : ℕ → Beat
  tick : ℕ → Beat

-- the pipelines that the task sends, and when
unfoldable pub beats : List Beat → ServiceRegistry → List (ℕ × List Command)
beats [] r = []
beats (cancelled now ∷ l) r = (now, unregister_instance r) ∷ []
beats (tick now ∷ l) r = (now, heartbeat now r) ∷ beats l r

unfoldable pub register_and_start_heartbeat :
    ℕ → List Beat → ServiceRegistry → List (ℕ × List Command)
unfolding beats
register_and_start_heartbeat now l r = (now, register_instance now r) ∷ beats l r
