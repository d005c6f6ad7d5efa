-- ===== src/Server/Instances/Listing.antt =====
-- The listing of the instances (src/main.rs). `members` is the answer to SMEMBERS, `info` the one to
-- HMGET of a key's address and last_seen, where it decodes as a pair.
use sse_gateway.Prelude.{ℕ, Text, codes, Option, none, some, List, [], ◌∷◌, length}
use sse_gateway.Std.Decimal.{ℤ}
use sse_gateway.Server.Instances.{instance_key}

pub record InstanceInfo : Type 0 where
  pub id : Text
  pub address : Text
  pub last_seen : ℤ

-- `anyhow::Result`
pub data Answer {ℓ} (A : Type ℓ) : Type ℓ where
  failed : Text → Answer A
  answered : A → Answer A

-- the instance of an id, where the server knows it
unfoldable pub push_instance : Text → Option (Text × ℤ) → List InstanceInfo → List InstanceInfo
push_instance id none l = l
push_instance id (some (address, last_seen)) l =
    record { id = id; address = address; last_seen = last_seen } ∷ l

-- the loop over the ids
unfoldable pub instances_of : (Text → Option (Text × ℤ)) → List Text → List InstanceInfo
unfolding push_instance
instances_of info [] = []
instances_of info (id ∷ ids) = push_instance id (info (instance_key id)) (instances_of info ids)

-- `none`: the registry is not connected.
unfoldable pub get_all_instances :
    Option (Answer (List Text)) → (Text → Option (Text × ℤ)) → Answer (List InstanceInfo)
unfolding instances_of
get_all_instances none info = failed (codes "Redis not connected")
get_all_instances (some (failed e)) info = failed e
get_all_instances (some (answered ids)) info = answered (instances_of info ids)

-- the body of the response
pub data InstancesBody : Type 0 where
  listing : List InstanceInfo → ℕ → InstancesBody
  error : Text → InstancesBody

unfoldable pub get_instances : Answer (List InstanceInfo) → InstancesBody
get_instances (failed e) = error e
get_instances (answered instances) = listing instances (length instances)
