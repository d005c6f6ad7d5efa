-- ===== src/Server/Channels.antt =====
-- `ChannelRegistry` of src/main.rs: which instance serves a channel. The registry is connected; a
-- command that fails is only logged, so it is a step that is not taken.
pub mod Owner
pub mod Listing
use mathlib.Core.Option
use sse_gateway.Prelude.{
  ℕ, Text, codes, Option, none, some, ◌==◌, List, [], ◌∷◌, ◌++◌, if◌then◌else◌,
}
use sse_gateway.Extern.Keyspace.{Keyspace}
use sse_gateway.Std.Affix.{strip_prefix, strip_suffix}

pub record ChannelRegistry : Type 0 where
  pub instance_id : Text
  pub channel_ttl : ℕ

unfoldable pub channel_key : Text → Text
channel_key channel_id = codes "channel:" ++ (channel_id ++ codes ":instance")

-- the way back, in `get_all_channels`
unfoldable pub channel_of : Text → Option Text
channel_of key =
    Option.bind (strip_prefix (codes "channel:") key) (strip_suffix (codes ":instance"))

module _ ⦃K : Keyspace⦄ where
  unfoldable pub register_channel : Text → ChannelRegistry → K.Db → K.Db
  register_channel channel_id r db = K.set (channel_key channel_id) r.instance_id r.channel_ttl db

  -- the script: one step of the server
  unfoldable pub delete_if : Text → Text → K.Db → K.Db
  delete_if key value db = elim (K.get key db) [
    | none ↦ db
    | some v ↦ if v == value then K.del key db else db
  ]

  unfoldable pub unregister_channel : Text → ChannelRegistry → K.Db → K.Db
  unfolding delete_if
  unregister_channel channel_id r db = delete_if (channel_key channel_id) r.instance_id db

  unfoldable pub get_channel_instance : Text → K.Db → Option Text
  get_channel_instance channel_id db = K.get (channel_key channel_id) db

  -- `result.insert(channel_id, instance_id)`: the map is the list of its insertions, the last first.
  unfoldable pub insert_channel :
      Option Text → Option Text → List (Text × Text) → List (Text × Text)
  insert_channel none channel result = result
  insert_channel (some instance_id) none result = result
  insert_channel (some instance_id) (some channel_id) result = (channel_id, instance_id) ∷ result

  -- the loop of `get_all_channels` over the keys that KEYS gave
  pub get_all_channels : List Text → K.Db → List (Text × Text) → List (Text × Text)
  unfolding insert_channel
  get_all_channels [] db result = result
  get_all_channels (key ∷ keys) db result =
      get_all_channels keys db (insert_channel (K.get key db) (channel_of key) result)
