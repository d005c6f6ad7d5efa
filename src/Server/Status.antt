-- ===== src/Server/Status.antt =====
-- `handle_channel_status` and `get_channels` of src/main.rs. `address` is HGET of an instance's address, on a key.
use sse_gateway.Prelude.{Text, codes, Option, none, some, Bool, is_some, List, []}
use sse_gateway.Extern.Keyspace.{Keyspace}
use sse_gateway.Server.Instances.{instance_key}
use sse_gateway.Server.Channels.{get_channel_instance, get_all_channels}
use sse_gateway.Server.Instances.Listing.{Answer, failed, answered}

pub record ChannelStatus : Type 0 where
  pub channel_id : Text
  pub online : Bool
  pub instance_id : Option Text
  pub instance_address : Option Text

unfoldable pub get_instance_address : (Text → Option Text) → Text → Option Text
get_instance_address address id = address (instance_key id)

module _ ⦃K : Keyspace⦄ where
  unfoldable pub handle_channel_status : (Text → Option Text) → Text → K.Db → ChannelStatus
  handle_channel_status address channel_id db =
      let instance_id = get_channel_instance channel_id db in
      record {
        channel_id = channel_id;
        online = is_some instance_id;
        instance_id = instance_id;
        instance_address = elim instance_id [
          | none ↦ none
          | some id ↦ get_instance_address address id
        ];
      }

-- the body of `get_channels`
pub data ChannelsBody : Type 0 where
  mappings : List (Text × Text) → ChannelsBody
  failure : Text → ChannelsBody

module _ ⦃K : Keyspace⦄ where
  -- `keys` is the answer to KEYS; without it the registry is not connected.
  unfoldable pub get_channels : Option (Answer (List Text)) → K.Db → ChannelsBody
  get_channels none db = failure (codes "Redis not connected")
  get_channels (some (failed e)) db = failure e
  get_channels (some (answered keys)) db = mappings (get_all_channels keys db [])
