-- ===== src/Tests/Servers.antt =====
-- The gateway binary's theorems at two instances and one push.
use Prim.Native.String.{String}
use sse_gateway.Prelude.{
  ltb, Bool-cases, inl, inr, ◌==◌, if◌then◌else◌, ℕ, ◌≡◌, Text, codes, text_dec, none, some, false,
  [], ◌∷◌, List, lookup, contains, if◌then◌else◌,
}
use sse_gateway.Extern.Keyspace.{Keyspace}
use sse_gateway.Extern.Samples.{text_json, assoc_map, queues}
use sse_gateway.Manager
use sse_gateway.Server.Channels.{
  ChannelRegistry, get_channel_instance, get_all_channels, channel_key,
}
use sse_gateway.Server.Channels.Owner.{
  Step, registered, unregistered, steps, get_channel_instance_lem,
}
use sse_gateway.Server.Channels.Listing.{get_all_channels_lem}
use sse_gateway.Server.Push.{AppState, PushPayload}

-- the keys of a server that never expires one
set_found :
    (j k v : Text) (ttl : ℕ) (db : assoc_map.Map Text)
    → assoc_map.get j (if ltb 0 ttl then assoc_map.insert k v db else db)
      ≡ (if ltb 0 ttl then if j == k then some v else assoc_map.get j db else assoc_map.get j db)
set_found j k v ttl db = elim (Bool-cases (ltb 0 ttl)) [
  | inl e ↦ rw e (assoc_map.get-insert j k v db)
  | inr e ↦ rw e
]

instance abbrev keyspace : Keyspace
keyspace = record {
  Db = assoc_map.Map Text;
  empty = assoc_map.empty;
  get = assoc_map.get;
  set = λ k v ttl db. if ltb 0 ttl then assoc_map.insert k v db else db;
  del = assoc_map.remove;
  get-empty = assoc_map.get-empty;
  get-set = set_found;
  get-del = assoc_map.get-remove;
}

abbrev registry : String → ChannelRegistry
registry id = record { instance_id = codes id; channel_ttl = 60 }

-- The second instance takes the channel over before the first lets it go.
abbrev handover : List Step
handover =
    registered (codes "room") (registry "gw-1")
    ∷ registered (codes "room") (registry "gw-2")
    ∷ unregistered (codes "room") (registry "gw-1")
    ∷ []

get_channel_instance_example :
    get_channel_instance (codes "room") (steps handover keyspace.empty) ≡ some (codes "gw-2")
unfolding text_dec get_channel_instance
get_channel_instance_example = get_channel_instance_lem (codes "room") handover keyspace.empty

abbrev keys : List Text
keys = channel_key (codes "room") ∷ codes "other" ∷ []

get_all_channels_example :
    lookup (codes "room") (get_all_channels keys (steps handover keyspace.empty) []) ≡ (
      if contains (channel_key (codes "room")) keys
      then get_channel_instance (codes "room") (steps handover keyspace.empty)
      else none)
get_all_channels_example = get_all_channels_lem (codes "room") (steps handover keyspace.empty) keys

abbrev state : AppState ℕ
state = record {
  sender = 0;
  pushes = record { next = 1; closed = λ s. false; queue = λ s. [] };
  storage = record {
    redis = some 7;
    max_per_channel = 100;
    counter = 2;
    ttl_seconds = 3600;
    queue = [];
  };
  connection_manager = Manager.new (codes "gw-1");
}

abbrev to_room : PushPayload
to_room = record {
  channel_id = some (codes "room");
  event_type = codes "message";
  payload = codes "hi";
}
