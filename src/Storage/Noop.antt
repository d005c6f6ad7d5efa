-- ===== src/Storage/Noop.antt =====
-- `NoopStorage` of storage.rs.
use sse_gateway.Prelude.{codes, false, []}
use sse_gateway.Extern.Json.{Json}
use sse_gateway.Storage.Trait.{MessageStorage}

module _ ⦃J : Json⦄ where
  abbrev pub noop_storage : MessageStorage
  noop_storage = record {
    State = Unit {0};
    generate_id = λ ts s. ([], s);
    store = λ channel_id stream_id event s. s;
    get_messages_after = λ channel_id after_id s. [];
    is_available = λ s. false;
    name = codes "Noop (disabled)";
  }
