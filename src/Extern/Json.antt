-- ===== src/Extern/Json.antt =====
-- `serde_json`, as far as the gateway uses it: an opaque value type and its fallible print.
use sse_gateway.Prelude.{Text, Option}

pub record Json : Type 1 where
  pub Value : Type 0
  -- `serde_json::to_string(v).ok()`
  pub to_string : Value → Option Text
  -- `Value::to_string`, its `Display`
  pub display : Value → Text
