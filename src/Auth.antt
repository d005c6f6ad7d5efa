-- ===== src/Auth.antt =====
-- auth.rs: what an auth callback sees of a request (crates/sse-gateway/src/auth.rs).
-- `headers` gives a header's value if it is a readable text, `headers.get(name).and_then(|v|
-- v.to_str().ok())`; path and query are the parts of the parsed `Uri`.
pub mod Query
use mathlib.Core.Option
use sse_gateway.Prelude.{ℕ, Text, codes, ◌==◌, Option, none, some, List, [], ◌∷◌, if◌then◌else◌}
use sse_gateway.Std.Affix.{strip_prefix}
use sse_gateway.Std.Split.{split, split_once}

pub record AuthRequest : Type 0 where
  pub method : Text
  pub uri_path : Text
  pub uri_query : Option Text
  pub headers : Text → Option Text
  pub channel_id : Text
  pub client_ip : Option Text

unfoldable pub header : Text → AuthRequest → Option Text
header name r = r.headers name

unfoldable pub bearer_token : AuthRequest → Option Text
bearer_token r = Option.bind (header (codes "authorization") r) (strip_prefix (codes "Bearer "))

unfoldable pub path : AuthRequest → Text
path r = r.uri_path

unfoldable pub query_string : AuthRequest → Option Text
query_string r = r.uri_query

-- one round of the `find_map` of `query_param`
pub pair_value : Text → Text → Option Text
pair_value name pair = elim (split_once b'=' pair) [
  | none ↦ none
  | some (key, value) ↦ if key == name then some value else none
]

pub find_pair : Text → List Text → Option Text
find_pair name [] = none
find_pair name (pair ∷ pairs) =
    let rest = find_pair name pairs in
    elim (pair_value name pair) [ none ↦ rest | some value ↦ some value ]

unfoldable pub query_param : Text → AuthRequest → Option Text
unfolding pair_value find_pair
query_param name r = Option.bind r.uri_query (λ query. find_pair name (split b'&' query))
