-- ===== src/Tests/Queries.antt =====
-- The queries and tokens of a sample request.
use sse_gateway.Prelude.{
  ◌≡◌, refl, codes, text_dec, none, some, ◌==◌, [], ◌∷◌, arith, if◌then◌else◌,
}
use sse_gateway.Auth.{AuthRequest, query_param}
use sse_gateway.Auth.Query.{query_param_first}

abbrev request : AuthRequest
request = record {
  method = codes "GET";
  uri_path = codes "/sse/connect";
  uri_query = some (codes "channel_id=room&token=t");
  headers = λ name. if name == codes "authorization" then some (codes "Bearer s3") else none;
  channel_id = codes "room";
  client_ip = none;
}

query_param_first_example : query_param (codes "token") request ≡ some (codes "t")
unfolding text_dec
query_param_first_example =
    query_param_first (codes "token") request (codes "channel_id", codes "room")
      ((codes "token", codes "t") ∷ []) refl (ground arith) (ground arith)
