-- ===== src/Tests/Examples.antt =====
-- The programs of examples/ at small inputs.
use mathlib.Core.Option
use sse_gateway.Prelude.{
  ◌≡◌, ◌⊎◌, refl, Text, codes, text_dec, ◌==◌, none, some, List, [], All, if◌then◌else◌,
}
use sse_gateway.Extern.Samples.{text_json, assoc_map, queues, fields_frame}
use sse_gateway.Manager
use sse_gateway.Manager.{register}
use sse_gateway.Storage.Memory
use sse_gateway.Storage.Memory.{memory_storage}
use sse_gateway.Std.Affix.{strip_prefix}
use sse_gateway.Auth.{bearer_token, header}
use sse_gateway.Handler.{Callbacks}
use sse_gateway.Session.{ConnectRequest, auth_request, sse_connect, denied}
use sse_gateway.System.{System, Session, Steps, entered, here, next, enter}
use sse_gateway.System.Safety.{initial}
use sse_gateway.Examples.Auth.{
  Response, deny, unauthorized, check, HasToken, accepted, connect_checked, sessions_have_token,
}
use sse_gateway.Tests.Fixtures.{no_channels}
use sse_gateway.Tests.Sessions.{world, visitor}

abbrev guarded : Callbacks Response (List Text)
guarded = record { auth = some check; on_connect = none; on_disconnect = none }

abbrev guest : ConnectRequest
guest = record visitor {
  headers =
      λ name. if name == codes "authorization" then some (codes "Bearer secret-token") else none;
}

abbrev at_start : System memory_storage (List Text)
at_start = initial (codes "gw-1") no_channels (Memory.new 10) []

abbrev visited : System memory_storage (List Text)
visited = enter (codes "a") 1000 guest guarded at_start

visit : Steps guarded at_start visited
unfolding check Option.bind Manager.new text_dec bearer_token header auth_request strip_prefix
visit = next here (entered (codes "a") 1000 guest refl refl)

sessions_have_token_example : All (λ (x : Session). HasToken x.request) visited.sessions
sessions_have_token_example =
    sessions_have_token guarded refl (codes "gw-1") no_channels (Memory.new 10) [] visit

-- a request without a token
connect_checked_example :
    (HasToken visitor
      × (sse_connect (codes "d") 1000 visitor guarded world
          ≡ accepted (codes "d") 1000 visitor guarded world))
    ⊎ ((HasToken visitor → ⊥)
        × (message : Text) × (sse_connect (codes "d") 1000 visitor guarded world
            ≡ (denied (deny unauthorized message), world)))
connect_checked_example = connect_checked guarded refl (codes "d") 1000 visitor world
