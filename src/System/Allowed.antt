-- ===== src/System/Allowed.antt =====
-- The auth callback stands before every session.
use mathlib.Core.Option
use sse_gateway.Prelude.{
  ◌≡◌, none, Text, List, All, All-append, All-middle, All-put, All-without, subst,
}
use sse_gateway.Extern.Json.{Json}
use sse_gateway.Extern.DashMap.{DashMap}
use sse_gateway.Extern.Mpsc.{Mpsc}
use sse_gateway.Extern.SseFrame.{SseFrame}
use sse_gateway.Event.{SseEvent}
use sse_gateway.Storage.Trait.{MessageStorage}
use sse_gateway.Handler.{Callbacks}
use sse_gateway.Session.{ConnectRequest, auth_request}
use sse_gateway.System.{
  System, Session, Step, entered, responded, left, aborted, sent, dispatched, stored, cleaned,
  Steps, here, next, enter, respond, leave, abort,
}
use sse_gateway.System.Safety.{initial}

module _ {Response E : Type 0} (k : Callbacks Response E) where
  -- the auth callback, if there is one, lets the request in
  abbrev pub IsAllowed : ConnectRequest → Type 0
  IsAllowed r = Option.bind k.auth (λ auth_fn. auth_fn (auth_request r)) ≡ none

  module _ ⦃J : Json⦄ ⦃M : Mpsc SseEvent⦄ ⦃F : SseFrame⦄ where
    abbrev IsIn : Session → Type 0
    IsIn x = IsAllowed x.request

    abbrev pub AllAllowed : List Session → Type 0
    AllAllowed l = All IsIn l

module _ ⦃J : Json⦄ ⦃D : DashMap⦄ ⦃M : Mpsc SseEvent⦄ ⦃F : SseFrame⦄ {S : MessageStorage}
    {Response E : Type 0} (k : Callbacks Response E) where
  Step-AllAllowed :
      {s t : System S E} → Step k s t → AllAllowed k s.sessions → AllAllowed k t.sessions
  unfolding enter respond leave abort
  Step-AllAllowed {s} (entered uuid now r v fresh) h = All-append (IsIn k) s.sessions _ h (v, tt)
  Step-AllAllowed {s} (responded before x after e n) h =
      let h' = subst (AllAllowed k) e h in
      All-put (IsIn k) before _ after (All-middle (IsIn k) before x after h')
        (All-without (IsIn k) before x after h')
  Step-AllAllowed {s} (left before x after replay e n) h =
      All-without (IsIn k) before x after (subst (AllAllowed k) e h)
  Step-AllAllowed {s} (aborted before x after e n) h =
      All-without (IsIn k) before x after (subst (AllAllowed k) e h)
  Step-AllAllowed (sent uuid ts req) h = h
  Step-AllAllowed (dispatched uuid ts msg) h = h
  Step-AllAllowed (stored before t after e) h = h
  Step-AllAllowed cleaned h = h

  Steps-AllAllowed :
      {s t : System S E} → Steps k s t → AllAllowed k s.sessions → AllAllowed k t.sessions
  Steps-AllAllowed here h = h
  Steps-AllAllowed (next r st) h = Step-AllAllowed st (Steps-AllAllowed r h)

  -- In every state that steps lead to from the start of the gateway, the auth callback, if there
  -- is one, lets in the request of each session.
  pub sessions-IsAllowed :
      (instance_id : Text) (wires : M.State) (storage : S.State) (env : E) {s : System S E}
      → Steps k (initial instance_id wires storage env) s
      → All (λ (x : Session). IsAllowed k x.request) s.sessions
  sessions-IsAllowed instance_id wires storage env r = Steps-AllAllowed r tt
