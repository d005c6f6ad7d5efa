-- ===== src/Examples/Auth.antt =====
-- The auth callback of examples/auth.rs, with `deny` of crates/sse-gateway/src/auth.rs. A response is
-- its status and its body.
use mathlib.Core.Option
use sse_gateway.Prelude.{
  ℕ, ◌≡◌, ◌⊎◌, inl, inr, sym, ◌∙◌, ap, Text, codes, ◌==◌, ==_iff, Option, none, some, false, true,
  All-map, ◌++◌, All, if◌then◌else◌, Option-cases, Bool-cases,
}
use sse_gateway.Extern.Json.{Json}
use sse_gateway.Extern.DashMap.{DashMap}
use sse_gateway.Extern.Mpsc.{Mpsc}
use sse_gateway.Extern.SseFrame.{SseFrame}
use sse_gateway.Event.{SseEvent}
use sse_gateway.Storage.Trait.{MessageStorage}
use sse_gateway.Auth.{AuthRequest, header, bearer_token}
use sse_gateway.Auth.Query.{bearer_token_iff}
use sse_gateway.Handler.{World, Callbacks}
use sse_gateway.Session.{
  ConnectRequest, ConnectResult, denied, streaming, sse_connect, auth_request, start_stream,
}
use sse_gateway.Session.Lifecycle.{sse_connect_accepted, sse_connect_denied, opened}
use sse_gateway.System.{System, Session, Steps}
use sse_gateway.System.Safety.{initial}
use sse_gateway.System.Allowed.{sessions-IsAllowed, IsAllowed}

pub record Response : Type 0 where
  pub status : ℕ
  pub body : Text

unfoldable pub deny : ℕ → Text → Response
deny status message = record { status = status; body = message }

abbrev pub unauthorized : ℕ
unauthorized = 401

-- `match req.bearer_token()`
unfoldable pub check_token : Option Text → Option Response
unfolding deny
check_token none = some (deny unauthorized (codes "Token required"))
check_token (some token) =
    if token == codes "secret-token" then none else some (deny unauthorized (codes "Invalid token"))

unfoldable pub check : AuthRequest → Option Response
unfolding check_token
check req = check_token (bearer_token req)

-- the request has the token
abbrev pub HasToken : ConnectRequest → Type 0
HasToken r = r.headers (codes "authorization") ≡ some (codes "Bearer " ++ codes "secret-token")

-- Both sides of the decision.
check_cases :
    (r : ConnectRequest)
    → (HasToken r × (check (auth_request r) ≡ none))
      ⊎ ((HasToken r → ⊥)
          × (message : Text) × (check (auth_request r) ≡ some (deny unauthorized message)))
unfolding check check_token header auth_request
check_cases r = elim (Option-cases (bearer_token (auth_request r))) [
  | inl n ↦ inr (
    λ h. none_some (sym n ∙ (bearer_token_iff (auth_request r) (codes "secret-token")).1 h),
    codes "Token required",
    rw n,
  )
  | inr (token, n) ↦ elim (Bool-cases (token == codes "secret-token")) [
    | inl same ↦
        let p = (==_iff token (codes "secret-token")).0 same in
        inl (
          (bearer_token_iff (auth_request r) (codes "secret-token")).0 (n ∙ ap some p),
          rw (n, same),
        )
    | inr differs ↦ inr (
      λ h.
          differ token differs
            (same_some (sym n ∙ (bearer_token_iff (auth_request r) (codes "secret-token")).1 h)),
      codes "Invalid token",
      rw (n, differs),
    )
  ]
]
  where
    none_some : {t : Text} → ◌≡◌ {A = Option Text} none (some t) → ⊥
    none_some e = cc

    same_some : {t u : Text} → some t ≡ some u → t ≡ u
    same_some e = cc

    differ : (t : Text) → (t == codes "secret-token") ≡ false → t ≡ codes "secret-token" → ⊥
    differ t e p = false_true (sym e ∙ (==_iff t (codes "secret-token")).1 p)
      where
        false_true : false ≡ true → ⊥
        false_true q = cc

module _ {E : Type 0} (k : Callbacks Response E) (guarded : k.auth ≡ some check) where
  verdict_check :
      (r : ConnectRequest)
      → Option.bind k.auth (λ auth_fn. auth_fn (auth_request r)) ≡ check (auth_request r)
  unfolding Option.bind
  verdict_check r = ap (λ auth. Option.bind auth (λ auth_fn. auth_fn (auth_request r))) guarded

  passed : (r : ConnectRequest) → IsAllowed k r → HasToken r
  passed r v = elim (check_cases r) [
    | inl (h, e) ↦ h
    | inr (n, message, e) ↦ absurd (some_none (sym (verdict_check r ∙ e) ∙ v))
  ]
    where
      some_none : {d : Response} → some d ≡ none → ⊥
      some_none e = cc

module _ ⦃J : Json⦄ ⦃D : DashMap⦄ ⦃M : Mpsc SseEvent⦄ ⦃F : SseFrame⦄ {S : MessageStorage}
    {E : Type 0} where
  -- the session that a request is given which was let in
  abbrev pub accepted :
      Text
      → ℕ
      → ConnectRequest
      → Callbacks Response E
      → World S E
      → ConnectResult Response × World S E
  accepted uuid now r k world =
      let (info, receiver, world') = opened uuid now r k world in
      (streaming (start_stream r info receiver world'), world')

module _ ⦃J : Json⦄ ⦃D : DashMap⦄ ⦃M : Mpsc SseEvent⦄ ⦃F : SseFrame⦄ {S : MessageStorage}
    {E : Type 0} (k : Callbacks Response E) (guarded : k.auth ≡ some check) where
  -- Let the auth callback be that of the example. If the `authorization` header of a request is
  -- `Bearer secret-token`, the request is given a session; if it is not, it is denied with status
  -- 401 and the gateway is unchanged.
  pub connect_checked :
      (uuid : Text) (now : ℕ) (r : ConnectRequest) (world : World S E)
      → (HasToken r × (sse_connect uuid now r k world ≡ accepted uuid now r k world))
        ⊎ ((HasToken r → ⊥)
            × (message : Text) × (sse_connect uuid now r k world
                ≡ (denied (deny unauthorized message), world)))
  connect_checked uuid now r world = elim (check_cases r) [
    | inl (h, e) ↦ inl (h, sse_connect_accepted uuid now r k world (verdict_check k guarded r ∙ e))
    | inr (n, message, e) ↦ inr (
      n,
      message,
      sse_connect_denied uuid now r k world (deny unauthorized message)
          (verdict_check k guarded r ∙ e),
    )
  ]

  -- Let the auth callback be that of the example. In every state that steps lead to from the start
  -- of the gateway, the request of each session has an `authorization` header that is `Bearer
  -- secret-token`.
  pub sessions_have_token :
      (instance_id : Text) (wires : M.State) (storage : S.State) (env : E) {s : System S E}
      → Steps k (initial instance_id wires storage env) s
      → All (λ (x : Session). HasToken x.request) s.sessions
  sessions_have_token instance_id wires storage env {s} r =
      All-map (λ (x : Session). passed k guarded x.request) s.sessions
        (sessions-IsAllowed k instance_id wires storage env r)
