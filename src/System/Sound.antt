-- ===== src/System/Sound.antt =====
-- What holds of the gateway in every state it can reach.
pub mod Keeps
pub mod Enter
pub mod Exit
use mathlib.Core.List.{map-append}
use sse_gateway.Prelude.{
  ℕ, ◌≡◌, refl, subst, Text, Option, none, some, Bool, false, true, List, [], ◌∷◌, ◌++◌, map,
  contains, Distinct, All,
}
use sse_gateway.Extern.Json.{Json}
use sse_gateway.Extern.DashMap.{DashMap}
use sse_gateway.Extern.Mpsc.{Mpsc}
use sse_gateway.Extern.SseFrame.{SseFrame}
use sse_gateway.Event.{SseEvent}
use sse_gateway.Connection.{SseConnection}
use sse_gateway.Manager.Index.{IsIndexed}
use sse_gateway.Manager.Senders.{IsWired}
use sse_gateway.Storage.Trait.{MessageStorage}
use sse_gateway.Handler.{World}
use sse_gateway.System.{System, Session}

module _ ⦃J : Json⦄ ⦃M : Mpsc SseEvent⦄ ⦃F : SseFrame⦄ where
  abbrev pub session_id : Session → Text
  session_id x = x.info.connection_id

  -- the ids of the sessions
  abbrev pub ids : List Session → List Text
  ids = map session_id

  pub ids-middle :
      (before : List Session) (x : Session) (after : List Session)
      → ids (before ++ x ∷ after) ≡ ids before ++ session_id x ∷ ids after
  ids-middle before x after = map-append session_id before (x ∷ after)

module _ ⦃J : Json⦄ ⦃D : DashMap⦄ ⦃M : Mpsc SseEvent⦄ ⦃F : SseFrame⦄ {S : MessageStorage}
    {E : Type 0} where
  -- The session's connection is registered, and its channel's receiver is there.
  pub record IsHeld (world : World S E) (x : Session) : Type 0 where
    pub conn : SseConnection
    pub there : D.get (session_id x) world.manager.connections ≡ some conn
    pub its : conn.sender ≡ x.receiver
    pub channel : conn.channel_id ≡ x.request.channel_id
    pub live : M.is_closed conn.sender world.wires ≡ false

  -- The manager is consistent, each session has its live connection, and each live connection its
  -- session.
  pub record IsSound (s : System S E) : Type 0 where
    pub indexed : IsIndexed s.world.manager
    pub wired : IsWired s.world.manager s.world.wires
    pub held : All (IsHeld s.world) s.sessions
    pub distinct : Distinct (ids s.sessions)
    pub owned :
        (id : Text) (conn : SseConnection)
        → D.get id s.world.manager.connections ≡ some conn
        → M.is_closed conn.sender s.world.wires ≡ false
        → contains id (ids s.sessions) ≡ true

  pub IsSound_sessions :
      {s : System S E} {l : List Session}
      → s.sessions ≡ l
      → IsSound s
      → IsSound (record s { sessions = l })
  IsSound_sessions {s} e h = subst (λ k. IsSound (record s { sessions = k })) e h
