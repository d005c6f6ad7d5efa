-- ===== src/Session/Lifecycle.antt =====
-- What the start and the end of a session do to the gateway.
use mathlib.Core.Option
use sse_gateway.Prelude.{
  ℕ, ◌≡◌, refl, ap, Text, ◌==◌, codes, Option, none, some, false, not, List, [], ◌∷◌, ◌++◌,
  contains, retain, arith,
}
use sse_gateway.Extern.Json.{Json}
use sse_gateway.Extern.DashMap.{DashMap}
use sse_gateway.Extern.Mpsc.{Mpsc}
use sse_gateway.Extern.SseFrame.{SseFrame}
use sse_gateway.Event.{SseEvent}
use sse_gateway.Connection.{SseConnection}
use sse_gateway.Manager.{ConnectionManager, register, unregister, channel_ids}
use sse_gateway.Manager.Index.{
  IsIndexed, get-register, register_fields, channel_ids-register, get-unregister,
  channel_ids-unregister,
}
use sse_gateway.Storage.Trait.{MessageStorage}
use sse_gateway.Source.{ConnectionInfo}
use sse_gateway.Handler.{World, Callbacks}
use sse_gateway.Session.{
  ConnectRequest, denied, streaming, auth_request, client_ip, open_session, start_stream,
  sse_connect, drop_stream, call_back,
}

-- Taking out what was added last.
retain_ne_last :
    (a : Text) (xs : List Text)
    → contains a xs ≡ false
    → retain (λ x. not (x == a)) (xs ++ a ∷ []) ≡ xs
retain_ne_last a [] c = ground arith
retain_ne_last a (x ∷ xs) c = ground (arith, retain_ne_last a xs)

module _ ⦃J : Json⦄ ⦃D : DashMap⦄ ⦃M : Mpsc SseEvent⦄ where
  module _ (uuid : Text) (now : ℕ) (c : Text) (ip agent : Option Text) (m : ConnectionManager)
      (w : M.State) where
    abbrev after : ConnectionManager
    after = unregister uuid (register uuid now c ip agent m w).2

    -- Unregistering a connection that was registered under a fresh id restores the table and every
    -- channel's list of ids.
    pub unregister-register :
        IsIndexed m
        → D.get uuid m.connections ≡ none
        → ((j : Text) → D.get j after.connections ≡ D.get j m.connections)
          × ((d : Text) → channel_ids d after ≡ channel_ids d m)
    unregister-register h fresh = (
      λ j. ground (
        arith,
        get-unregister uuid (register uuid now c ip agent m w).2 j,
        get-register uuid now c ip agent m w j,
        ap (λ k. D.get {V = SseConnection} k m.connections) {x = j} {y = uuid},
      ),
      λ d. ground (
        arith,
        channel_ids-unregister uuid (register uuid now c ip agent m w).2 d,
        channel_ids-register uuid now c ip agent m w d,
        get-register uuid now c ip agent m w uuid,
        register_fields uuid now c ip agent m w,
        retain_ne_last uuid (channel_ids d m),
        h.agrees d uuid,
      ),
    )

module _ ⦃J : Json⦄ ⦃D : DashMap⦄ ⦃M : Mpsc SseEvent⦄ ⦃F : SseFrame⦄ {S : MessageStorage}
    {Response E : Type 0} (uuid : Text) (now : ℕ) (r : ConnectRequest) (k : Callbacks Response E)
    (world : World S E) where
  -- what the auth callback says of the request, if there is one
  abbrev pub verdict : Option Response
  verdict = Option.bind k.auth (λ auth_fn. auth_fn (auth_request r))

  abbrev pub session_info : ConnectionInfo
  session_info = record {
    channel_id = r.channel_id;
    connection_id = uuid;
    instance_id = world.manager.instance_id;
  }

  -- If the auth callback denies the request, the result is its response and the gateway is
  -- unchanged.
  pub sse_connect_denied :
      (response : Response)
      → verdict ≡ some response
      → sse_connect uuid now r k world ≡ (denied response, world)
  unfolding sse_connect
  sse_connect_denied response e = rw (e, sse_connect)

  -- Any other request opens a session: it is registered under the fresh id, and `on_connect` is
  -- called once.
  pub opened : ConnectionInfo × M.Sender × World S E
  opened = open_session uuid now r k world

  pub sse_connect_accepted :
      verdict ≡ none
      → sse_connect uuid now r k world
        ≡ (streaming (start_stream r opened.0 opened.1 opened.2), opened.2)
  unfolding sse_connect opened
  sse_connect_accepted e = rw (e, sse_connect)

  open_session_lem :
      (opened.0 ≡ session_info)
      × (opened.2.env ≡ call_back k.on_connect session_info world.env)
      × (opened.2.manager
          ≡ (register uuid now r.channel_id
              (client_ip r)
              (r.headers (codes "user-agent"))
              world.manager
              world.wires).2)
  unfolding opened open_session register
  open_session_lem = (refl, refl, refl)

  abbrev pub ended : World S E
  ended = (drop_stream k (start_stream r opened.0 opened.1 opened.2) opened.2).1

  -- Let the index agree with the table and the uuid be new to it. When the stream of a session
  -- that was opened is dropped, each entry of the table and the ids of each channel are what they
  -- were before the request, and `on_disconnect` was called once, after `on_connect` was, with the
  -- same info.
  pub session_roundtrip :
      IsIndexed world.manager
      → D.get uuid world.manager.connections ≡ none
      → ((j : Text) → D.get j ended.manager.connections ≡ D.get j world.manager.connections)
        × ((d : Text) → channel_ids d ended.manager ≡ channel_ids d world.manager)
        × (ended.env
            ≡ call_back k.on_disconnect session_info
                (call_back k.on_connect session_info world.env))
  unfolding opened open_session start_stream drop_stream register
  session_roundtrip h fresh =
      let back =
        unregister-register uuid now r.channel_id (client_ip r) (r.headers (codes "user-agent"))
          world.manager world.wires h fresh in
      (back.0, back.1, refl)
