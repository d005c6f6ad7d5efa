-- ===== src/System/Sound/Enter.antt =====
-- A connect request is registered, and its response begins.
use mathlib.Core.List.{map-append}
use sse_gateway.Prelude.{
  ℕ, ◌≡◌, refl, sym, subst, ap, ◌∙◌, Text, codes, Option, none, some, false, true, List, [], ◌∷◌,
  ◌++◌, contains, contains-append, concat-Distinct, Distinct, All, All-map, All-append, All-middle,
  All-put, All-without, arith, inl, inr, text_dec,
}
use sse_gateway.Extern.Json.{Json}
use sse_gateway.Extern.DashMap.{DashMap}
use sse_gateway.Extern.Mpsc.{Mpsc}
use sse_gateway.Extern.SseFrame.{SseFrame}
use sse_gateway.Event.{SseEvent}
use sse_gateway.Connection.{SseConnection}
use sse_gateway.Manager.{ConnectionManager, register}
use sse_gateway.Manager.Index.{get-register, register-IsIndexed}
use sse_gateway.Manager.Senders.{IsWired, register-IsWired, register_cases}
use sse_gateway.Storage.Trait.{MessageStorage}
use sse_gateway.Handler.{World, Callbacks}
use sse_gateway.Session.{ConnectRequest, client_ip, open_session}
use sse_gateway.System.{System, Session, enter, respond}
use sse_gateway.System.Sound.{IsHeld, IsSound, session_id, ids, ids-middle, IsSound_sessions}

module _ ⦃J : Json⦄ ⦃D : DashMap⦄ ⦃M : Mpsc SseEvent⦄ ⦃F : SseFrame⦄ {S : MessageStorage}
    {E : Type 0} where
  -- Registration leaves the other sessions' connections alone.
  module _ (uuid : Text) (now : ℕ) (c : Text) (ip agent : Option Text) (world : World S E) where
    abbrev registered : SseConnection × M.Sender × ConnectionManager × M.State
    registered = register uuid now c ip agent world.manager world.wires

    new_channel :
        (registered.0.sender ≡ registered.1)
        × (registered.0.channel_id ≡ c)
        × (M.is_closed registered.0.sender registered.3 ≡ false)
    unfolding register
    new_channel = (refl, refl, M.channel_open 100 world.wires)

    closed_before :
        (t : M.Sender)
        → M.IsMade world.wires t
        → M.is_closed t registered.3 ≡ M.is_closed t world.wires
    unfolding register
    closed_before t made = M.is_closed-channel 100 t world.wires made

    get_other :
        (id : Text) (conn : SseConnection)
        → D.get uuid world.manager.connections ≡ none
        → D.get id world.manager.connections ≡ some conn
        → D.get id registered.2.connections ≡ some conn
    get_other id conn fresh g = ground (
      arith,
      get-register uuid now c ip agent world.manager world.wires id,
      ap (λ k. D.get {V = SseConnection} k world.manager.connections) {x = id} {y = uuid},
    )

    get_new : D.get uuid registered.2.connections ≡ some registered.0
    get_new = ground (arith, get-register uuid now c ip agent world.manager world.wires uuid)

    IsHeld-registered :
        (env : E) (x : Session)
        → IsWired world.manager world.wires
        → D.get uuid world.manager.connections ≡ none
        → IsHeld world x
        → IsHeld (record world { manager = registered.2; wires = registered.3; env = env }) x
    IsHeld-registered env x wired fresh h = record {
      conn = h.conn;
      there = get_other (session_id x) h.conn fresh h.there;
      its = h.its;
      channel = h.channel;
      live = closed_before h.conn.sender (wired.made _ h.conn h.there) ∙ h.live;
    }

  -- a session's id is not fresh
  held_ids :
      (uuid : Text) (world : World S E) (l : List Session)
      → D.get uuid world.manager.connections ≡ none
      → All (IsHeld world) l
      → contains uuid (ids l) ≡ false
  held_ids uuid world [] fresh h = refl
  held_ids uuid world (x ∷ l) fresh h = elim (text_dec uuid (session_id x)) [
    | yes p ↦
        absurd (false_some (sym fresh ∙ ap (λ k. D.get k world.manager.connections) p ∙ h.0.there))
    | no p ↦ ground (arith, held_ids uuid world l fresh h.1)
  ]
    where
      false_some : {a : SseConnection} → none ≡ some a → ⊥
      false_some e = cc

module _ ⦃J : Json⦄ ⦃D : DashMap⦄ ⦃M : Mpsc SseEvent⦄ ⦃F : SseFrame⦄ {S : MessageStorage}
    {Response E : Type 0} where
  -- the session that a request opens
  abbrev entered_session : Text → ℕ → ConnectRequest → Callbacks Response E → World S E → Session
  entered_session uuid now r k world =
      let (info, receiver, world') = open_session uuid now r k world in
      record { request = r; info = info; receiver = receiver; replay = none }

  pub enter-IsSound :
      (uuid : Text) (now : ℕ) (r : ConnectRequest) (k : Callbacks Response E) (s : System S E)
      → D.get uuid s.world.manager.connections ≡ none
      → IsSound s
      → IsSound (enter uuid now r k s)
  unfolding enter open_session register
  enter-IsSound uuid now r k s fresh h =
      let ip = client_ip r in
      let agent = r.headers (codes "user-agent") in
      let t : System S E = enter uuid now r k s in
      let x : Session = entered_session uuid now r k s.world in
      let split : ids (s.sessions ++ x ∷ []) ≡ ids s.sessions ++ uuid ∷ [] =
        map-append session_id s.sessions (x ∷ []) in
      let there =
        λ (id : Text). ap (contains id) split ∙ contains-append id (ids s.sessions) (uuid ∷ []) in
      record {
        indexed =
            register-IsIndexed uuid now r.channel_id ip agent s.world.manager s.world.wires
              h.indexed fresh;
        wired =
            register-IsWired uuid now r.channel_id ip agent s.world.manager s.world.wires h.wired;
        held =
            All-append (IsHeld t.world) s.sessions (x ∷ [])
              (All-map
                (λ y.
                  IsHeld-registered uuid now r.channel_id ip agent s.world t.world.env y h.wired
                    fresh)
                s.sessions h.held)
              (
                record {
                  conn = (registered uuid now r.channel_id ip agent s.world).0;
                  there = get_new uuid now r.channel_id ip agent s.world;
                  its = refl;
                  channel = refl;
                  live = (new_channel uuid now r.channel_id ip agent s.world).2;
                },
                tt,
              );
        distinct = subst Distinct (sym split) (
            concat-Distinct uuid (ids s.sessions) h.distinct
              (held_ids uuid s.world s.sessions fresh h.held));
        owned = λ id conn g live.
            elim (register_cases uuid now r.channel_id ip agent s.world.manager s.world.wires id
              conn g) [
                | inl (p, q) ↦ ground (arith, there id)
                | inr (p, q) ↦
                    let old : contains id (ids s.sessions) ≡ true = h.owned id conn q (
                      sym (
                        closed_before uuid now r.channel_id ip agent s.world conn.sender
                          (h.wired.made id conn q))
                      ∙ live) in
                    ground (arith, there id)
              ];
      }

module _ ⦃J : Json⦄ ⦃D : DashMap⦄ ⦃M : Mpsc SseEvent⦄ ⦃F : SseFrame⦄ {S : MessageStorage}
    {E : Type 0} where
  pub respond-IsSound :
      (before : List Session) (x : Session) (after : List Session) (s : System S E)
      → s.sessions ≡ before ++ x ∷ after
      → IsSound s
      → IsSound (record s { sessions = before ++ respond s.world x ∷ after })
  unfolding respond
  respond-IsSound before x after s e h =
      let k : IsSound (record s { sessions = before ++ x ∷ after }) = IsSound_sessions e h in
      let y = respond s.world x in
      let same : ids (before ++ x ∷ after) ≡ ids (before ++ y ∷ after) =
        ids-middle before x after ∙ sym (ids-middle before y after) in
      let its : IsHeld s.world x = All-middle (IsHeld s.world) before x after k.held in
      record {
        indexed = k.indexed;
        wired = k.wired;
        held =
            All-put (IsHeld s.world) before y after
              (record {
                conn = its.conn;
                there = its.there;
                its = its.its;
                channel = its.channel;
                live = its.live;
              })
              (All-without (IsHeld s.world) before x after k.held);
        distinct = subst Distinct same k.distinct;
        owned = λ id conn g live. sym (ap (contains id) same) ∙ k.owned id conn g live;
      }
