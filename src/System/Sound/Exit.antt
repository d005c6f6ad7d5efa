-- ===== src/System/Sound/Exit.antt =====
-- A client goes away, before or during its response.
use mathlib.Core.List.{map-append}
use sse_gateway.Prelude.{
  ◌≡◌, ◌≢◌, refl, sym, subst, ap, ◌∙◌, Text, ◌==◌, Option, none, some, false, true, List, [], ◌∷◌,
  ◌++◌, contains, contains-middle, Distinct-middle, Distinct, All, All-middle, All-without, arith,
  if◌then◌else◌, text_dec,
}
use sse_gateway.Extern.Json.{Json}
use sse_gateway.Extern.DashMap.{DashMap}
use sse_gateway.Extern.Mpsc.{Mpsc}
use sse_gateway.Extern.SseFrame.{SseFrame}
use sse_gateway.Event.{SseEvent}
use sse_gateway.Connection.{SseConnection}
use sse_gateway.Manager.{ConnectionManager, unregister}
use sse_gateway.Manager.Index.{IsIndexed, get-unregister, unregister-IsIndexed}
use sse_gateway.Manager.Senders.{IsWired, unregister-IsWired}
use sse_gateway.Storage.Trait.{MessageStorage}
use sse_gateway.Handler.{World, Callbacks}
use sse_gateway.Session.{drop_stream}
use sse_gateway.System.{System, Session, leave, abort}
use sse_gateway.System.Sound.{IsHeld, IsSound, session_id, ids, ids-middle, IsSound_sessions}

module _ ⦃J : Json⦄ ⦃D : DashMap⦄ ⦃M : Mpsc SseEvent⦄ where
  pub close-IsWired :
      (t : M.Sender) (m : ConnectionManager) (w : M.State) → IsWired m w → IsWired m (M.close t w)
  close-IsWired t m w h = record {
    named = h.named;
    made = λ i a g. M.close_keeps a.sender t w (h.made i a g);
    apart = h.apart;
  }

module _ ⦃J : Json⦄ ⦃D : DashMap⦄ ⦃M : Mpsc SseEvent⦄ ⦃F : SseFrame⦄ {S : MessageStorage}
    {E : Type 0} (world : World S E) (x : Session) (wired : IsWired world.manager world.wires)
    (held : IsHeld world x) where
  -- no other connection sends to the session's channel
  pub other_sender :
      (id : Text) (conn : SseConnection)
      → D.get id world.manager.connections ≡ some conn
      → id ≢ session_id x
      → conn.sender ≢ x.receiver
  other_sender id conn g ne same =
      ne (wired.apart id (session_id x) conn held.conn g held.there (same ∙ sym held.its))

  pub closed_other :
      (id : Text) (conn : SseConnection)
      → D.get id world.manager.connections ≡ some conn
      → id ≢ session_id x
      → M.is_closed conn.sender (M.close x.receiver world.wires)
        ≡ M.is_closed conn.sender world.wires
  closed_other id conn g ne =
      M.is_closed-close_ne conn.sender x.receiver world.wires (other_sender id conn g ne)

  -- the other sessions keep their connections, whatever else becomes of the table
  others-IsHeld :
      (world' : World S E) (l : List Session)
      → world'.wires ≡ M.close x.receiver world.wires
      → ((id : Text)
          → id ≢ session_id x
          → D.get id world'.manager.connections ≡ D.get id world.manager.connections)
      → contains (session_id x) (ids l) ≡ false
      → All (IsHeld world) l
      → All (IsHeld world') l
  others-IsHeld world' [] e same out h = tt
  others-IsHeld world' (y ∷ l) e same out h =
      let ne : session_id y ≢ session_id x =
        λ p. apart_id (session_id x) (session_id y) (ids l) out (sym p) in
      (
        record {
          conn = h.0.conn;
          there = same (session_id y) ne ∙ h.0.there;
          its = h.0.its;
          channel = h.0.channel;
          live =
              ap (M.is_closed h.0.conn.sender) e
              ∙ closed_other (session_id y) h.0.conn h.0.there ne
              ∙ h.0.live;
        },
        others-IsHeld world' l e same (tail_out (session_id x) (session_id y) (ids l) out) h.1,
      )
    where
      apart_id : (a b : Text) (l : List Text) → contains a (b ∷ l) ≡ false → a ≢ b
      apart_id a b l c p = ground (arith)

      tail_out : (a b : Text) (l : List Text) → contains a (b ∷ l) ≡ false → contains a l ≡ false
      tail_out a b l c = ground (arith)

module _ ⦃J : Json⦄ ⦃D : DashMap⦄ ⦃M : Mpsc SseEvent⦄ ⦃F : SseFrame⦄ {S : MessageStorage}
    {E : Type 0} where
  -- A session goes, with its receiver; its connection may stay in the table or go, too.
  without :
      (before : List Session) (x : Session) (after : List Session) (s : System S E)
      (world' : World S E)
      → s.sessions ≡ before ++ x ∷ after
      → IsSound s
      → world'.wires ≡ M.close x.receiver s.world.wires
      → IsIndexed world'.manager
      → IsWired world'.manager world'.wires
      → ((id : Text)
          → id ≢ session_id x
          → D.get id world'.manager.connections ≡ D.get id s.world.manager.connections)
      → ((conn : SseConnection)
          → D.get (session_id x) world'.manager.connections ≡ some conn
          → conn.sender ≡ x.receiver)
      → IsSound (record { world = world'; sessions = before ++ after })
  without before x after s world' e h cl indexed wired same mine =
      let k : IsSound (record s { sessions = before ++ x ∷ after }) = IsSound_sessions e h in
      let its : IsHeld s.world x = All-middle (IsHeld s.world) before x after k.held in
      let me = session_id x in
      let split = ids-middle before x after in
      let (d, out) =
        Distinct-middle me (ids before) (ids after) (subst Distinct split k.distinct) in
      let join : ids (before ++ after) ≡ ids before ++ ids after =
        map-append session_id before after in
      record {
        indexed = indexed;
        wired = wired;
        held =
            others-IsHeld s.world x h.wired its world' (before ++ after) cl same
              (ap (contains me) join ∙ out) (All-without (IsHeld s.world) before x after k.held);
        distinct = subst Distinct (sym join) d;
        owned = λ id conn g live. elim (text_dec id me) [
          | yes p ↦
              let to_me : conn.sender ≡ x.receiver =
                mine conn (subst (λ i. D.get i world'.manager.connections ≡ some conn) p g) in
              let dead : M.is_closed conn.sender world'.wires ≡ true =
                ap (M.is_closed conn.sender) cl
                ∙ ap (λ t. M.is_closed t (M.close x.receiver s.world.wires)) to_me
                ∙ M.is_closed-close_self x.receiver s.world.wires in
              cc
          | no p ↦
              let was = sym (same id p) ∙ g in
              let lived =
                sym (closed_other s.world x h.wired its id conn was p)
                ∙ sym (ap (M.is_closed conn.sender) cl)
                ∙ live in
              ground (
                arith,
                ap (contains id) join,
                ap (contains id) split,
                contains-middle id me (ids before) (ids after),
                k.owned id conn was lived,
              )
        ];
      }

  pub abort-IsSound :
      (before : List Session) (x : Session) (after : List Session) (s : System S E)
      → s.sessions ≡ before ++ x ∷ after
      → IsSound s
      → IsSound (abort x (before ++ after) s)
  unfolding abort
  abort-IsSound before x after s e h =
      let k : IsSound (record s { sessions = before ++ x ∷ after }) = IsSound_sessions e h in
      let its : IsHeld s.world x = All-middle (IsHeld s.world) before x after k.held in
      without before x after s (record s.world { wires = M.close x.receiver s.world.wires }) e h
        refl h.indexed (close-IsWired x.receiver s.world.manager s.world.wires h.wired)
        (λ id ne. refl)
        λ conn g.
          ap (λ (c : SseConnection). c.sender) (same_some conn its.conn (sym g ∙ its.there))
          ∙ its.its
    where
      same_some : (a b : SseConnection) → some a ≡ some b → a ≡ b
      same_some a b p = cc

module _ ⦃J : Json⦄ ⦃D : DashMap⦄ ⦃M : Mpsc SseEvent⦄ ⦃F : SseFrame⦄ {S : MessageStorage}
    {Response E : Type 0} where
  pub leave-IsSound :
      (k : Callbacks Response E) (before : List Session) (x : Session) (after : List Session)
      (replay : List F.Event) (s : System S E)
      → s.sessions ≡ before ++ x ∷ after
      → IsSound s
      → IsSound (leave k x replay (before ++ after) s)
  unfolding leave drop_stream
  leave-IsSound k before x after replay s e h =
      let m = s.world.manager in
      let me = session_id x in
      without before x after s (leave k x replay (before ++ after) s).world e h refl
        (unregister-IsIndexed me m h.indexed)
        (close-IsWired x.receiver (unregister me m) s.world.wires
          (unregister-IsWired me m s.world.wires h.wired))
        (λ id ne. ground (arith, get-unregister me m id))
        λ conn g. absurd (gone me (D.get me m.connections) conn (sym (get-unregister me m me) ∙ g))
    where
      gone :
          (i : Text) (o : Option SseConnection) (conn : SseConnection)
          → (if i == i then none else o) ≡ some conn
          → ⊥
      gone i o conn p = ground arith
