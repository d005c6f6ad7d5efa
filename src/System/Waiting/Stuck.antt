-- ===== src/System/Waiting/Stuck.antt =====
-- A delivery that waits for room in the channel of a client that has left: what no move ends.
use sse_gateway.Prelude.{
  ℕ, ◌≡◌, ◌≢◌, ◌⊎◌, inl, inr, sym, ap, ◌∙◌, subst, Text, Option, none, some, Bool, true, false,
  List, ◌∷◌, ◌++◌, All, All-middle, All-put, All-without, Any, Any-put, Any-without, Any-All,
}
use sse_gateway.Extern.Json.{Json}
use sse_gateway.Extern.DashMap.{DashMap}
use sse_gateway.Extern.Mpsc.{Mpsc}
use sse_gateway.Extern.Room.{Room}
use sse_gateway.Event.{SseEvent}
use sse_gateway.Connection.{SseConnection}
use sse_gateway.Manager.{ConnectionManager}
use sse_gateway.System.Waiting.{
  Caller, in_request, in_task, Phase, starting, polled, dropping, cleaned_up, Sending, Stream,
  Tables, Spares, IsFree,
}

module _ ⦃J : Json⦄ ⦃M : Mpsc SseEvent⦄ (id : Text) (receiver : M.Sender) where
  -- the send of a task holds the entry of the connection and awaits its channel
  abbrev pub WaitsFor : Sending → Type 0
  WaitsFor x =
      (conn : SseConnection) × (x.caller ≡ in_task)
      × (x.held ≡ some (id, conn))
      × (conn.sender ≡ receiver)

  -- the stream of the channel is being dropped and has not been cleaned up
  abbrev pub IsDropping : Stream → Type 0
  IsDropping y = (y.id ≡ id) × (y.receiver ≡ receiver) × (y.phase ≡ dropping)

  -- no other stream has the channel
  abbrev pub IsAlone : Stream → Type 0
  IsAlone y = y.receiver ≡ receiver → IsDropping y

module _ ⦃J : Json⦄ ⦃D : DashMap⦄ ⦃M : Mpsc SseEvent⦄ ⦃R : Room SseEvent⦄ (id : Text)
    (receiver : M.Sender) where
  -- Each waits for the other: the send for room, the cleanup for the guard of the send.
  pub record IsStuck (s : Tables) : Type 0 where
    pub waits : Any (WaitsFor id receiver) s.sends
    pub drops : Any (IsDropping id receiver) s.streams
    pub alone : All (IsAlone id receiver) s.streams
    pub made : M.IsMade s.wires receiver
    pub full : R.has_room receiver s.wires ≡ false
    pub open_ : M.is_closed receiver s.wires ≡ false

module _ {A : Type 0} where
  none-some : {a : A} → ◌≡◌ {A = Option A} none (some a) → ⊥
  none-some e = cc

module _ ⦃J : Json⦄ ⦃M : Mpsc SseEvent⦄ where
  pub same_held :
      {o : Option (Text × SseConnection)} {k l : Text} {c d : SseConnection}
      → o ≡ some (k, c)
      → o ≡ some (l, d)
      → c ≡ d
  same_held e f = cc

differ : {b : Bool} → b ≡ true → b ≡ false → ⊥
differ e f = cc

pub request_task : {c : Caller} → c ≡ in_request → c ≡ in_task → ⊥
request_task e f = cc

pub starting_dropping : {p : Phase} → p ≡ starting → p ≡ dropping → ⊥
starting_dropping e f = cc

pub polled_dropping : {p : Phase} → p ≡ polled → p ≡ dropping → ⊥
polled_dropping e f = cc

pub cleaned_dropping : {p : Phase} → p ≡ cleaned_up → p ≡ dropping → ⊥
cleaned_dropping e f = cc

module _ ⦃J : Json⦄ ⦃D : DashMap⦄ ⦃M : Mpsc SseEvent⦄ ⦃R : Room SseEvent⦄ (id : Text)
    (receiver : M.Sender) where
  -- a stream that is not being dropped has another channel
  pub other_receiver :
      (before : List Stream) (y : Stream) (after : List Stream) (s : Tables)
      → s.streams ≡ before ++ y ∷ after
      → (y.phase ≡ dropping → ⊥)
      → IsStuck id receiver s
      → receiver ≢ y.receiver
  other_receiver before y after s e n h same =
      let p =
        All-middle (IsAlone id receiver) before y after
          (subst (All (IsAlone id receiver)) e h.alone) in
      n (p (sym same)).2

  -- what a change of one other stream keeps
  stream_changed :
      (before : List Stream) (y y' : Stream) (after : List Stream) (s : Tables)
      → s.streams ≡ before ++ y ∷ after
      → receiver ≢ y.receiver
      → y'.receiver ≡ y.receiver
      → IsStuck id receiver s
      → Any (IsDropping id receiver) (before ++ y' ∷ after)
        × All (IsAlone id receiver) (before ++ y' ∷ after)
  stream_changed before y y' after s e n same h =
      let drops = subst (Any (IsDropping id receiver)) e h.drops in
      let alone = subst (All (IsAlone id receiver)) e h.alone in
      (
        Any-put (IsDropping id receiver) before y y' after (λ p. absurd (n (sym p.1))) drops,
        All-put (IsAlone id receiver) before y' after (λ p. absurd (n (sym (sym same ∙ p))))
            (All-without (IsAlone id receiver) before y after alone),
      )

  pub send_changed :
      (before : List Sending) (x x' : Sending) (after : List Sending) (s : Tables)
      → s.sends ≡ before ++ x ∷ after
      → (WaitsFor id receiver x → ⊥)
      → IsStuck id receiver s
      → Any (WaitsFor id receiver) (before ++ x' ∷ after)
  send_changed before x x' after s e n h =
      Any-put (WaitsFor id receiver) before x x' after (λ p. absurd (n p))
        (subst (Any (WaitsFor id receiver)) e h.waits)

  pub not_waiting : (x : Sending) → x.held ≡ none → WaitsFor id receiver x → ⊥
  not_waiting x e (conn, _, there, _) = none-some (sym e ∙ there)

  -- a channel with room, or a closed one, is another
  pub not_ready :
      (s : Tables) (sender : M.Sender)
      → (R.has_room sender s.wires ≡ true) ⊎ (M.is_closed sender s.wires ≡ true)
      → IsStuck id receiver s
      → receiver ≢ sender
  not_ready s sender (inl room) h same =
      differ room (ap (λ t. R.has_room t s.wires) (sym same) ∙ h.full)
  not_ready s sender (inr over) h same =
      differ over (ap (λ t. M.is_closed t s.wires) (sym same) ∙ h.open_)

  -- what a change of the sends keeps
  pub sends-IsStuck :
      (s : Tables) (l : List Sending)
      → Any (WaitsFor id receiver) l
      → IsStuck id receiver s
      → IsStuck id receiver (record s { sends = l })
  sends-IsStuck s l waits h = record {
    waits = waits;
    drops = h.drops;
    alone = h.alone;
    made = h.made;
    full = h.full;
    open_ = h.open_;
  }

  -- what a change of one other stream, and of the tables, keeps
  pub stream-IsStuck :
      (before : List Stream) (y y' : Stream) (after : List Stream) (s : Tables)
      (m : ConnectionManager)
      → s.streams ≡ before ++ y ∷ after
      → receiver ≢ y.receiver
      → y'.receiver ≡ y.receiver
      → IsStuck id receiver s
      → IsStuck id receiver (record s { manager = m; streams = before ++ y' ∷ after })
  stream-IsStuck before y y' after s m e n same h =
      let (drops, alone) = stream_changed before y y' after s e n same h in
      record {
        drops = drops;
        alone = alone;
        waits = h.waits;
        made = h.made;
        full = h.full;
        open_ = h.open_;
      }

  -- what the end of one other stream keeps
  pub end-IsStuck :
      (before : List Stream) (y : Stream) (after : List Stream) (s : Tables)
      → s.streams ≡ before ++ y ∷ after
      → receiver ≢ y.receiver
      → IsStuck id receiver s
      → IsStuck id receiver
          (record s { wires = M.close y.receiver s.wires; streams = before ++ after })
  end-IsStuck before y after s e n h =
      let drops = subst (Any (IsDropping id receiver)) e h.drops in
      let alone = subst (All (IsAlone id receiver)) e h.alone in
      record {
        drops = Any-without (IsDropping id receiver) before y after (λ q. n (sym q.1)) drops;
        alone = All-without (IsAlone id receiver) before y after alone;
        made = M.close_keeps receiver y.receiver s.wires h.made;
        full = R.has_room-close_ne receiver y.receiver s.wires n ∙ h.full;
        open_ = M.is_closed-close_ne receiver y.receiver s.wires n ∙ h.open_;
        waits = h.waits;
      }

module _ (shard : Text → ℕ) ⦃J : Json⦄ ⦃D : DashMap⦄ ⦃M : Mpsc SseEvent⦄ ⦃R : Room SseEvent⦄
    (id : Text) (receiver : M.Sender) where
  -- the cleanup of the stream waits for the guard of the send
  pub blocked :
      (before : List Stream) (y : Stream) (after : List Stream) (s : Tables)
      → s.streams ≡ before ++ y ∷ after
      → receiver ≡ y.receiver
      → IsFree shard y.id s.sends
      → IsStuck id receiver s
      → ⊥
  blocked before y after s e same free h =
      let p =
        All-middle (IsAlone id receiver) before y after
          (subst (All (IsAlone id receiver)) e h.alone) (sym same) in
      let (x, (conn, _, there, _), spared) =
        Any-All (WaitsFor id receiver) {Q = λ (x : Sending). Spares shard y.id x.held} s.sends
          h.waits free in
      subst (Spares shard y.id) there spared (ap shard p.0)
