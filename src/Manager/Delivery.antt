-- ===== src/Manager/Delivery.antt =====
-- Who receives what `send_to_channel` sends, and what it returns.
use sse_gateway.Prelude.{
  ℕ, ◌+◌, ◌≡◌, refl, sym, ap, ◌∙◌, ◌≢◌, fun_ext, Text, ◌==◌, text_dec, none, some, Bool, false, not,
  ◌&&◌, List, [], ◌∷◌, ◌++◌, contains, Distinct, retain, length, if◌then◌else◌, arith, Option-cases,
  inl, inr,
}
use sse_gateway.Extern.Json.{Json}
use sse_gateway.Extern.DashMap.{DashMap}
use sse_gateway.Extern.Mpsc.{Mpsc}
use sse_gateway.Event.{SseEvent}
use sse_gateway.Connection.{SseConnection, is_active}
use sse_gateway.Manager.{ConnectionManager, send_each, send_to_channel, channel_ids}
use sse_gateway.Manager.Index.{IsIndexed}
use sse_gateway.Manager.Senders.{IsWired}

module _ ⦃J : Json⦄ ⦃D : DashMap⦄ ⦃M : Mpsc SseEvent⦄ where
  -- the id is registered, and its receiver is there
  unfoldable pub is_reachable : ConnectionManager → M.State → Text → Bool
  is_reachable m w id = elim (D.get id m.connections) [
    | none ↦ false
    | some conn ↦ is_active conn w
  ]

  -- what a channel holds once the event was sent to it or not
  abbrev pub after_send : Bool → SseEvent → List SseEvent → List SseEvent
  after_send sent e queue = if sent then queue ++ e ∷ [] else queue

  module _ (m : ConnectionManager) (x : Text) where
    is_reachable-none : (w : M.State) → D.get x m.connections ≡ none → is_reachable m w x ≡ false
    unfolding is_reachable
    is_reachable-none w q = rw (q, is_reachable)

    is_reachable-some :
        (w : M.State) (c : SseConnection)
        → D.get x m.connections ≡ some c
        → is_reachable m w x ≡ is_active c w
    unfolding is_reachable
    is_reachable-some w c q = rw (q, is_reachable)

  module _ (e : SseEvent) (m : ConnectionManager) where
    send_each_missing :
        (x : Text) (ids : List Text) (n : ℕ) (w : M.State)
        → D.get x m.connections ≡ none
        → send_each (x ∷ ids) e m n w ≡ send_each ids e m n w
    unfolding send_each
    send_each_missing x ids n w q = rw (q, send_each)

    pub send_each_found :
        (x : Text) (ids : List Text) (n : ℕ) (w : M.State) (c : SseConnection)
        → D.get x m.connections ≡ some c
        → send_each (x ∷ ids) e m n w
          ≡ send_each ids e m
              (if not (M.is_closed c.sender w) then n + 1 else n)
              (M.send c.sender e w).1
    unfolding send_each
    send_each_found x ids n w c q = rw (q, send_each) (rw (M.send_result c.sender e w))

    pub is_closed-send_each :
        (ids : List Text) (n : ℕ) (w : M.State) (s : M.Sender)
        → M.is_closed s (send_each ids e m n w).1 ≡ M.is_closed s w
    is_closed-send_each [] n w s = unfold send_each in refl
    is_closed-send_each (x ∷ ids) n w s = elim (Option-cases (D.get x m.connections)) [
      | inl q ↦ rw (send_each_missing x ids n w q) (is_closed-send_each ids n w s)
      | inr (c, q) ↦
          rw (send_each_found x ids n w c q)
            (is_closed-send_each ids _ _ s ∙ M.is_closed-send s c.sender e w)
    ]

    pub send_each_keeps :
        (ids : List Text) (n : ℕ) (w : M.State) (s : M.Sender)
        → M.IsMade w s
        → M.IsMade (send_each ids e m n w).1 s
    send_each_keeps [] n w s h = unfold send_each in h
    send_each_keeps (x ∷ ids) n w s h = elim (Option-cases (D.get x m.connections)) [
      | inl q ↦ rw (send_each_missing x ids n w q) (send_each_keeps ids n w s h)
      | inr (c, q) ↦
          rw (send_each_found x ids n w c q)
            (send_each_keeps ids _ _ s (M.send_keeps s c.sender e w h))
    ]

    is_reachable-send :
        (s : M.Sender) (w : M.State) (id : Text)
        → is_reachable m (M.send s e w).1 id ≡ is_reachable m w id
    is_reachable-send s w id = elim (Option-cases (D.get id m.connections)) [
      | inl q ↦ is_reachable-none m id _ q ∙ sym (is_reachable-none m id w q)
      | inr (c, q) ↦
          is_reachable-some m id _ c q
          ∙ ap not (M.is_closed-send c.sender s e w)
          ∙ sym (is_reachable-some m id w c q)
    ]

    pub send_each_count :
        (ids : List Text) (n : ℕ) (w : M.State)
        → (send_each ids e m n w).0 ≡ n + length (retain (is_reachable m w) ids)
    send_each_count [] n w = unfold send_each in omega arith
    send_each_count (x ∷ ids) n w = elim (Option-cases (D.get x m.connections)) [
      | inl q ↦
          rw (send_each_missing x ids n w q)
            (ground (arith, is_reachable-none m x w q, send_each_count ids n w))
      | inr (c, q) ↦
          rw
            (
              send_each_found x ids n w c q,
              send_each_count ids _ _,
              fun_ext (is_reachable-send c.sender w),
            )
            (ground (arith, is_reachable-some m x w c q))
    ]

    -- the loop serves each id of a list without repetition once
    pub accepted-send_each :
        {w0 : M.State} (ids : List Text) (n : ℕ) (w : M.State) (id : Text) (conn : SseConnection)
        → IsWired m w0
        → Distinct ids
        → D.get id m.connections ≡ some conn
        → M.accepted conn.sender (send_each ids e m n w).1
          ≡ after_send (contains id ids && is_active conn w) e (M.accepted conn.sender w)
    accepted-send_each [] n w id conn h d g = unfold send_each in refl
    accepted-send_each (x ∷ ids) n w id conn h d g = elim (Option-cases (D.get x m.connections)) [
      | inl q ↦
          rw (send_each_missing x ids n w q)
            (ground (arith, accepted-send_each ids n w id conn h d.1 g))
      | inr (c, q) ↦ rw (send_each_found x ids n w c q) (elim (text_dec id x) [
        | yes p ↦
            let same : conn ≡ c = cc (g, q, p) in
            rw (accepted-send_each ids _ _ id conn h d.1 g) (
              ground (
                arith,
                same,
                M.accepted-send_self c.sender e w,
                M.is_closed-send c.sender c.sender e w,
              ))
        | no p ↦
            let other : conn.sender ≢ c.sender = λ r. p (h.apart id x conn c g q r) in
            rw (accepted-send_each ids _ _ id conn h d.1 g) (
              ground (
                arith,
                M.accepted-send_ne conn.sender c.sender e w other,
                M.is_closed-send conn.sender c.sender e w,
              ))
      ])
    ]

  module _ (channel_id : Text) (e : SseEvent) (m : ConnectionManager) (w : M.State) where
    -- In a manager with consistent index and channels, `send_to_channel` appends the event once to
    -- the queue of each registered connection of the channel whose receiver is there, and changes
    -- the queue of no other registered connection.
    pub accepted-send_to_channel :
        (id : Text) (conn : SseConnection)
        → IsIndexed m
        → IsWired m w
        → D.get id m.connections ≡ some conn
        → M.accepted conn.sender (send_to_channel channel_id e m w).1 ≡ (
            if conn.channel_id == channel_id && not (M.is_closed conn.sender w)
            then M.accepted conn.sender w ++ e ∷ []
            else M.accepted conn.sender w)
    unfolding send_to_channel
    accepted-send_to_channel id conn i h g =
        rw
          (
            accepted-send_each e m (channel_ids channel_id m) 0 w id conn h (i.distinct channel_id)
                g,
            i.agrees channel_id id,
            g,
          )
          refl

    -- `send_to_channel` returns the number of the channel's ids whose connection is registered and
    -- has its receiver.
    send_to_channel_count :
        (send_to_channel channel_id e m w).0
        ≡ length (retain (is_reachable m w) (channel_ids channel_id m))
    unfolding send_to_channel
    send_to_channel_count = omega (arith, send_each_count e m (channel_ids channel_id m) 0 w)

    pub send_to_channel_keeps :
        (s : M.Sender) → M.IsMade w s → M.IsMade (send_to_channel channel_id e m w).1 s
    unfolding send_to_channel
    send_to_channel_keeps = send_each_keeps e m (channel_ids channel_id m) 0 w

    pub is_closed-send_to_channel :
        (s : M.Sender) → M.is_closed s (send_to_channel channel_id e m w).1 ≡ M.is_closed s w
    unfolding send_to_channel
    is_closed-send_to_channel = is_closed-send_each e m (channel_ids channel_id m) 0 w

    pub send_to_channel-IsWired : IsWired m w → IsWired m (send_to_channel channel_id e m w).1
    unfolding send_to_channel
    send_to_channel-IsWired h = record {
      named = h.named;
      made = λ i a g. send_each_keeps e m (channel_ids channel_id m) 0 w a.sender (h.made i a g);
      apart = h.apart;
    }
