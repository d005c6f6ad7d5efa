-- ===== src/Manager/Senders.antt =====
-- Every registered connection has a channel of its own.
use sse_gateway.Prelude.{ℕ, ◌≡◌, refl, sym, ap, ◌∙◌, ◌≢◌, ◌⊎◌, Text, Option, some, arith, inl, inr}
use sse_gateway.Extern.Json.{Json}
use sse_gateway.Extern.DashMap.{DashMap}
use sse_gateway.Extern.Mpsc.{Mpsc}
use sse_gateway.Event.{SseEvent}
use sse_gateway.Connection.{SseConnection}
use sse_gateway.Manager.{ConnectionManager, new, register, unregister}
use sse_gateway.Manager.Index.{get-register, get-unregister, register_fields}

module _ ⦃J : Json⦄ ⦃D : DashMap⦄ ⦃M : Mpsc SseEvent⦄ where
  -- A connection is stored under its own id, its channel was made, and no other entry sends to it.
  pub record IsWired (m : ConnectionManager) (w : M.State) : Type 0 where
    pub named : (i : Text) (a : SseConnection) → D.get i m.connections ≡ some a → a.id ≡ i
    pub made : (i : Text) (a : SseConnection) → D.get i m.connections ≡ some a → M.IsMade w a.sender
    pub apart :
        (i j : Text) (a b : SseConnection)
        → D.get i m.connections ≡ some a
        → D.get j m.connections ≡ some b
        → a.sender ≡ b.sender
        → i ≡ j

  pub new-IsWired : (instance_id : Text) (w : M.State) → IsWired (new instance_id) w
  unfolding new
  new-IsWired instance_id w = record {
    named = λ i a e. cc (D.get-empty {V = SseConnection} i);
    made = λ i a e. cc (D.get-empty {V = SseConnection} i);
    apart = λ i j a b e f g. cc (D.get-empty {V = SseConnection} i);
  }

  module _ (uuid : Text) (now : ℕ) (channel_id : Text) (ip agent : Option Text)
      (m : ConnectionManager) (w : M.State) where
    register_channel :
        ((register uuid now channel_id ip agent m w).0.sender ≡ (M.channel 100 w).0)
        × ((register uuid now channel_id ip agent m w).3 ≡ (M.channel 100 w).1)
    unfolding register
    register_channel = (refl, refl)

    -- An entry after a registration is the new one, or was there before.
    pub register_cases :
        (i : Text) (a : SseConnection)
        → D.get i (register uuid now channel_id ip agent m w).2.connections ≡ some a
        → ((i ≡ uuid) × (a ≡ (register uuid now channel_id ip agent m w).0))
          ⊎ ((i ≢ uuid) × (D.get i m.connections ≡ some a))
    register_cases i a e = ground (arith, get-register uuid now channel_id ip agent m w i)

    new_sender_made :
        M.IsMade
          (register uuid now channel_id ip agent m w).3
          (register uuid now channel_id ip agent m w).0.sender
    unfolding register
    new_sender_made = M.channel_made 100 w

    old_sender_made :
        (s : M.Sender) → M.IsMade w s → M.IsMade (register uuid now channel_id ip agent m w).3 s
    unfolding register
    old_sender_made s k = M.channel_keeps 100 s w k

    pub new_sender_fresh :
        (s : M.Sender) → M.IsMade w s → s ≢ (register uuid now channel_id ip agent m w).0.sender
    unfolding register
    new_sender_fresh s k = M.channel_fresh 100 s w k

    -- If each entry is stored under its own id and no two entries send to the same channel, the
    -- same holds after a registration.
    pub register-IsWired :
        IsWired m w → (let r = register uuid now channel_id ip agent m w in IsWired r.2 r.3)
    register-IsWired h = record {
      named = λ i a e. elim (register_cases i a e) [
        | inl (p, q) ↦ rw (q, p) (register_fields uuid now channel_id ip agent m w).0
        | inr (p, q) ↦ h.named i a q
      ];
      made = λ i a e. elim (register_cases i a e) [
        | inl (p, q) ↦ rw q new_sender_made
        | inr (p, q) ↦ old_sender_made a.sender (h.made i a q)
      ];
      apart = λ i j a b e f g. elim (register_cases i a e) [
        | inl (p, q) ↦ elim (register_cases j b f) [
          | inl (p', q') ↦ p ∙ sym p'
          | inr (p', q') ↦ absurd (
              new_sender_fresh b.sender (h.made j b q')
                (sym g ∙ ap (λ (c : SseConnection). c.sender) q))
        ]
        | inr (p, q) ↦ elim (register_cases j b f) [
          | inl (p', q') ↦ absurd (
              new_sender_fresh a.sender (h.made i a q)
                (g ∙ ap (λ (c : SseConnection). c.sender) q'))
          | inr (p', q') ↦ h.apart i j a b q q' g
        ]
      ];
    }

  pub unregister-IsWired :
      (id : Text) (m : ConnectionManager) (w : M.State) → IsWired m w → IsWired (unregister id m) w
  unregister-IsWired id m w h = record {
    named = λ i a e. h.named i a (kept i a e);
    made = λ i a e. h.made i a (kept i a e);
    apart = λ i j a b e f. h.apart i j a b (kept i a e) (kept j b f);
  }
    where
      kept :
          (i : Text) (a : SseConnection)
          → D.get i (unregister id m).connections ≡ some a
          → D.get i m.connections ≡ some a
      kept i a e = ground (arith, get-unregister id m i)
