-- ===== src/Examples/Webhook/Posts.antt =====
-- Requests to the webhook, as long as its queue has room.
use sse_gateway.Prelude.{
  ◌≡◌, refl, sym, ap, ◌∙◌, Text, codes, false, List, [], ◌∷◌, ◌++◌, map, append_assoc, append-nil,
}
use sse_gateway.Extern.Json.{Json}
use sse_gateway.Extern.Mpsc.{Mpsc}
use sse_gateway.Source.{IncomingMessage}
use sse_gateway.Examples.Webhook.{WebhookPayload, webhook_message, handle_webhook}

module _ ⦃J : Json⦄ ⦃N : Mpsc IncomingMessage⦄ where
  -- requests that are handled one after the other, with their answers
  abbrev pub post_all : List WebhookPayload → N.Sender → N.State → List Text × N.State
  post_all [] sender w = ([], w)
  post_all (p ∷ l) sender w =
      let (answer, w') = handle_webhook p sender w in
      let (answers, w'') = post_all l sender w' in (answer ∷ answers, w'')

  -- Requests that come while the receiver is there are each answered with `OK`, and their messages are
  -- queued in order.
  post_all_lem :
      (l : List WebhookPayload) (sender : N.Sender) (w : N.State)
      → N.is_closed sender w ≡ false
      → ((post_all l sender w).0 ≡ map (λ p. codes "OK") l)
        × (N.accepted sender (post_all l sender w).1 ≡ N.accepted sender w ++ map webhook_message l)
  unfolding handle_webhook
  post_all_lem [] sender w open_ = (refl, sym (append-nil _))
  post_all_lem (p ∷ l) sender w open_ =
      let m = webhook_message p in
      let rest =
        post_all_lem l sender (N.send sender m w).1 (N.is_closed-send sender sender m w ∙ open_) in
      (
        rw (N.send_result sender m w, open_) (ap (λ l. codes "OK" ∷ l) rest.0),
        rest.1
            ∙ rw (N.accepted-send_self sender m w, open_)
                (append_assoc (N.accepted sender w) (m ∷ []) (map webhook_message l)),
      )
