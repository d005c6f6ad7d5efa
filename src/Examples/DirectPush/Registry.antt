-- ===== src/Examples/DirectPush/Registry.antt =====
-- What the registry of the direct push example says of a channel.
use sse_gateway.Prelude.{
  ◌≡◌, ◌≢◌, refl, ap, ◌∙◌, Text, ==_refl, none, some, Bool, true, false, List, [], ◌∷◌, ◌++◌, All,
  arith,
}
use sse_gateway.Extern.Mpsc.{Mpsc}
use sse_gateway.Source.{IncomingMessage, ConnectionInfo}
use sse_gateway.Examples.DirectPush.{DirectPushSource, on_connect, on_disconnect}

-- A callback, and whether it got the lock of the registry.
pub data Call : Type 0 where
  connected : Bool → ConnectionInfo → Call
  disconnected : Bool → ConnectionInfo → Call

-- the callback does not write to the channel's entry
abbrev pub Spares : Text → Call → Type 0
Spares c (connected free info) = (free ≡ true) → c ≢ info.channel_id
Spares c (disconnected free info) = (free ≡ true) → c ≢ info.channel_id

module _ ⦃N : Mpsc IncomingMessage⦄ where
  abbrev pub call : Call → DirectPushSource → DirectPushSource
  call (connected free info) source = on_connect free info source
  call (disconnected free info) source = on_disconnect free info source

  abbrev pub call_all : List Call → DirectPushSource → DirectPushSource
  call_all [] source = source
  call_all (x ∷ l) source = call_all l (call x source)

  call_all-append :
      (l r : List Call) (source : DirectPushSource)
      → call_all (l ++ r) source ≡ call_all r (call_all l source)
  call_all-append [] r source = refl
  call_all-append (x ∷ l) r source = call_all-append l r (call x source)

  call-Spares :
      (x : Call) (c : Text) (source : DirectPushSource)
      → Spares c x
      → (call x source).channel_registry c ≡ source.channel_registry c
  unfolding on_connect on_disconnect
  call-Spares (connected true info) c source h = ground (arith, h refl)
  call-Spares (connected false info) c source h = refl
  call-Spares (disconnected true info) c source h = ground (arith, h refl)
  call-Spares (disconnected false info) c source h = refl

  call_all-Spares :
      (l : List Call) (c : Text) (source : DirectPushSource)
      → All (Spares c) l
      → (call_all l source).channel_registry c ≡ source.channel_registry c
  call_all-Spares [] c source h = refl
  call_all-Spares (x ∷ l) c source h =
      call_all-Spares l c (call x source) h.1 ∙ call-Spares x c source h.0

  call_addr :
      (x : Call) (source : DirectPushSource) → (call x source).gateway_addr ≡ source.gateway_addr
  unfolding on_connect on_disconnect
  call_addr (connected true info) source = refl
  call_addr (connected false info) source = refl
  call_addr (disconnected true info) source = refl
  call_addr (disconnected false info) source = refl

  call_all_addr :
      (l : List Call) (source : DirectPushSource)
      → (call_all l source).gateway_addr ≡ source.gateway_addr
  call_all_addr [] source = refl
  call_all_addr (x ∷ l) source = call_all_addr l (call x source) ∙ call_addr x source

  -- If no later callback writes to a channel's entry, the channel is mapped to the address after
  -- an `on_connect` that got the lock, and to nothing after such an `on_disconnect`.
  last_call_counts :
      (before after : List Call) (info : ConnectionInfo) (source : DirectPushSource)
      → All (Spares info.channel_id) after
      → ((call_all (before ++ connected true info ∷ after) source).channel_registry info.channel_id
          ≡ some source.gateway_addr)
        × ((call_all (before ++ disconnected true info ∷ after) source).channel_registry
              info.channel_id
            ≡ none)
  unfolding on_connect on_disconnect
  last_call_counts before after info source h =
      let s = call_all before source in
      let registry = λ (t : DirectPushSource). t.channel_registry info.channel_id in
      (
        ap registry (call_all-append before (connected true info ∷ after) source)
            ∙ call_all-Spares after info.channel_id (call (connected true info) s) h
            ∙ rw (==_refl info.channel_id) (ap some (call_all_addr before source)),
        ap registry (call_all-append before (disconnected true info ∷ after) source)
            ∙ call_all-Spares after info.channel_id (call (disconnected true info) s) h
            ∙ rw (==_refl info.channel_id),
      )
