-- ===== src/Server/Channels/Owner.antt =====
-- Which instance a channel is mapped to, after any interleaving of the instances.
use mathlib.Core.Option
use sse_gateway.Prelude.{
  ◌≡◌, refl, sym, ap, ◌∙◌, Text, codes, Option, none, some, ◌==◌, ltb, List, [], ◌∷◌, ◌++◌,
  if◌then◌else◌, arith,
}
use sse_gateway.Extern.Keyspace.{Keyspace}
use sse_gateway.Std.Affix.{strip_prefix-append, strip_suffix-append}
use sse_gateway.Server.Channels.{
  ChannelRegistry, channel_key, channel_of, register_channel, unregister_channel, delete_if,
  get_channel_instance,
}

-- A step at the server: a registry registers or unregisters a channel, or a key expires.
pub data Step : Type 0 where
  registered : Text → ChannelRegistry → Step
  unregistered : Text → ChannelRegistry → Step
  expired : Text → Step

module _ ⦃K : Keyspace⦄ where
  unfoldable pub step : Step → K.Db → K.Db
  step (registered c r) db = register_channel c r db
  step (unregistered c r) db = unregister_channel c r db
  step (expired c) db = K.del (channel_key c) db

  pub steps : List Step → K.Db → K.Db
  steps [] db = db
  steps (s ∷ l) db = steps l (step s db)

abbrev release : Text → Option Text → Option Text
release instance_id none = none
release instance_id (some held) = if held == instance_id then none else some held

-- The owner of one channel after a step, from its owner before.
abbrev pub owner_after : Text → Step → Option Text → Option Text
owner_after c (registered d r) o =
    if ltb 0 r.channel_ttl then if c == d then some r.instance_id else o else o
owner_after c (unregistered d r) o = if c == d then release r.instance_id o else o
owner_after c (expired d) o = if c == d then none else o

abbrev pub owner : Text → List Step → Option Text → Option Text
owner c [] o = o
owner c (s ∷ l) o = owner c l (owner_after c s o)

pub channel_of-channel_key : (c : Text) → channel_of (channel_key c) ≡ some c
unfolding channel_of channel_key Option.bind
channel_of-channel_key c =
    rw (strip_prefix-append (codes "channel:") (c ++ codes ":instance"), Option.bind)
      (strip_suffix-append (codes ":instance") c)

some_injective : (c d : Text) → some c ≡ some d → c ≡ d
some_injective c d e = cc

pub channel_key_injective : (c d : Text) → channel_key c ≡ channel_key d → c ≡ d
channel_key_injective c d e =
    some_injective c d (sym (channel_of-channel_key c) ∙ ap channel_of e ∙ channel_of-channel_key d)

pub channel_key-== : (c d : Text) → (channel_key c == channel_key d) ≡ (c == d)
channel_key-== c d = ground (arith, channel_key_injective c d, ap channel_key {x = c} {y = d})

module _ ⦃K : Keyspace⦄ where
  get-delete_if :
      (c d v : Text) (db : K.Db)
      → K.get (channel_key c) (delete_if (channel_key d) v db)
        ≡ (if c == d then release v (K.get (channel_key c) db) else K.get (channel_key c) db)
  unfolding delete_if
  get-delete_if c d v db = ground (
    arith,
    channel_key-== c d,
    K.get-del (channel_key c) (channel_key d) db,
    ap (λ x. K.get (channel_key x) db) {x = c} {y = d},
  )

  get-step :
      (c : Text) (s : Step) (db : K.Db)
      → get_channel_instance c (step s db) ≡ owner_after c s (get_channel_instance c db)
  unfolding step get_channel_instance register_channel unregister_channel
  get-step c (registered d r) db =
      K.get-set (channel_key c) (channel_key d) r.instance_id r.channel_ttl db
      ∙ ap
          (λ b.
            if ltb 0 r.channel_ttl
            then if b then some r.instance_id else K.get (channel_key c) db
            else K.get (channel_key c) db)
          (channel_key-== c d)
  get-step c (unregistered d r) db = get-delete_if c d r.instance_id db
  get-step c (expired d) db =
      K.get-del (channel_key c) (channel_key d) db
      ∙ ap (λ b. if b then none else K.get (channel_key c) db) (channel_key-== c d)

  -- After any interleaving of registrations and releases by any instances and of expiries, the
  -- instance found for a channel is its owner: the last that registered it with a positive time to
  -- live, unless that instance released it or it expired since. A release by another instance
  -- changes nothing.
  pub get_channel_instance_lem :
      (c : Text) (l : List Step) (db : K.Db)
      → get_channel_instance c (steps l db) ≡ owner c l (get_channel_instance c db)
  unfolding steps
  get_channel_instance_lem c [] db = refl
  get_channel_instance_lem c (s ∷ l) db =
      get_channel_instance_lem c l (step s db) ∙ ap (owner c l) (get-step c s db)
