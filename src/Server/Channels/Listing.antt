-- ===== src/Server/Channels/Listing.antt =====
-- `get_all_channels`: the mapping it reads off the keys.
use mathlib.Core.Option
use sse_gateway.Prelude.{
  ◌≡◌, refl, ap, ◌∙◌, Text, codes, Option, none, some, ◌==◌, List, [], ◌∷◌, ◌++◌, if◌then◌else◌,
  arith, Option-cases, inl, inr, lookup, contains,
}
use sse_gateway.Extern.Keyspace.{Keyspace}
use sse_gateway.Std.Affix.{strip_prefix, strip_suffix, strip_prefix_sound, strip_suffix_sound}
use sse_gateway.Server.Channels.{
  channel_key, channel_of, insert_channel, get_all_channels, get_channel_instance,
}
use sse_gateway.Server.Channels.Owner.{channel_of-channel_key, channel_key-==}

channel_of_sound : (key c : Text) → channel_of key ≡ some c → key ≡ channel_key c
unfolding channel_of channel_key
channel_of_sound key c h =
    let (s, e, k) =
      (Option.bind-eq-some_iff (strip_prefix (codes "channel:") key)
          (strip_suffix (codes ":instance"))).0
        h in
    strip_prefix_sound (codes "channel:") key e
    ∙ ap (λ t. codes "channel:" ++ t) (strip_suffix_sound (codes ":instance") s k)

abbrev or_else : Option Text → Option Text → Option Text
or_else none p = p
or_else (some i) p = some i

module _ ⦃K : Keyspace⦄ (c : Text) (db : K.Db) where
  inserted :
      (d : Text) (result : List (Text × Text))
      → lookup c (insert_channel (K.get (channel_key d) db) (some d) result)
        ≡ (if c == d then or_else (K.get (channel_key c) db) (lookup c result) else lookup c result)
  unfolding insert_channel
  inserted d result = ground (arith, ap (λ x. K.get (channel_key x) db) {x = c} {y = d})

  lookup-insert_channel :
      (key : Text) (result : List (Text × Text))
      → lookup c (insert_channel (K.get key db) (channel_of key) result) ≡ (
          if channel_key c == key
          then or_else (K.get (channel_key c) db) (lookup c result)
          else lookup c result)
  unfolding insert_channel
  lookup-insert_channel key result = elim (Option-cases (channel_of key)) [
    | inl e ↦
        ground (arith, e, channel_of-channel_key c, ap channel_of {x = channel_key c} {y = key})
    | inr (d, e) ↦ rw (e, channel_of_sound key d e, channel_key-==) (inserted d result)
  ]

  lookup-get_all_channels :
      (ks : List Text) (result : List (Text × Text))
      → lookup c (get_all_channels ks db result) ≡ (
          if contains (channel_key c) ks
          then or_else (K.get (channel_key c) db) (lookup c result)
          else lookup c result)
  unfolding get_all_channels
  lookup-get_all_channels [] result = refl
  lookup-get_all_channels (key ∷ ks) result = ground (
    arith,
    lookup-get_all_channels ks (insert_channel (K.get key db) (channel_of key) result),
    lookup-insert_channel key result,
  )

  -- The listing maps a channel to its instance exactly if its key is among the keys that the
  -- server gave, whatever the other keys are.
  pub get_all_channels_lem :
      (ks : List Text)
      → lookup c (get_all_channels ks db [])
        ≡ (if contains (channel_key c) ks then get_channel_instance c db else none)
  unfolding get_channel_instance
  get_all_channels_lem ks = ground (arith, lookup-get_all_channels ks [])
