-- ===== src/Auth/Query.antt =====
-- What `query_param` and `bearer_token` find.
use mathlib.Core.Option
use sse_gateway.Prelude.{
  ℕ, ◌≡◌, ◌↔◌, refl, ap, ◌∙◌, Text, codes, ◌==◌, none, some, List, [], ◌∷◌, ◌++◌, All, lookup,
  if◌then◌else◌, arith,
}
use sse_gateway.Std.Affix.{strip_prefix, strip_prefix-append, strip_prefix_sound}
use sse_gateway.Std.Split.{split, Lacks, split-append, split_whole, split_once-append}
use sse_gateway.Auth.{AuthRequest, header, bearer_token, query_param, find_pair, pair_value}

-- A key without `=` and `&`, a value without `&`.
abbrev pub IsPair : Text × Text → Type 0
IsPair (k, v) = Lacks b'=' k × Lacks b'&' k × Lacks b'&' v

abbrev pair_text : Text × Text → Text
pair_text (k, v) = k ++ b'=' ∷ v

-- `k1=v1&k2=v2`, at least one pair
abbrev pub query_text : Text × Text → List (Text × Text) → Text
query_text p [] = pair_text p
query_text p (q ∷ ps) = pair_text p ++ b'&' ∷ query_text q ps

Lacks-append : (c : ℕ) (s t : Text) → Lacks c s → Lacks c t → Lacks c (s ++ t)
Lacks-append c [] t h k = k
Lacks-append c (x ∷ s) t h k = (h.0, Lacks-append c s t h.1 k)

pair_text-Lacks : (p : Text × Text) → IsPair p → Lacks b'&' (pair_text p)
pair_text-Lacks (k, v) h = Lacks-append b'&' k (b'=' ∷ v) h.1 ((omega arith), h.2)

abbrev texts : List (Text × Text) → List Text
texts [] = []
texts (p ∷ ps) = pair_text p ∷ texts ps

split-query_text :
    (p : Text × Text) (ps : List (Text × Text))
    → IsPair p
    → All IsPair ps
    → split b'&' (query_text p ps) ≡ pair_text p ∷ texts ps
split-query_text p [] h hs = split_whole b'&' (pair_text p) (pair_text-Lacks p h)
split-query_text p (q ∷ ps) h hs =
    split-append b'&' (pair_text p) (query_text q ps) (pair_text-Lacks p h)
    ∙ ap (λ r. pair_text p ∷ r) (split-query_text q ps hs.0 hs.1)

pair_value_lem :
    (name : Text) (p : Text × Text)
    → IsPair p
    → pair_value name (pair_text p) ≡ (if name == p.0 then some p.1 else none)
unfolding pair_value
pair_value_lem name (k, v) h = rw (split_once-append b'=' k v h.0, pair_value) (ground arith)

find_pair-texts :
    (name : Text) (ps : List (Text × Text))
    → All IsPair ps
    → find_pair name (texts ps) ≡ lookup name ps
unfolding find_pair
find_pair-texts name [] h = refl
find_pair-texts name ((k, v) ∷ ps) h =
    ground (arith, pair_value_lem name (k, v) h.0, find_pair-texts name ps h.1)

-- If the query is a list of pairs, no key with `=` or `&` and no value with `&`, then
-- `query_param` gives the value of the first pair with the name, and nothing if there is none.
pub query_param_first :
    (name : Text) (r : AuthRequest) (p : Text × Text) (ps : List (Text × Text))
    → r.uri_query ≡ some (query_text p ps)
    → IsPair p
    → All IsPair ps
    → query_param name r ≡ lookup name (p ∷ ps)
unfolding query_param Option.bind
query_param_first name r p ps e h hs =
    rw (e, Option.bind, split-query_text p ps h hs) (find_pair-texts name (p ∷ ps) (h, hs))

-- A text is the bearer token exactly if the `authorization` header is readable and is `Bearer `
-- followed by that text.
pub bearer_token_iff :
    (r : AuthRequest) (token : Text)
    → (bearer_token r ≡ some token)
      ↔ (header (codes "authorization") r ≡ some (codes "Bearer " ++ token))
unfolding bearer_token
bearer_token_iff r token = (
  λ e.
      let (value, there, rest) =
        (Option.bind-eq-some_iff (header (codes "authorization") r)
            (strip_prefix (codes "Bearer "))).0
          e in
      there ∙ ap some (strip_prefix_sound (codes "Bearer ") value rest),
  λ e.
      (Option.bind-eq-some_iff (header (codes "authorization") r)
          (strip_prefix (codes "Bearer "))).1
        (codes "Bearer " ++ token, e, strip_prefix-append (codes "Bearer ") token),
)
