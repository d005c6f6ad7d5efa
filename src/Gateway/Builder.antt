-- ===== src/Gateway/Builder.antt =====
-- gateway.rs: `GatewayBuilder`, `Gateway` and the routes of `run`
-- (crates/sse-gateway/src/gateway.rs). Durations are seconds.
use sse_gateway.Prelude.{ℕ, ◌≡◌, refl, Text, Option, none, some, Bool, true, List, [], ◌∷◌, arith}
use sse_gateway.Extern.Json.{Json}
use sse_gateway.Extern.DashMap.{DashMap}
use sse_gateway.Extern.Mpsc.{Mpsc}
use sse_gateway.Event.{SseEvent}
use sse_gateway.Manager
use sse_gateway.Manager.{ConnectionManager}

pub record GatewayBuilder (Source Storage Auth : Type 0) : Type 0 where
  pub port : ℕ
  pub source : Option Source
  pub storage : Option Storage
  pub instance_id : Option Text
  pub enable_dashboard : Bool
  pub heartbeat_interval : ℕ
  pub cleanup_interval : ℕ
  pub auth : Option Auth

pub record Gateway ⦃J : Json⦄ ⦃D : DashMap⦄ ⦃M : Mpsc SseEvent⦄ (Source Storage Auth : Type 0)
    : Type 0 where
  pub port : ℕ
  pub source : Source
  pub storage : Storage
  pub connection_manager : ConnectionManager
  pub enable_dashboard : Bool
  pub heartbeat_interval : ℕ
  pub cleanup_interval : ℕ
  pub auth : Option Auth

pub data BuildError : Type 0 where
  source_is_required storage_is_required : BuildError

pub data Result (A : Type 0) : Type 0 where
  ok : A → Result A
  err : BuildError → Result A

infixl 5 ◌>>=◌
abbrev ◌>>=◌ : {A B : Type 0} → Result A → (A → Result B) → Result B
ok a >>= f = f a
err e >>= f = err e

abbrev ok_or_else : {A : Type 0} → Option A → BuildError → Result A
ok_or_else none e = err e
ok_or_else (some a) e = ok a

module _ {Source Storage : Type 0} where
  abbrev pub required : Option Source → Option Storage → Result (Source × Storage)
  required none t = err source_is_required
  required (some s) none = err storage_is_required
  required (some s) (some t) = ok (s, t)

-- A call of one of the builder's methods. `source` and `storage` change a type parameter in the
-- program; here the parameters are those of the finished builder.
pub data Setting (Source Storage Auth : Type 0) : Type 0 where
  port : ℕ → Setting Source Storage Auth
  source : Source → Setting Source Storage Auth
  storage : Storage → Setting Source Storage Auth
  auth : Auth → Setting Source Storage Auth
  instance_id : Text → Setting Source Storage Auth
  dashboard : Bool → Setting Source Storage Auth
  heartbeat_interval : ℕ → Setting Source Storage Auth
  cleanup_interval : ℕ → Setting Source Storage Auth

module _ {Source Storage Auth : Type 0} where
  unfoldable pub default : GatewayBuilder Source Storage Auth
  default = record {
    port = 8080;
    source = none;
    storage = none;
    instance_id = none;
    enable_dashboard = true;
    heartbeat_interval = 30;
    cleanup_interval = 30;
    auth = none;
  }

  unfoldable pub set :
      Setting Source Storage Auth
      → GatewayBuilder Source Storage Auth
      → GatewayBuilder Source Storage Auth
  set (port p) b = record b { port = p }
  set (source s) b = record b { source = some s }
  set (storage s) b = record b { storage = some s }
  set (auth a) b = record b { auth = some a }
  set (instance_id i) b = record b { instance_id = some i }
  set (dashboard enable) b = record b { enable_dashboard = enable }
  set (heartbeat_interval n) b = record b { heartbeat_interval = n }
  set (cleanup_interval n) b = record b { cleanup_interval = n }

  -- a chain of calls, the first first
  unfoldable pub set_all :
      List (Setting Source Storage Auth)
      → GatewayBuilder Source Storage Auth
      → GatewayBuilder Source Storage Auth
  set_all [] b = b
  set_all (x ∷ l) b = set_all l (set x b)

  -- the last value that a chain gives
  abbrev pub last_source : List (Setting Source Storage Auth) → Option Source → Option Source
  last_source [] o = o
  last_source (source s ∷ l) o = last_source l (some s)
  last_source (_ ∷ l) o = last_source l o

  abbrev pub last_storage : List (Setting Source Storage Auth) → Option Storage → Option Storage
  last_storage [] o = o
  last_storage (storage s ∷ l) o = last_storage l (some s)
  last_storage (_ ∷ l) o = last_storage l o

  set_all_sources :
      (l : List (Setting Source Storage Auth)) (b : GatewayBuilder Source Storage Auth)
      → ((set_all l b).source ≡ last_source l b.source)
        × ((set_all l b).storage ≡ last_storage l b.storage)
  unfolding set_all set
  set_all_sources [] b = (refl, refl)
  set_all_sources (port p ∷ l) b = set_all_sources l (set (port p) b)
  set_all_sources (x ∷ l) b = set_all_sources l (set x b)

  default_sources :
      (l : List (Setting Source Storage Auth))
      → ((set_all l default).source ≡ last_source l none)
        × ((set_all l default).storage ≡ last_storage l none)
  unfolding default
  default_sources l = set_all_sources l default

module _ ⦃J : Json⦄ ⦃D : DashMap⦄ ⦃M : Mpsc SseEvent⦄ {Source Storage Auth : Type 0} where
  -- `uuid` is the fresh id that is taken where none is set
  unfoldable pub build :
      Text → GatewayBuilder Source Storage Auth → Result (Gateway Source Storage Auth)
  build uuid b = do
    src ← ok_or_else b.source source_is_required
    sto ← ok_or_else b.storage storage_is_required
    ok (record {
      port = b.port;
      source = src;
      storage = sto;
      connection_manager = Manager.new (elim b.instance_id [ none ↦ uuid | some id ↦ id ]);
      enable_dashboard = b.enable_dashboard;
      heartbeat_interval = b.heartbeat_interval;
      cleanup_interval = b.cleanup_interval;
      auth = b.auth;
    })

  -- the parts that a built gateway runs on
  abbrev pub parts : Result (Gateway Source Storage Auth) → Result (Source × Storage)
  parts (ok g) = ok (g.source, g.storage)
  parts (err e) = err e

  -- A chain of settings, in any order and with repetitions, builds a gateway exactly if it gives a
  -- source and a storage; the gateway has the last ones given. Without a source the error says
  -- that the source is missing; with a source and no storage, that the storage is.
  pub parts-build :
      (uuid : Text) (l : List (Setting Source Storage Auth))
      → parts (build uuid (set_all l default)) ≡ required (last_source l none) (last_storage l none)
  unfolding build
  parts-build uuid l = rw (← (default_sources l).0, ← (default_sources l).1) (ground arith)
