-- ===== src/Server/Start.antt =====
-- `main` of src/main.rs: the settings that it reads and the gateway that it builds. `var` reads the
-- environment, `uuid` is the fresh id that is drawn where no name is set, and `dial` connects to the
-- server at an address. Logging and the crypto provider are left out.
use mathlib.Core.Option
use sse_gateway.Prelude.{
  ℕ, ◌≤◌, ◌≡◌, refl, ap, Text, codes, Option, none, some, true, [], ◌∷◌, ◌++◌, leb, if◌then◌else◌,
  arith, Option-cases, inl, inr,
}
use sse_gateway.Extern.Json.{Json}
use sse_gateway.Extern.DashMap.{DashMap}
use sse_gateway.Extern.Mpsc.{Mpsc}
use sse_gateway.Std.Decimal.{parse_u64, show}
use sse_gateway.Event.{SseEvent}
use sse_gateway.Source.{IncomingMessage}
use sse_gateway.Manager
use sse_gateway.Redis.Storage
use sse_gateway.Redis.Storage.{RedisStorage}
use sse_gateway.Gateway.Builder
use sse_gateway.Gateway.Builder.{
  Gateway, Result, ok, err, port, instance_id, dashboard, source, storage, set, set_all, build,
}
use sse_gateway.Server.Channels.{ChannelRegistry}
use sse_gateway.Server.Instances
use sse_gateway.Server.Direct
use sse_gateway.Server.Direct.{DirectPushSource}

-- `parse::<u16>`
unfoldable pub parse_u16 : Text → Option ℕ
parse_u16 s = Option.bind (parse_u64 s) (λ n. if leb n 65535 then some n else none)

pub record Config : Type 0 where
  pub gateway_port : ℕ
  pub push_port : ℕ
  pub redis_url : Text
  pub instance_id : Text
  pub instance_addr : Text
  pub channel_ttl : ℕ

-- `.ok().or_else(…).unwrap_or_else(…)`
unfoldable pub or_var : Option Text → Option Text → Option Text
or_var none second = second
or_var (some v) second = some v

unfoldable pub config : (Text → Option Text) → Text → Config
unfolding parse_u16 or_var
config var uuid =
    let push_port = Option.get_or (Option.bind (var (codes "PUSH_PORT")) parse_u16) 9000 in
    record {
      gateway_port = Option.get_or (Option.bind (var (codes "PORT")) parse_u16) 8080;
      push_port = push_port;
      redis_url = Option.get_or (var (codes "REDIS_URL")) (codes "redis://localhost:6379");
      instance_id =
          Option.get_or (or_var (var (codes "INSTANCE_ID")) (var (codes "HOSTNAME"))) uuid;
      instance_addr =
          Option.get_or (var (codes "GATEWAY_ADDR")) (codes "localhost:" ++ show push_port);
      channel_ttl = Option.get_or (Option.bind (var (codes "CHANNEL_TTL")) parse_u64) 60;
    }

module _ ⦃J : Json⦄ ⦃D : DashMap⦄ ⦃M : Mpsc SseEvent⦄ ⦃N : Mpsc IncomingMessage⦄
    {Connection Auth : Type 0} where
  -- `none`: the server was not reached. The other result is what `build` gives.
  -- the parts, once the server is reached
  unfoldable pub assemble :
      Text
      → Config
      → Connection
      → N.State
      → Result (Gateway (DirectPushSource Connection) (RedisStorage Connection) Auth)
  assemble uuid c connection w =
      let service_registry = Instances.new c.instance_id c.instance_addr in
      let channel_registry : ChannelRegistry = record {
        instance_id = c.instance_id;
        channel_ttl = c.channel_ttl;
      } in
      let redis_storage = record (Storage.new {Connection = Connection}) {
        redis = some connection;
      } in
      let (direct, _) = Direct.new c.push_port service_registry channel_registry redis_storage w in
      build uuid (
        set_all
          (port c.gateway_port
            ∷ instance_id c.instance_id
            ∷ dashboard true
            ∷ source direct
            ∷ storage redis_storage
            ∷ [])
          Builder.default)

  -- `none`: the server was not reached. The other result is what `build` gives.
  unfoldable pub main :
      (Text → Option Text)
      → Text
      → (Text → Option Connection)
      → N.State
      → Option (Result (Gateway (DirectPushSource Connection) (RedisStorage Connection) Auth))
  unfolding config assemble
  main var uuid dial w =
      let c = config var uuid in
      Option.map (λ connection. assemble uuid c connection w) (dial c.redis_url)

parse_u16_fits : (s : Text) (d : ℕ) → d ≤ 65535 → Option.get_or (parse_u16 s) d ≤ 65535
unfolding parse_u16 Option.bind
parse_u16_fits s d h = elim (Option-cases (parse_u64 s)) [
  | inl p ↦ rw p h
  | inr (n, p) ↦ rw p (ground arith)
]

parse_u16_default :
    (o : Option Text) (d : ℕ) → d ≤ 65535 → Option.get_or (Option.bind o parse_u16) d ≤ 65535
unfolding Option.bind
parse_u16_default none d h = h
parse_u16_default (some s) d h = parse_u16_fits s d h

module _ ⦃J : Json⦄ ⦃D : DashMap⦄ ⦃M : Mpsc SseEvent⦄ ⦃N : Mpsc IncomingMessage⦄
    {Connection Auth : Type 0} where
  -- Once the server is reached, and whatever the environment holds, the gateway is built: both
  -- ports fit 16 bits, the source has its receiver and the storage that the gateway has, which is
  -- connected, and the two registries have the manager's instance id.
  pub main_builds :
      (var : Text → Option Text) (uuid : Text) (dial : Text → Option Connection) (w : N.State)
      (connection : Connection)
      → dial (config var uuid).redis_url ≡ some connection
      → (g : Gateway (DirectPushSource Connection) (RedisStorage Connection) Auth) × (main var uuid
            dial w
          ≡ some (ok g))
        × (g.port ≤ 65535)
        × (g.source.push_port ≤ 65535)
        × (g.source.receiver ≡ some g.source.sender)
        × (g.storage.redis ≡ some connection)
        × (g.source.storage ≡ g.storage)
        × (g.source.service_registry.instance_id ≡ g.connection_manager.instance_id)
        × (g.source.channel_registry.instance_id ≡ g.connection_manager.instance_id)
  unfolding main assemble set_all set Builder.default Direct.new Instances.new Manager.new build
      config
  main_builds var uuid dial w connection there = (
    _,
    ap (Option.map (λ connection'. assemble uuid (config var uuid) connection' w)) there,
    parse_u16_default (var (codes "PORT")) 8080 (omega arith),
    parse_u16_default (var (codes "PUSH_PORT")) 9000 (omega arith),
    refl,
    refl,
    refl,
    refl,
    refl,
  )
