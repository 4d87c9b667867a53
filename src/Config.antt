-- ===== src/Config.antt =====
-- internal/config/types.go: a configuration. A section or field that is absent is `none`. Durations are
-- nanoseconds. The tags, telemetry and capacity sections, and the assertions on JSON bodies are
-- left out.
pub mod Statements
pub mod Apply
pub mod Laws
pub mod Defaults
pub mod Validate
pub mod Labels
pub mod Examples
use tracepoint.Base.{
  ℕ, Bool, true, false, ◌&&◌, Option, none, some, List, [], ◌∷◌, ◌++◌, if◌then◌else◌,
}
use tracepoint.Base.Int.{ℤ}
use tracepoint.Base.Float.{Float}
use tracepoint.Base.Text.{Text, codes, ◌==◌}
use tracepoint.Template.{Value}

-- A bind argument, text or of a type of its own.
pub record Arg : Type 0 where
  pub value : Value
  pub secret : Bool

pub record TxStatement : Type 0 where
  pub sql : Text
  pub args : List Arg

pub record Tls : Type 0 where
  pub insecure_skip_verify : Bool
  pub server_name : Text
  pub ca_file : Text
  pub cert_file : Text
  pub key_file : Text

pub record Transport : Type 0 where
  pub max_idle_conns_per_host : ℤ
  pub http2 : Option Bool
  pub keep_alive : Option Bool
  pub tls : Option Tls

pub record Feeder : Type 0 where
  pub name : Text
  pub file : Text
  pub mode : Text

pub record Expect : Type 0 where
  pub status : List ℤ
  pub max_body_bytes : ℤ

pub record Extract : Type 0 where
  pub name : Text
  pub from : Text
  pub path : Text

pub record ThinkTime : Type 0 where
  pub type : Text
  pub duration : Option ℤ
  pub min : Option ℤ
  pub max : Option ℤ
  pub mean : Option ℤ

pub record Pool : Type 0 where
  pub max_open : ℤ
  pub max_idle : ℤ
  pub conn_max_lifetime : Option ℤ
  pub conn_max_idle_time : Option ℤ

pub record RedisPool : Type 0 where
  pub size : ℤ
  pub min_idle : ℤ

pub record Run : Type 0 where
  pub name : Text
  pub duration : ℤ
  pub bucket : ℤ
  pub warmup : ℤ
  pub grace : ℤ
  pub timeout : ℤ
  pub seed : Option ℕ
  pub arrival : Text
  pub min_samples : ℤ

abbrev pub is_none {ℓ} : {A : Type ℓ} → Option A → Bool
is_none none = true
is_none (some _) = false

module _ (f : Float) where
  pub record SloTarget : Type 0 where
    pub p95 : Option ℤ
    pub p99 : Option ℤ
    pub error_rate : Option f.F

  abbrev pub target_is_zero : SloTarget → Bool
  target_is_zero t = is_none t.p95 && (is_none t.p99 && is_none t.error_rate)

  pub record Slo : Type 0 where
    pub http : SloTarget
    pub db : SloTarget
    pub redis : SloTarget

  abbrev pub slo_is_zero : Slo → Bool
  slo_is_zero s = target_is_zero s.http && (target_is_zero s.db && target_is_zero s.redis)

  abbrev pub no_target : SloTarget
  no_target = record { p95 = none; p99 = none; error_rate = none }

  unfoldable pub slo_for : Slo → Text → SloTarget
  slo_for s name =
      if name == codes "http"
      then s.http
      else if name == codes "db"
      then s.db
      else if name == codes "redis"
      then s.redis
      else no_target

  pub record Safety : Type 0 where
    pub allow_writes : Bool
    pub allow_dangerous : Bool
    pub allow_targets : List Text
    pub allow_insecure_tls : Bool
    pub max_rate_per_runner : Option f.F
    pub max_in_flight : Option ℤ
    pub max_duration : Option ℤ

  pub record Stage : Type 0 where
    pub duration : ℤ
    pub target : f.F

  pub record Executor : Type 0 where
    pub type : Text
    pub rate : f.F
    pub vus : ℤ
    pub stages : List Stage
    pub max_in_flight : ℤ
    pub queue_depth : Option ℤ
    pub pick : Text

  pub record HttpStep : Type 0 where
    pub name : Text
    pub weight : Option f.F
    pub method : Text
    pub url : Text
    pub headers : List (Text × Text)
    pub body : Text
    pub body_file : Text
    pub timeout : Option ℤ
    pub expect : Option Expect
    pub extract : List Extract
    pub think : Option ThinkTime

  pub record Journey : Type 0 where
    pub name : Text
    pub weight : Option f.F
    pub steps : List HttpStep

  pub record Http : Type 0 where
    pub base_url : Text
    pub headers : List (Text × Text)
    pub traceparent : Bool
    pub executor : Executor
    pub transport : Option Transport
    pub feeders : List Feeder
    pub requests : List HttpStep
    pub journeys : List Journey

  pub record Query : Type 0 where
    pub name : Text
    pub weight : Option f.F
    pub type : Text
    pub sql : Text
    pub args : List Arg
    pub tx : List TxStatement
    pub timeout : Option ℤ
    pub prepare : Bool

  pub record Db : Type 0 where
    pub driver : Text
    pub dsn : Text
    pub executor : Executor
    pub pool : Option Pool
    pub tag_sessions : Option Bool
    pub comment_queries : Bool
    pub queries : List Query

  pub record Command : Type 0 where
    pub name : Text
    pub weight : Option f.F
    pub type : Text
    pub cmd : List Text
    pub pipeline : List (List Text)
    pub timeout : Option ℤ

  pub record Redis : Type 0 where
    pub mode : Text
    pub addr : Text
    pub addrs : List Text
    pub master_name : Text
    pub username : Text
    pub password : Text
    pub db : ℤ
    pub tls : Option Tls
    pub executor : Executor
    pub pool : Option RedisPool
    pub commands : List Command

  pub record Config : Type 0 where
    pub version : ℤ
    pub run : Run
    pub slo : Slo
    pub safety : Safety
    pub http : Option Http
    pub db : Option Db
    pub redis : Option Redis

  abbrev named : {A : Type 0} → Option A → Text → List Text
  named none name = []
  named (some _) name = name ∷ []

  unfoldable pub runners : Config → List Text
  runners c =
      named c.http (codes "http") ++ (named c.db (codes "db") ++ named c.redis (codes "redis"))
