-- ===== src/Config/Types.antt =====
-- The structs of include/server/config.h, with their default values. A `size_t`, `unsigned` or
-- `unsigned short` is a number, an `int` an integer.
use epoll_gateway.Base.{ℕ, Bool, true, false, List, [], ◌∷◌, map, is_empty, if◌then◌else◌}
use epoll_gateway.Base.Bytes.{Bytes, ascii}
use epoll_gateway.Base.Int.{ℤ, pos}
use epoll_gateway.Base.Table.{Table}

pub record RateLimitConfig : Type 0 where
  pub capacity : ℕ
  pub refill_per_second : ℕ

pub record ApiKeyConfig : Type 0 where
  pub key : Bytes
  pub name : Bytes
  pub rate_limit : RateLimitConfig
  pub allowed_hosts : List Bytes
  pub allowed_tenants : List Bytes

pub record UpstreamServer : Type 0 where
  pub host : Bytes
  pub port : ℤ
  pub tls : Bool
  pub tls_ca_file : Bytes
  pub tls_server_name : Bytes
  pub tls_skip_verify : Bool
  pub healthy : Bool
  pub consecutive_failures : ℕ

abbrev pub default_server : UpstreamServer
default_server = record {
  host = [];
  port = pos 80;
  tls = false;
  tls_ca_file = [];
  tls_server_name = [];
  tls_skip_verify = false;
  healthy = true;
  consecutive_failures = 0;
}

pub record Upstream : Type 0 where
  pub servers : List UpstreamServer
  pub algorithm : Bytes

pub record UpstreamTarget : Type 0 where
  pub name : Bytes
  pub timeout_ms : ℤ
  pub max_retries : ℤ
  pub circuit_failure_threshold : ℤ
  pub circuit_recovery_timeout_ms : ℤ

abbrev pub default_upstream_target : UpstreamTarget
default_upstream_target = record {
  name = [];
  timeout_ms = pos 5000;
  max_retries = pos 1;
  circuit_failure_threshold = pos 5;
  circuit_recovery_timeout_ms = pos 10000;
}

pub record CompositeDependency : Type 0 where
  pub name : Bytes
  pub upstream_name : Bytes
  pub path : Bytes
  pub method : Bytes
  pub required : Bool
  pub timeout_ms : ℤ

pub record CompositeTarget : Type 0 where
  pub name : Bytes
  pub dependencies : List CompositeDependency
  pub total_timeout_ms : ℤ

pub record GatewayRoute : Type 0 where
  pub name : Bytes
  pub method : Bytes
  pub path : Bytes
  pub host : Bytes
  pub tenant : Bytes
  pub target_type : Bytes
  pub handler_name : Bytes
  pub upstream_target : UpstreamTarget
  pub composite_target : CompositeTarget
  pub static_root : Bytes
  pub enabled : Bool
  pub auth_required : Bool
  pub allow_anonymous : Bool
  pub rate_limit_policy : Bytes
  pub allowed_api_keys : List Bytes
  pub denied_api_keys : List Bytes

abbrev pub default_route : GatewayRoute
default_route = record {
  name = [];
  method = ascii "GET";
  path = ascii "/";
  host = ascii "*";
  tenant = ascii "*";
  target_type = ascii "upstream";
  handler_name = [];
  upstream_target = default_upstream_target;
  composite_target = record { name = []; dependencies = []; total_timeout_ms = pos 0 };
  static_root = [];
  enabled = true;
  auth_required = true;
  allow_anonymous = false;
  rate_limit_policy = ascii "api_key";
  allowed_api_keys = [];
  denied_api_keys = [];
}

-- `upstream_group_id`.
unfoldable pub upstream_group_id : GatewayRoute → Bytes
upstream_group_id r = if is_empty r.upstream_target.name then r.name else r.upstream_target.name

pub record UpstreamConfig : Type 0 where
  pub upstreams : Table Upstream
  pub routes : List GatewayRoute
  pub health_check_timeout_ms : ℤ

pub record TlsConfig : Type 0 where
  pub cert_path : Bytes
  pub key_path : Bytes

pub record AdminConfig : Type 0 where
  pub enabled : Bool
  pub port : ℕ
  pub bind : Bytes
  pub api_keys : List Bytes

pub record LoggingConfig : Type 0 where
  pub access_log_enabled : Bool
  pub redact_sensitive_headers : Bool
  pub redact_sensitive_query_params : Bool
  pub sensitive_headers : List Bytes
  pub sensitive_query_params : List Bytes

pub record ThreadPoolConfig : Type 0 where
  pub min_threads : ℕ
  pub max_threads : ℕ
  pub scale_up_threshold : ℕ
  pub scale_down_threshold : ℕ

pub record Config : Type 0 where
  pub port : ℕ
  pub backlog : ℤ
  pub max_connections : ℕ
  pub max_response_bytes : ℕ
  pub num_workers : ℕ
  pub www_root : Bytes
  pub cache_max_entries : ℕ
  pub cache_max_file_size_mb : ℕ
  pub keepalive_timeout : ℤ
  pub shutdown_drain_timeout : ℤ
  pub thread_pool : ThreadPoolConfig
  pub upstream_config : UpstreamConfig
  pub tls : TlsConfig
  pub logging : LoggingConfig
  pub admin : AdminConfig
  pub rate_limit_config : RateLimitConfig
  pub api_keys : List ApiKeyConfig
  pub api_keys_file : Bytes

-- `Config{}`.
abbrev pub default_config : Config
default_config = record {
  port = 5005;
  backlog = pos 1024;
  max_connections = 10000;
  max_response_bytes = 67108864;
  num_workers = 0;
  www_root = ascii "./www";
  cache_max_entries = 1024;
  cache_max_file_size_mb = 1;
  keepalive_timeout = pos 60;
  shutdown_drain_timeout = pos 30;
  thread_pool = record {
    min_threads = 2;
    max_threads = 10;
    scale_up_threshold = 2;
    scale_down_threshold = 1;
  };
  upstream_config = record { upstreams = []; routes = []; health_check_timeout_ms = pos 500 };
  tls = record { cert_path = ascii "certs/server.crt"; key_path = ascii "certs/server.key" };
  logging = record {
    access_log_enabled = true;
    redact_sensitive_headers = true;
    redact_sensitive_query_params = true;
    sensitive_headers = map ascii (
        "authorization" ∷ "proxy-authorization" ∷ "x-api-key" ∷ "cookie" ∷ "set-cookie"
        ∷ "x-forwarded-for" ∷ "x-real-ip" ∷ []);
    sensitive_query_params =
        map ascii
          ("access_token" ∷ "api_key" ∷ "apikey" ∷ "key" ∷ "password" ∷ "secret" ∷ "token" ∷ []);
  };
  admin = record { enabled = false; port = 8105; bind = ascii "127.0.0.1"; api_keys = [] };
  rate_limit_config = record { capacity = 100; refill_per_second = 50 };
  api_keys = [];
  api_keys_file = [];
}
