-- ===== src/Proxy/Config.antt =====
-- Config of proxy/server.go and resolveMsgSize. grpc's server options, dial options, credentials
-- and keepalive parameters are types of the grpc library; the model only passes them on.
use g_rpcat.Base.{ℕ, zero, suc, ◌-◌, ◌^◌, List, Option}
use g_rpcat.Base.Int.{ℤ, pos, negsuc}
use g_rpcat.Base.Texts.{Text}

-- The types that belong to the grpc library.
pub record Grpc : Type 1 where
  pub ServerOption : Type 0
  pub DialOption : Type 0
  pub Creds : Type 0
  pub Keepalive : Type 0

-- The hooks of Config are an argument of the handler (see Server).
pub record Config (g : Grpc) : Type 0 where
  pub default_backend : Text
  pub keepalive_params : Option g.Keepalive
  pub backend_transport_creds : Option g.Creds
  pub backend_dial_options : List g.DialOption
  pub server_options : List g.ServerOption
  pub max_recv_msg_size : ℤ
  pub max_send_msg_size : ℤ
  pub backend_idle_timeout : ℤ

-- math.MaxInt32
abbrev pub max_int32 : ℕ
max_int32 = 2 ^ 31 - 1

-- A size of zero or less stands for no limit.
unfoldable pub resolve_msg_size : ℤ → ℕ
resolve_msg_size (pos zero) = max_int32
resolve_msg_size (pos (suc n)) = suc n
resolve_msg_size (negsuc n) = max_int32
