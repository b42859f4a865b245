-- ===== src/Proxy/Cache/Dialing.antt =====
-- The dial options that getEntry of proxy/cache.go hands to grpc.NewClient.
use g_rpcat.Base.{ℕ, zero, suc, List, [], ◌∷◌, ◌++◌, map, Option, none, some}
use g_rpcat.Base.Int.{ℤ, pos, negsuc}
use g_rpcat.Proxy.Config.{Grpc}

pub record CacheConfig (g : Grpc) : Type 0 where
  pub keepalive : Option g.Keepalive
  pub transport_creds : Option g.Creds
  pub dial_opts : List g.DialOption
  pub max_recv_msg_size : ℤ
  pub max_send_msg_size : ℤ
  pub idle_timeout : ℤ

-- grpc.ForceCodecV2(&ProxyCodec{}), MaxCallRecvMsgSize and MaxCallSendMsgSize
pub data CallOption : Type 0 where
  force_proxy_codec : CallOption
  max_call_recv_msg_size max_call_send_msg_size : ℕ → CallOption

-- The options that the cache makes, and those that it was given.
pub data DialArgument (g : Grpc) : Type 0 where
  default_call_options : List CallOption → DialArgument g
  transport_credentials : g.Creds → DialArgument g
  insecure_credentials : DialArgument g
  keepalive_params : g.Keepalive → DialArgument g
  with_idle_timeout : ℕ → DialArgument g
  given : g.DialOption → DialArgument g

-- What `if n > 0` appends.
if_positive {ℓ} : {A : Type ℓ} → ℤ → (ℕ → A) → List A
if_positive (pos zero) f = []
if_positive (pos (suc n)) f = f (suc n) ∷ []
if_positive (negsuc n) f = []

module _ {g : Grpc} where
  unfoldable pub call_options : CacheConfig g → List CallOption
  unfolding if_positive
  call_options c =
      force_proxy_codec
      ∷ (if_positive c.max_recv_msg_size max_call_recv_msg_size
          ++ if_positive c.max_send_msg_size max_call_send_msg_size)

  unfoldable pub dial_options : CacheConfig g → List (DialArgument g)
  unfolding call_options
  dial_options c =
      default_call_options (call_options c)
      ∷ (elim c.transport_creds [ none ↦ insecure_credentials | some t ↦ transport_credentials t ])
      ∷ (elim c.keepalive [ none ↦ [] | some k ↦ keepalive_params k ∷ [] ]
          ++ (if_positive c.idle_timeout with_idle_timeout ++ map given c.dial_opts))
