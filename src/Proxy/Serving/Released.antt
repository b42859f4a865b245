-- ===== src/Proxy/Serving/Released.antt =====
-- What an RPC has taken it gives back, on every path.
use g_rpcat.Middleware.Metadata.{Metadata}
use g_rpcat.Proxy.Cache.{Cache}
use g_rpcat.Proxy.Mem.{Mem}
use g_rpcat.Proxy.Server.{Server}
