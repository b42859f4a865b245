-- ===== src/Proxy.antt =====
-- Package proxy (proxy/): configuration, backend connections, frames, forwarding and the server.
pub mod Config
pub mod Cache
pub mod Forwarder
pub mod Server
pub mod Lifecycle
pub mod Running
pub mod Serving
pub mod Mem
pub mod Codec
