-- ===== src/Rpc.antt =====
-- adapter/rpc: what stands between a request and its handler.
pub mod Text
pub mod Interceptor
