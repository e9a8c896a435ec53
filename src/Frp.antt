-- ===== src/Frp.antt =====
-- pkg/adapter/frp: the webhook server and the adapter that supervises frpc.
pub mod Content
pub mod Webhook
pub mod Adapter
