-- ===== src/Webhook.antt =====
-- internal/webhook: the authentication of a delivery (Auth), the payloads and units of work (Event)
-- and the handler (Handler).
pub mod Auth
pub mod Event
pub mod Handler
