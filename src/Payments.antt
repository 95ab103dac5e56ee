-- ===== src/Payments.antt =====
-- app/routers/payments.py: the payment endpoints, one child for each group of handlers.
pub mod Verdict
pub mod Authenticate
pub mod Records
pub mod Intent
pub mod StepUp
pub mod Revoke
pub mod Execution
pub mod Settlement
pub mod Consume
pub mod Webhook
pub mod Refund
pub mod History
