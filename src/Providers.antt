-- ===== src/Providers.antt =====
-- app/providers and app/provider_accounts.py: what an adapter is made of, and the reference provider.
pub mod Reference
pub mod Accounts
