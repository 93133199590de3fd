-- ===== src/Providers.antt =====
-- backend/src/providers: the provider identities and the rate-limit tracker.
pub mod Id
pub mod RateLimit
pub mod Registry
pub mod TokenManager
