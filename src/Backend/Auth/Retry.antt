-- ===== src/Backend/Auth/Retry.antt =====
-- When `withRetryOnAuth` calls the service again, and what it answers.
use infisical_pkcs.Outcome.{Outcome}
use infisical_pkcs.Backend.State.{Backend}
