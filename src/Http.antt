-- ===== src/Http.antt =====
-- internal/httpserver and internal/clientip: who a request is attributed to, and how often.
pub mod ClientIp
pub mod RateLimit
