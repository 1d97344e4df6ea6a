-- ===== src/Adapters.antt =====
-- contrib/: the bridges between this logger and other logging libraries. What these libraries do is
-- a parameter: their constants, and the methods that a bridge calls.
pub mod Logr
pub mod Zap
pub mod Logrus
pub mod Zerolog
pub mod Phuslu
pub mod Sentry
pub mod Otel
pub mod Order
