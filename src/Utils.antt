-- ===== src/Utils.antt =====
-- internal/utils
pub mod Service
pub mod Finalizer
pub mod Encoding
