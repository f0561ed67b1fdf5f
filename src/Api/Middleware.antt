-- ===== src/Api/Middleware.antt =====
-- The middlewares of archive/python-legacy/backend/app/main.py. Names and values of headers are bytes.
pub mod BodyLimit
pub mod Headers
pub mod Capped
pub mod Declared
pub mod Secured
