-- ===== src/Web.antt =====
-- apps/web/lib: what the web application checks of requests.
pub mod Bodies
