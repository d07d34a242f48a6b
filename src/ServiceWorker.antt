-- ===== src/ServiceWorker.antt =====
-- fruitsalade/webapp/service-worker.js: the caches that let the webapp start without a connection.
pub mod Model
pub mod Laws
mod Examples
pub mod Good
pub mod Runs
