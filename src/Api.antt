-- ===== src/Api.antt =====
-- fruitsalade/webapp/js/api.js: the session and the requests to the server.
pub mod Model
pub mod Paths
mod Examples
