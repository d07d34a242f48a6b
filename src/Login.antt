-- ===== src/Login.antt =====
-- fruitsalade/webapp/js/views/login.js: the login form and that of the second factor.
pub mod Model
pub mod Signing
mod Examples
