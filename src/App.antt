-- ===== src/App.antt =====
-- fruitsalade/webapp/js/app.js: the router and the frame around the views.
pub mod Model
pub mod Guards
pub mod Frames
pub mod Visits
pub mod Menus
pub mod SigningOut
mod Examples
