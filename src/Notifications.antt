-- ===== src/Notifications.antt =====
-- fruitsalade/webapp/js/notifications.js: the notification center, fed by server-sent events.
pub mod Model
pub mod Counts
pub mod Times
pub mod Bursts
mod Examples
