-- ===== src/Utils.antt =====
-- fruitsalade/webapp/js/utils.js: toasts, dialogs and the kinds of files.
pub mod Modal
pub mod Dialogs
pub mod FileTypes
pub mod Toast
pub mod Progress
pub mod Extensions
mod Examples
