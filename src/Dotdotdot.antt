-- ===== src/Dotdotdot.antt =====
-- dotdotdot.js, which cuts the content of an element to its height and ends it with an ellipsis.
pub mod Forest
pub mod Content
pub mod Search
pub mod Ellipsis
pub mod Plugin
pub mod Examples
