-- ===== src/TextboxList.antt =====
-- The widget `$.TextboxList` of jquery-textboxlist.js, and the page fileset-webview.html over it.
pub mod Host
pub mod Codec
pub mod Events
pub mod Widget
pub mod Bits
pub mod Focus
pub mod Fileset
pub mod Input
pub mod Caret
pub mod Actions
pub mod Examples
