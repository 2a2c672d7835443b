-- ===== src/LogPage.antt =====
-- The page of the log, log/html/log-webview.html, over the scripts that it loads.
pub mod Messages
pub mod State
pub mod Cutting
pub mod Adding
pub mod Selecting
pub mod Updating
pub mod Filtering
pub mod Actions
pub mod Shown
pub mod Kept
pub mod Calls
pub mod Cuts
pub mod Sound
pub mod Steps
pub mod Marking
pub mod Batches
pub mod Growing
pub mod Arriving
pub mod Looking
pub mod Choosing
pub mod Keys
pub mod Refinement
pub mod Ring
pub mod History
pub mod Selection
pub mod Promises
pub mod Queue
pub mod Examples
