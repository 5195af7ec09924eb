-- ===== src/Cursor.antt =====
-- src/cursor/: what a page does to the cursor of a lane.
mod Path
pub mod Timestamp
pub mod Page
pub mod Token
pub mod Custom
pub mod Scan
mod Watermark
mod Examples
