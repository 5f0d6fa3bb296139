-- ===== src/Ui.antt =====
-- The UI client (ui_client/src/MainDlg.cpp): its header codec, its blocking sends and receives, and its
-- commands.
pub mod Wire
pub mod Socket
pub mod Worker
pub mod Commands
pub mod Dialog
pub mod App
pub mod Unused
