-- ===== src/BridgeCore.antt =====
-- firmware/core/bridge_core.c: staging a text as keystrokes, confirming and draining it.
pub mod Types
pub mod Utf8
pub mod Keymap
pub mod Stage
pub mod Control
mod Tests
pub mod Typing
pub mod Refusal
pub mod Outcome
pub mod Invariant
pub mod Commands
pub mod Safety
pub mod Confirm
pub mod Expiry
pub mod Drain
pub mod EndToEnd
