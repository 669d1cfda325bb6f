-- ===== src/Input.antt =====
-- frontend/src/features/terminal/Terminal.tsx and TerminalPage.tsx: keys, typed text and the
-- clipboard, with the modifier keys that the page latches.
pub mod Events
pub mod Latches
