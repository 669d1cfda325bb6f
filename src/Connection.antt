-- ===== src/Connection.antt =====
-- frontend/src/features/terminal/Terminal.tsx: the WebSocket of a terminal and its reconnection.
-- A handler takes the state to the next one. Between two events nothing else runs, as in the
-- browser's event loop; the one `await` (in `handleSocketClose`) splits its handler in two.
-- Dimensions come from the fit addon, times from `Date.now()`, and whether `close` throws from the
-- browser: they are arguments. Not modelled here: the xterm instance, touch and clipboard.
pub mod State
pub mod Flow
pub mod Handlers
pub mod Trace
pub mod Timing
pub mod Bounded
pub mod Recovery
pub mod Closed
pub mod Resize
pub mod Debounced
pub mod Single
pub mod Messages
