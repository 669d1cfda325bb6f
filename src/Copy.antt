-- ===== src/Copy.antt =====
-- frontend/src/features/terminal/CopyTextModal.tsx, as TerminalPage.tsx opens and closes it, with the
-- snapshot of Terminal.tsx that it shows. A write to the clipboard is cut at its await.
pub mod Written
use terminal_hub.Common.{
  ℕ, ◌+◌, ◌-◌, Bool, true, false, not, ◌&&◌, ◌||◌, Option, none, some, List, [], ◌∷◌, Text, codes,
  ◌==◌, if◌then◌else◌, maybe, length, text_eq,
}
use terminal_hub.Snapshot.{Buffer, get_visible_buffer_text_snapshot}

pub data Toast : Type 0 where
  toast_success toast_error : Text → Toast

-- `written` are the arguments of the calls of `writeText`, newest first, of which `writes` await the
-- browser; `focuses` counts the calls that focus the terminal.
pub record CopyText : Type 0 where
  pub copy_modal_open : Bool
  pub copy_modal_content : Text
  pub focus_timeout : Bool
  pub text_focused : Bool
  pub written : List Text
  pub writes : ℕ
  pub focuses : ℕ
  pub toasts : List Toast

abbrev pub initial : CopyText
initial = record {
  copy_modal_open = false;
  copy_modal_content = [];
  focus_timeout = false;
  text_focused = false;
  written = [];
  writes = 0;
  focuses = 0;
  toasts = [];
}

-- `getVisiblePlainTextSnapshot`, `none` where there is no terminal or its buffer cannot be read
unfoldable pub get_visible_plain_text_snapshot : Option Buffer → Text
unfolding get_visible_buffer_text_snapshot
get_visible_plain_text_snapshot none = []
get_visible_plain_text_snapshot (some buffer) = get_visible_buffer_text_snapshot buffer

-- `openCopyTextModal`, with the effect of the modal, which runs where it was closed
unfoldable pub open_copy_text_modal : Option Buffer → CopyText → CopyText
unfolding get_visible_plain_text_snapshot
open_copy_text_modal buffer s = record s {
  copy_modal_content = get_visible_plain_text_snapshot buffer;
  copy_modal_open = true;
  focus_timeout = s.focus_timeout || not s.copy_modal_open;
}

-- `closeCopyTextModal`, with the cleanup of the effect
unfoldable pub close_copy_text_modal : CopyText → CopyText
close_copy_text_modal s = record s {
  copy_modal_open = false;
  focus_timeout = false;
  text_focused = false;
  focuses = s.focuses + 1;
}

-- the timer of `AUTO_FOCUS_DELAY_MS`
unfoldable pub focus_text : CopyText → CopyText
focus_text s =
    if s.focus_timeout then record s { focus_timeout = false; text_focused = true } else s

-- `handleKeyDown`, which listens while the modal is open
unfoldable pub handle_key_down : Text → CopyText → CopyText
unfolding text_eq close_copy_text_modal
handle_key_down key s =
    if s.copy_modal_open && text_eq key (codes "Escape") then close_copy_text_modal s else s

abbrev pub toast : Toast → CopyText → CopyText
toast t s = record s { toasts = t ∷ s.toasts }

-- `handleCopyAll` up to its await, given whether the clipboard can be written
unfoldable pub handle_copy_all : Bool → CopyText → CopyText
handle_copy_all available s =
    if length s.copy_modal_content == 0
    then toast (toast_error (codes "No visible terminal text to copy")) s
    else if not available
    then toast (toast_error (codes "Clipboard API is not available in this browser")) s
    else record s { written = s.copy_modal_content ∷ s.written; writes = s.writes + 1 }

-- behind its await
unfoldable pub copy_ended : Bool → CopyText → CopyText
copy_ended ok s =
    if s.writes == 0
    then s
    else toast
        (if ok
          then toast_success (codes "Copied terminal text")
          else toast_error (codes "Failed to copy terminal text"))
        (record s { writes = s.writes - 1 })

pub data Event : Type 0 where
  opened : Option Buffer → Event
  dismissed focus_fired : Event
  key_down : Text → Event
  copy_pressed copy_answered : Bool → Event

unfoldable pub handle : Event → CopyText → CopyText
unfolding open_copy_text_modal close_copy_text_modal focus_text handle_key_down handle_copy_all
    copy_ended
handle (opened buffer) s = open_copy_text_modal buffer s
handle dismissed s = if s.copy_modal_open then close_copy_text_modal s else s
handle focus_fired s = focus_text s
handle (key_down key) s = handle_key_down key s
handle (copy_pressed available) s = if s.copy_modal_open then handle_copy_all available s else s
handle (copy_answered ok) s = copy_ended ok s

unfoldable pub run : List Event → CopyText → CopyText
unfolding handle
run [] s = s
run (e ∷ es) s = run es (handle e s)
