-- ===== src/Input/Events.antt =====
-- The handlers of the input of Terminal.tsx, with the clipboard's functions cut at their awaits, and
-- the modifiers of TerminalPage.tsx.
use terminal_hub.Common.{
  ℕ, ◌+◌, Bool, true, false, not, ◌||◌, Option, none, some, List, ◌∷◌, Text, codes, ◌==◌,
  if◌then◌else◌, maybe, length, text_eq,
}
use terminal_hub.Keys.{
  Modifiers, default_modifiers, has_latched_modifiers, sequence_from_latched_key,
  sequence_from_latched_input_chunk,
}

-- what a `KeyboardEvent` is asked for
pub record KeyEvent : Type 0 where
  pub key : Text
  pub is_keydown : Bool
  pub ctrl_key : Bool
  pub alt_key : Bool
  pub meta_key : Bool
  pub shift_key : Bool

pub data ClipboardAction : Type 0 where
  copy paste : ClipboardAction

-- `key.toLowerCase() === …`: the two letters have no other capitals
abbrev is_key : Text → Text → Text → Bool
is_key key small capital = text_eq key small || text_eq key capital

unfoldable pub get_clipboard_shortcut_action : KeyEvent → Option ClipboardAction
get_clipboard_shortcut_action e =
    if not (e.ctrl_key || e.meta_key) || not e.shift_key || e.alt_key
    then none
    else if is_key e.key (codes "c") (codes "C")
    then some copy
    else if is_key e.key (codes "v") (codes "V")
    then some paste
    else none

-- What is called outside: `writeText`, `readText`, toasts, `preventDefault`, and `send`s.
pub data Effect : Type 0 where
  text_written : Text → Effect
  text_asked default_prevented : Effect
  toast_error toast_success : Text → Effect
  sent : Text → Effect

-- `latched_ref` is the ref of the terminal, `page_modifiers` the state of the page. `used` counts the
-- calls of `onConsumeLatchedModifiers`.
pub record Input : Type 0 where
  pub latched_ref : Modifiers
  pub page_modifiers : Modifiers
  pub used : ℕ
  pub log : List Effect

abbrev pub emit : Effect → Input → Input
emit e s = record s { log = e ∷ s.log }

-- `resetLatchedModifiers` of the page
unfoldable pub reset_latched_modifiers : Input → Input
reset_latched_modifiers s = record s { page_modifiers = default_modifiers }

-- what both places do that consume the modifiers
unfoldable pub consume : Input → Input
unfolding reset_latched_modifiers
consume s =
    reset_latched_modifiers (record s { latched_ref = default_modifiers; used = s.used + 1 })

-- `LatchedModifierKey`
pub data Modifier : Type 0 where
  ctrl_modifier alt_modifier shift_modifier : Modifier

abbrev flip : Modifier → Modifiers → Modifiers
flip ctrl_modifier m = record m { ctrl = not m.ctrl }
flip alt_modifier m = record m { alt = not m.alt }
flip shift_modifier m = record m { shift = not m.shift }

unfoldable pub toggle_modifier : Modifier → Input → Input
toggle_modifier modifier s = record s { page_modifiers = flip modifier s.page_modifiers }

-- the effect that follows a change of the page's state
unfoldable pub synced : Input → Input
synced s = record s { latched_ref = s.page_modifiers }

-- `copySelectionToClipboard` up to its await: the selections of the terminal and of the window, and
-- whether there is a clipboard
unfoldable pub copy_selection : Text → Text → Bool → Input → Input
copy_selection terminal_text window_text has_clipboard s =
    let selected_text = if length terminal_text == 0 then window_text else terminal_text in
    if length selected_text == 0
    then emit (toast_error (codes "No text selected to copy")) s
    else if not has_clipboard
    then emit (toast_error (codes "Clipboard API is not available in this browser")) s
    else emit (text_written selected_text) s

unfoldable pub copied : Bool → Input → Input
copied true s = emit (toast_success (codes "Copied to clipboard")) s
copied false s = emit (toast_error (codes "Failed to copy to clipboard")) s

-- `pasteFromClipboard` up to its await
unfoldable pub paste_from_clipboard : Bool → Input → Input
paste_from_clipboard has_clipboard s =
    if has_clipboard
    then emit text_asked s
    else emit (toast_error (codes "Clipboard API is not available in this browser")) s

-- behind its await: `none` where it throws
unfoldable pub pasted : Option Text → Input → Input
pasted none s = emit (toast_error (codes "Failed to paste from clipboard")) s
pasted (some text) s = if length text == 0 then s else emit (sent text) s

-- `handlePasteEvent`, given the text of the event, which is empty if it has none
unfoldable pub handle_paste_event : Text → Input → Input
handle_paste_event text s =
    let t = emit default_prevented s in if length text == 0 then t else emit (sent text) t

-- `has_clipboard` tells whether the browser has the clipboard's functions, `terminal_text` and
-- `window_text` are the selections at the time of the event.
abbrev pub use_clipboard : ClipboardAction → Text → Text → Bool → Input → Input
use_clipboard copy terminal_text window_text has_clipboard s =
    copy_selection terminal_text window_text has_clipboard s
use_clipboard paste terminal_text window_text has_clipboard s = paste_from_clipboard has_clipboard s

module _ (unicode_upper : ℕ → Text) where
  abbrev pub used_key : Option Text → Input → Bool × Input
  used_key none s = (true, s)
  used_key (some sequence) s = (false, consume (emit (sent sequence) (emit default_prevented s)))

  -- with the modifiers of the ref
  unfoldable pub handle_latched_modifier_input : KeyEvent → Input → Bool × Input
  unfolding consume
  handle_latched_modifier_input e s =
      if not (has_latched_modifiers s.latched_ref)
      then (true, s)
      else used_key (sequence_from_latched_key unicode_upper e.key s.latched_ref) s

  -- The result tells whether xterm goes on with the key.
  unfoldable pub handle_custom_key_event : KeyEvent → Text → Text → Bool → Input → Bool × Input
  unfolding get_clipboard_shortcut_action copy_selection paste_from_clipboard
      handle_latched_modifier_input
  handle_custom_key_event e terminal_text window_text has_clipboard s =
      let typed =
        if not e.is_keydown || e.ctrl_key || e.alt_key || e.meta_key
        then (true, s)
        else handle_latched_modifier_input e s in
      maybe (get_clipboard_shortcut_action e) typed (λ action. (
        false,
        if e.is_keydown
            then use_clipboard action terminal_text window_text has_clipboard
                (emit default_prevented s)
            else s,
      ))

  -- the listener of `onData`
  unfoldable pub on_data : Text → Input → Input
  unfolding consume
  on_data typed s =
      let input = sequence_from_latched_input_chunk unicode_upper typed s.latched_ref in
      let t = emit (sent input.output) s in if input.applied then consume t else t
