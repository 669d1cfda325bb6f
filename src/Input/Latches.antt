-- ===== src/Input/Latches.antt =====
-- The latched modifiers over any sequence of events.
use terminal_hub.Common.{
  ℕ, ◌+◌, ◌≡◌, ◌≤◌, refl, Bool, true, false, not, ◌||◌, ◌&&◌, Option, none, some, List, [], ◌∷◌,
  Text, if◌then◌else◌, arith, Bool-cases, Option-cases, inl, inr, ◌⊎◌,
}
use terminal_hub.Keys.{
  Modifiers, has_latched_modifiers, sequence_from_latched_key, sequence_from_latched_input_chunk,
}
use terminal_hub.Input.Events.{
  KeyEvent, Input, Modifier, consume, reset_latched_modifiers, toggle_modifier, synced, copied,
  copy_selection, paste_from_clipboard, pasted, handle_paste_event, handle_latched_modifier_input,
  ClipboardAction, copy, paste, handle_custom_key_event, on_data, get_clipboard_shortcut_action,
  use_clipboard, emit, default_prevented, Effect, text_written, text_asked, sent, toast_error,
  toast_success,
}

-- A key with the two selections, typed text, a modifier key of the page, the effect that follows it,
-- a copy or a paste that ends, a paste event.
pub data Event : Type 0 where
  key_pressed : KeyEvent → Text → Text → Bool → Event
  data_typed : Text → Event
  modifier_toggled : Modifier → Event
  effect_run : Event
  copy_ended : Bool → Event
  paste_ended : Option Text → Event
  paste_event : Text → Event

-- how often a modifier key of the page was pressed
unfoldable pub toggles : List Event → ℕ
toggles [] = 0
toggles (modifier_toggled m ∷ es) = 1 + toggles es
toggles (key_pressed e t w c ∷ es) = toggles es
toggles (data_typed text ∷ es) = toggles es
toggles (effect_run ∷ es) = toggles es
toggles (copy_ended ok ∷ es) = toggles es
toggles (paste_ended text ∷ es) = toggles es
toggles (paste_event text ∷ es) = toggles es

abbrev pub is_toggle : Event → ℕ
is_toggle e = toggles (e ∷ [])

abbrev is_call : Effect → ℕ
is_call (text_written text) = 1
is_call text_asked = 1
is_call (sent text) = 1
is_call default_prevented = 0
is_call (toast_error message) = 0
is_call (toast_success message) = 0

-- the inputs that are sent and the uses of the clipboard
unfoldable pub calls : List Effect → ℕ
calls [] = 0
calls (e ∷ log) = is_call e + calls log

-- whether any modifier is held, by the ref or by the page
abbrev pub held : Input → ℕ
held s =
    if has_latched_modifiers s.latched_ref || has_latched_modifiers s.page_modifiers then 1 else 0

clipboard-latches :
    (a : ClipboardAction) (t w : Text) (c : Bool) (s : Input)
    → let u = use_clipboard a t w c s in (u.used ≡ s.used) × (held u ≡ held s)
unfolding copy_selection paste_from_clipboard
clipboard-latches copy t w c s = ground arith
clipboard-latches paste t w c s = ground arith

clipboard-calls :
    (a : ClipboardAction) (t w : Text) (c : Bool) (s : Input)
    → calls (use_clipboard a t w c s).log ≤ 1 + calls s.log
unfolding copy_selection paste_from_clipboard calls
clipboard-calls copy t w c s = ground arith
clipboard-calls paste t w c s = ground arith

abbrev pub IsOnce : Input → Bool × Input → Type 0
IsOnce s r = ((r.0 ≡ true) × (r.1 ≡ s)) ⊎ ((r.0 ≡ false) × (calls r.1.log ≤ 1 + calls s.log))

toggles-cons : (e : Event) (es : List Event) → toggles (e ∷ es) ≡ is_toggle e + toggles es
unfolding toggles
toggles-cons (key_pressed e t w c) es = omega arith
toggles-cons (data_typed text) es = omega arith
toggles-cons (modifier_toggled m) es = omega arith
toggles-cons effect_run es = omega arith
toggles-cons (copy_ended ok) es = omega arith
toggles-cons (paste_ended text) es = omega arith
toggles-cons (paste_event text) es = omega arith

abbrev has_sequence : Option Text → Bool
has_sequence none = false
has_sequence (some sequence) = true

module _ (unicode_upper : ℕ → Text) where
  sequence-latched :
      (key : Text) (m : Modifiers)
      → has_latched_modifiers m ≡ false
      → sequence_from_latched_key unicode_upper key m ≡ none
  unfolding sequence_from_latched_key
  sequence-latched key m h = ground (arith, h)

  unfoldable pub handle : Event → Input → Input
  unfolding handle_custom_key_event on_data toggle_modifier synced copied pasted handle_paste_event
  handle (key_pressed e terminal_text window_text has_clipboard) s =
      (handle_custom_key_event unicode_upper e terminal_text window_text has_clipboard s).1
  handle (data_typed text) s = on_data unicode_upper text s
  handle (modifier_toggled m) s = toggle_modifier m s
  handle effect_run s = synced s
  handle (copy_ended ok) s = copied ok s
  handle (paste_ended text) s = pasted text s
  handle (paste_event text) s = handle_paste_event text s

  unfoldable pub run : List Event → Input → Input
  unfolding handle
  run [] s = s
  run (e ∷ es) s = run es (handle e s)

  latched-latches :
      (e : KeyEvent) (s : Input)
      → let u = (handle_latched_modifier_input unicode_upper e s).1 in
        u.used + held u ≤ s.used + held s
  unfolding handle_latched_modifier_input consume reset_latched_modifiers
  latched-latches e s =
      elim (Option-cases (sequence_from_latched_key unicode_upper e.key s.latched_ref)) [
        | inl u ↦ ground (arith, u)
        | inr (q, u) ↦ ground (arith, u)
      ]

  typed-latches :
      (text : Text) (s : Input)
      → let u = on_data unicode_upper text s in u.used + held u ≤ s.used + held s
  unfolding on_data consume reset_latched_modifiers sequence_from_latched_input_chunk
  typed-latches text s = ground arith

  key-latches :
      (e : KeyEvent) (t w : Text) (c : Bool) (s : Input)
      → let u = (handle_custom_key_event unicode_upper e t w c s).1 in
        u.used + held u ≤ s.used + held s
  unfolding handle_custom_key_event
  key-latches e t w c s = elim (Option-cases (get_clipboard_shortcut_action e)) [
    | inl u ↦ ground (arith, u, latched-latches e s)
    | inr (a, u) ↦ ground (arith, u, clipboard-latches a t w c (emit default_prevented s))
  ]

  -- no event uses more modifiers than are held or were just latched
  handle-latches :
      (e : Event) (s : Input)
      → (handle e s).used + held (handle e s) ≤ s.used + held s + is_toggle e
  unfolding handle toggles toggle_modifier synced copied pasted handle_paste_event
  handle-latches (key_pressed e t w c) s = ground (arith, key-latches e t w c s)
  handle-latches (data_typed text) s = ground (arith, typed-latches text s)
  handle-latches (modifier_toggled m) s = ground arith
  handle-latches effect_run s = ground arith
  handle-latches (copy_ended true) s = ground arith
  handle-latches (copy_ended false) s = ground arith
  handle-latches (paste_ended none) s = ground arith
  handle-latches (paste_ended (some text)) s = ground arith
  handle-latches (paste_event text) s = ground arith

  consumed-at_most : (es : List Event) (s : Input) → (run es s).used ≤ s.used + held s + toggles es
  unfolding run
  consumed-at_most [] s = omega arith
  consumed-at_most (e ∷ es) s =
      ground (arith, handle-latches e s, toggles-cons e es, consumed-at_most es (handle e s))

  -- whether an event has the latched modifiers applied to it: a key that is pressed with no modifier
  -- of its own and has a sequence, or a typed text whose first character has one
  unfoldable pub applied : Event → Input → ℕ
  applied (key_pressed e t w c) s =
      if e.is_keydown
        && not (e.ctrl_key || e.alt_key || e.meta_key)
        && has_sequence (sequence_from_latched_key unicode_upper e.key s.latched_ref)
      then 1
      else 0
  applied (data_typed text) s =
      if (sequence_from_latched_input_chunk unicode_upper text s.latched_ref).applied then 1 else 0
  applied (modifier_toggled m) s = 0
  applied effect_run s = 0
  applied (copy_ended ok) s = 0
  applied (paste_ended text) s = 0
  applied (paste_event text) s = 0

  -- how often modifiers are applied in a run
  unfoldable pub applications : List Event → Input → ℕ
  unfolding applied handle
  applications [] s = 0
  applications (e ∷ es) s = applied e s + applications es (handle e s)

  key-consumed :
      (e : KeyEvent) (t w : Text) (c : Bool) (s : Input)
      → (handle_custom_key_event unicode_upper e t w c s).1.used
        ≡ s.used + applied (key_pressed e t w c) s
  unfolding applied handle_custom_key_event handle_latched_modifier_input consume
      reset_latched_modifiers get_clipboard_shortcut_action
  key-consumed e t w c s =
      elim (Option-cases (sequence_from_latched_key unicode_upper e.key s.latched_ref)) [
        | inl u ↦ ground (
          arith,
          u,
          clipboard-latches copy t w c (emit default_prevented s),
          clipboard-latches paste t w c (emit default_prevented s),
        )
        | inr (q, u) ↦ ground (
          arith,
          u,
          sequence-latched e.key s.latched_ref,
          clipboard-latches copy t w c (emit default_prevented s),
          clipboard-latches paste t w c (emit default_prevented s),
        )
      ]

  handle-consumed : (e : Event) (s : Input) → (handle e s).used ≡ s.used + applied e s
  unfolding handle applied toggle_modifier synced copied pasted handle_paste_event on_data consume
      reset_latched_modifiers
  handle-consumed (key_pressed e t w c) s = key-consumed e t w c s
  handle-consumed (data_typed text) s = ground arith
  handle-consumed (modifier_toggled m) s = omega arith
  handle-consumed effect_run s = omega arith
  handle-consumed (copy_ended true) s = omega arith
  handle-consumed (copy_ended false) s = omega arith
  handle-consumed (paste_ended none) s = omega arith
  handle-consumed (paste_ended (some text)) s = ground arith
  handle-consumed (paste_event text) s = ground arith

  run-consumed : (es : List Event) (s : Input) → (run es s).used ≡ s.used + applications es s
  unfolding run applications
  run-consumed [] s = omega arith
  run-consumed (e ∷ es) s = omega (arith, handle-consumed e s, run-consumed es (handle e s))

  -- However keys, typed text and the modifier keys of the page follow each other, latched modifiers
  -- are applied no more often than a modifier key was pressed, and once more where some were held
  -- before; and each time that they are applied to a key or to a text, they are consumed once.
  pub run-used :
      (es : List Event) (s : Input)
      → (applications es s ≤ held s + toggles es) × ((run es s).used ≡ s.used + applications es s)
  run-used es s = (omega (arith, run-consumed es s, consumed-at_most es s), run-consumed es s)

  latched-IsOnce :
      (e : KeyEvent) (s : Input) → IsOnce s (handle_latched_modifier_input unicode_upper e s)
  unfolding handle_latched_modifier_input consume reset_latched_modifiers calls
  latched-IsOnce e s = elim (Bool-cases (has_latched_modifiers s.latched_ref)) [
    | inl h ↦ elim (Option-cases (sequence_from_latched_key unicode_upper e.key s.latched_ref)) [
      | inl u ↦ rw (h, u) (inl (refl, refl))
      | inr (q, u) ↦ rw (h, u) (inr (refl, omega arith))
    ]
    | inr h ↦ rw h (inl (refl, refl))
  ]

  -- A key that the terminal leaves to xterm changes nothing here, and a key that it takes calls
  -- for at most one input or one use of the clipboard: a key is never both sent and passed on.
  key-IsOnce :
      (e : KeyEvent) (t w : Text) (c : Bool) (s : Input)
      → IsOnce s (handle_custom_key_event unicode_upper e t w c s)
  unfolding handle_custom_key_event calls
  key-IsOnce e t w c s =
      let native = not e.is_keydown || e.ctrl_key || e.alt_key || e.meta_key in
      elim (Option-cases (get_clipboard_shortcut_action e)) [
        | inl u ↦ elim (Bool-cases native) [
          | inl v ↦ rw (u, v) (inl (refl, refl))
          | inr v ↦ rw (u, v) (latched-IsOnce e s)
        ]
        | inr (a, u) ↦ elim (Bool-cases e.is_keydown) [
          | inl v ↦
              let called = clipboard-calls a t w c (emit default_prevented s) in
              rw (u, v) (inr (refl, ground (arith, called)))
          | inr v ↦ rw (u, v) (inr (refl, omega arith))
        ]
      ]
