-- ===== src/Cron/Expanded.antt =====
-- The buttons of CronHistoryDialog.tsx and the texts that it cuts.
use terminal_hub.Common.{
  ℕ, ◌≡◌, refl, not, true, false, some, List, Text, ◌⊎◌, inl, inr, ◌&&◌, if◌then◌else◌, length,
  includes, leb, text_eq, text_eq_refl, arith, Bool-cases,
}
use terminal_hub.Cron.History.{
  CronExecutionResult, HistoryDialog, has_long_output, shown_content, truncate_content,
}
use terminal_hub.Cron.Shown.{includes-toggle_expanded}
use terminal_hub.Cron.Executions.{Row, view_full_output, shown_text, row_of, button_pressed, handle}

-- what is shown is not cut
abbrev pub IsWhole : Row → CronExecutionResult → Type 0
IsWhole row execution =
    (row.output ≡ shown_text execution.output execution.output)
    × (row.error ≡ shown_text execution.error execution.error)

module _ (string_of : ℕ → Text) where
  -- A row depends on the set of the executions that are shown in full by its own only.
  same-row :
      (e : CronExecutionResult) (xs ys : List Text)
      → includes e.execution_id xs ≡ includes e.execution_id ys
      → row_of string_of xs e ≡ row_of string_of ys e
  unfolding row_of shown_content
  same-row e xs ys h = rw h refl

  expanded-IsWhole :
      (e : CronExecutionResult) (expanded : List Text)
      → includes e.execution_id expanded ≡ true
      → IsWhole (row_of string_of expanded e) e
  unfolding row_of shown_content
  expanded-IsWhole e expanded h = rw h (refl, refl)

  short-IsWhole :
      (e : CronExecutionResult) (expanded : List Text)
      → has_long_output e ≡ false
      → IsWhole (row_of string_of expanded e) e
  unfolding row_of shown_content truncate_content has_long_output
  short-IsWhole e expanded h =
      let output : leb (length e.output) 280 ≡ true = ground (arith, h) in
      let error : leb (length e.error) 280 ≡ true = ground (arith, h) in
      rw (output, error) (ground arith, ground arith)

  row_of-IsWhole :
      (e : CronExecutionResult) (expanded : List Text)
      → IsWhole (row_of string_of expanded e) e
        ⊎ ((includes e.execution_id expanded ≡ false) × (has_long_output e ≡ true))
  row_of-IsWhole e expanded = elim (Bool-cases (includes e.execution_id expanded)) [
    | inl h ↦ inl (expanded-IsWhole e expanded h)
    | inr h ↦ elim (Bool-cases (has_long_output e)) [
      | inl k ↦ inr (h, k)
      | inr k ↦ inl (short-IsWhole e expanded k)
    ]
  ]

  includes-pressed :
      (e : CronExecutionResult) (y : Text) (s : HistoryDialog)
      → includes y (handle (button_pressed e) s).expanded_ids ≡ (
          if has_long_output e && text_eq e.execution_id y
          then not (includes y s.expanded_ids)
          else includes y s.expanded_ids)
  unfolding handle
  includes-pressed e y s = ground (arith, includes-toggle_expanded e.execution_id y s.expanded_ids)

  cut-button :
      (e : CronExecutionResult) (expanded : List Text)
      → includes e.execution_id expanded ≡ false
      → has_long_output e ≡ true
      → (row_of string_of expanded e).button ≡ some view_full_output
  unfolding row_of
  cut-button e expanded h k = rw (h, k) refl

  -- No text of an execution is cut for good: the dialog shows its output and its error whole, or it
  -- has the button that shows the full output, and does so. Pressed twice, the button leaves the row
  -- as it was, and it changes no row of another execution.
  pub row-IsWhole :
      (e other : CronExecutionResult) (s : HistoryDialog)
      → text_eq e.execution_id other.execution_id ≡ false
      → let t = handle (button_pressed e) s in
        (IsWhole (row_of string_of s.expanded_ids e) e
          ⊎ (((row_of string_of s.expanded_ids e).button ≡ some view_full_output)
              × IsWhole (row_of string_of t.expanded_ids e) e))
        × (row_of string_of (handle (button_pressed e) t).expanded_ids e
            ≡ row_of string_of s.expanded_ids e)
        × (row_of string_of t.expanded_ids other ≡ row_of string_of s.expanded_ids other)
  row-IsWhole e other s h = (
    elim (row_of-IsWhole e s.expanded_ids) [
      | inl whole ↦ inl whole
      | inr (cut, long) ↦ inr (
        cut-button e s.expanded_ids cut long,
        expanded-IsWhole e _ (
            ground
              (arith, cut, long, includes-pressed e e.execution_id s, text_eq_refl e.execution_id)),
      )
    ],
    same-row e _ _ (
        ground (
          arith,
          includes-pressed e e.execution_id s,
          includes-pressed e e.execution_id (handle (button_pressed e) s),
          text_eq_refl e.execution_id,
        )),
    same-row other _ _ (ground (arith, h, includes-pressed e other.execution_id s)),
  )
