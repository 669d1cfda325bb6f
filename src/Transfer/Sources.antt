-- ===== src/Transfer/Sources.antt =====
-- Whole runs of FileTransferPanel.tsx with its dialogs: where the paths of its requests come from.
use terminal_hub.Common.{
  ℕ, Bool, true, false, Option, none, some, List, [], ◌∷◌, Text, ◌==◌, not, ◌&&◌, inl, inr, length,
  All, All-get_elem, get_elem?, if_elim, if_both, maybe_elim, text_eq,
}
use terminal_hub.Browse.Query.{Entry}
use terminal_hub.Browse.Picker.{
  Picker, opened, closed, entered, upped, refreshed, toggled, answered, open_changed, path_browsed,
  browse_path, go_up, refresh, handle_toggle_hidden, reset, is_enabled, is_no_session,
}
use terminal_hub.Browse.Picker
use terminal_hub.Transfer.Panel.{
  upload_path_picked, download_path_picked, may_edit_upload, may_edit_download,
}
use terminal_hub.Transfer.Pickers.{
  Flow, upload, download, Transfers, Event, flow_chosen, in_panel, browse_pressed, use_pressed,
  select_pressed, in_picker, initial, is_shown, is_offered, path_changed, use_panel, press_browse,
  use_current_folder, select_entry, select_row, handle, run, open_picker,
}
use terminal_hub.Transfer.Given.{
  IsFileGiven, IsAnswerGiven, IsGiven, HasGivenRequests, HasGivenPaths, HasGivenRows,
  handle-HasGivenPaths,
}

module _ (P : Text → Type 0) (string_of : ℕ → Text) (session : Option Text) (empty : P []) where
  abbrev IsSourced : Transfers → Type 0
  IsSourced s =
      HasGivenPaths P s.panel × HasGivenRows P s.upload_picker × HasGivenRows P s.download_picker

  browse-HasGivenRows :
      (path : Option Text) (override : Option Bool) (p : Picker)
      → HasGivenRows P p
      → HasGivenRows P (browse_path session path override p)
  unfolding browse_path
  browse-HasGivenRows path override p (h, k) =
      if_both (HasGivenRows P) (is_no_session session) (h, tt) (h, k)

  open_changed-HasGivenRows :
      (is_open : Bool) (path : Text) (p : Picker)
      → HasGivenRows P p
      → HasGivenRows P (open_changed session is_open path p)
  unfolding open_changed reset
  open_changed-HasGivenRows true path p h =
      browse-HasGivenRows _ none (record p { is_open = true }) h
  open_changed-HasGivenRows false path p h = (empty, tt)

  picker-HasGivenRows :
      (e : Picker.Event) (p : Picker)
      → IsAnswerGiven P e
      → HasGivenRows P p
      → HasGivenRows P (Picker.handle session e p)
  unfolding Picker.handle path_browsed go_up refresh handle_toggle_hidden
  picker-HasGivenRows (opened path) p g h = open_changed-HasGivenRows true path p h
  picker-HasGivenRows closed p g h = open_changed-HasGivenRows false [] p h
  picker-HasGivenRows (entered path) p g h =
      if_both (HasGivenRows P) (is_enabled p) (browse-HasGivenRows (some path) none p h) h
  picker-HasGivenRows upped p g h =
      if_both (HasGivenRows P) (is_enabled p)
        (if_both (HasGivenRows P) (length p.parent_path == 0) h
          (browse-HasGivenRows (some p.parent_path) none p h))
        h
  picker-HasGivenRows refreshed p g h =
      if_both (HasGivenRows P) (is_enabled p) (browse-HasGivenRows _ none p h) h
  picker-HasGivenRows (toggled next) p g h =
      if_both (HasGivenRows P) (is_enabled p)
        (browse-HasGivenRows _ (some next) (record p { show_hidden = next }) h) h
  picker-HasGivenRows (answered (inl message)) p g (h, k) = (h, tt)
  picker-HasGivenRows (answered (inr listing)) p g h = g

  changed-HasGivenRows :
      (old new : Text) (p : Picker)
      → HasGivenRows P p
      → HasGivenRows P (path_changed string_of session old new p)
  unfolding path_changed
  changed-HasGivenRows old new p h =
      if_both (HasGivenRows P) (text_eq old new) h (open_changed-HasGivenRows p.is_open new p h)

  open-HasGivenRows :
      (path : Text) (p : Picker)
      → HasGivenRows P p
      → HasGivenRows P (open_picker string_of session path p)
  open-HasGivenRows path p h =
      if_both (HasGivenRows P) p.is_open h (picker-HasGivenRows (opened path) p tt h)

  browse-IsSourced :
      (flow : Flow) (s : Transfers)
      → IsSourced s
      → IsSourced (press_browse string_of session flow s)
  unfolding press_browse
  browse-IsSourced upload s (h, u, d) =
      if_both IsSourced (may_edit_upload (not (is_no_session session)) s.panel)
        (h, open-HasGivenRows s.panel.upload_path s.upload_picker u, d) (h, u, d)
  browse-IsSourced download s (h, u, d) =
      if_both IsSourced (may_edit_download (not (is_no_session session)) s.panel)
        (h, u, open-HasGivenRows s.panel.download_path s.download_picker d) (h, u, d)

  use-IsSourced : (s : Transfers) → IsSourced s → IsSourced (use_current_folder string_of session s)
  unfolding use_current_folder
  use-IsSourced s (h, (c, k), d) =
      if_both IsSourced
        (is_enabled s.upload_picker && not (length s.upload_picker.current_path == 0))
        (
          handle-HasGivenPaths P string_of (not (is_no_session session))
              (upload_path_picked s.upload_picker.current_path) s.panel c h,
          picker-HasGivenRows closed s.upload_picker tt (c, k),
          d,
        )
        (h, (c, k), d)

  select_entry-IsSourced :
      (entry : Entry) (s : Transfers)
      → IsFileGiven P entry
      → IsSourced s
      → IsSourced (select_entry string_of session entry s)
  unfolding select_entry
  select_entry-IsSourced entry s g (h, u, d) =
      if_elim IsSourced entry.is_directory (λ _. (h, u, d))
        (λ file. (
          handle-HasGivenPaths P string_of (not (is_no_session session))
              (download_path_picked entry.path) s.panel (g file) h,
          u,
          picker-HasGivenRows closed s.download_picker tt d,
        ))

  select-IsSourced :
      (n : ℕ) (s : Transfers) → IsSourced s → IsSourced (select_row string_of session n s)
  unfolding select_row
  select-IsSourced n s (h, u, (c, k)) =
      if_both IsSourced (is_enabled s.download_picker)
        (maybe_elim IsSourced (get_elem? s.download_picker.entries n) (λ _. (h, u, (c, k)))
          (λ entry e.
            select_entry-IsSourced entry s
              (All-get_elem (IsFileGiven P) n s.download_picker.entries entry e k) (h, u, (c, k))))
        (h, u, (c, k))

  handle-IsSourced :
      (e : Event) (s : Transfers)
      → IsGiven P e
      → IsSourced s
      → IsSourced (handle string_of session e s)
  unfolding handle use_panel
  handle-IsSourced (flow_chosen flow) s g h = h
  handle-IsSourced (in_panel e) s g (h, u, d) =
      if_both IsSourced (is_shown s.active_flow e)
        (
          handle-HasGivenPaths P string_of (not (is_no_session session)) e s.panel g h,
          changed-HasGivenRows _ _ s.upload_picker u,
          changed-HasGivenRows _ _ s.download_picker d,
        )
        (h, u, d)
  handle-IsSourced browse_pressed s g h = browse-IsSourced s.active_flow s h
  handle-IsSourced use_pressed s g h = use-IsSourced s h
  handle-IsSourced (select_pressed n) s g h = select-IsSourced n s h
  handle-IsSourced (in_picker upload e) s g (h, u, d) = (
    h,
    if_both (HasGivenRows P) (is_offered s.upload_picker e) (picker-HasGivenRows e _ g u) u,
    d,
  )
  handle-IsSourced (in_picker download e) s g (h, u, d) = (
    h,
    u,
    if_both (HasGivenRows P) (is_offered s.download_picker e) (picker-HasGivenRows e _ g d) d,
  )

  run-IsSourced :
      (es : List Event) (s : Transfers)
      → All (IsGiven P) es
      → IsSourced s
      → IsSourced (run string_of session es s)
  unfolding run
  run-IsSourced [] s g h = h
  run-IsSourced (e ∷ es) s (g, gs) h =
      run-IsSourced es (handle string_of session e s) gs (handle-IsSourced e s g h)

  -- The panel makes up no path. Let P be any predicate that the empty text, the path that the panel
  -- starts with, every path that the user types, and, of every directory that the server lists, the
  -- path of it and the paths of its files satisfy. Then whatever is done with the fields and the two
  -- dialogs, the path of every upload that runs and of every download that was asked for is a text
  -- with P, trimmed.
  pub run-HasGivenRequests :
      (path : Text) (es : List Event)
      → P path
      → All (IsGiven P) es
      → HasGivenRequests P (run string_of session es (initial path)).panel
  run-HasGivenRequests path es p g =
      let ((_, _, u, r), _, _) =
        run-IsSourced es (initial path) g ((p, empty, tt, tt), (empty, tt), (empty, tt)) in
      (u, r)
