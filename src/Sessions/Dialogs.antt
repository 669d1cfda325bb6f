-- ===== src/Sessions/Dialogs.antt =====
-- CreateSessionDialog.tsx and RenameSessionDialog.tsx: what they ask for when they are submitted, and
-- what follows the answer.
use terminal_hub.Common.{
  Bool, true, false, ◌||◌, Option, none, some, List, [], ◌∷◌, ◌++◌, Text, codes, ◌==◌,
  if◌then◌else◌, length, trim, text_eq,
}
use terminal_hub.Cron.Env.{Vars}
use terminal_hub.Sessions.Env.{env_vars_map}
use terminal_hub.Sessions.Store.{SessionBackend}

abbrev pub is_blank : Text → Bool
is_blank t = length (trim t) == 0

-- the state of the dialog
pub record CreateForm : Type 0 where
  pub name : Text
  pub working_directory : Text
  pub command : Text
  pub env_vars : Text
  pub backend : SessionBackend

-- `CreateSessionRequest`; the dialog gives no `shell_path`
pub record CreateSessionRequest : Type 0 where
  pub name : Text
  pub working_directory : Option Text
  pub command : Option Text
  pub env_vars : Option Vars
  pub backend : SessionBackend

-- `trim() || undefined`
abbrev pub or_undefined : Text → Option Text
or_undefined t = if is_blank t then none else some (trim t)

abbrev pub some_vars : Vars → Option Vars
some_vars [] = none
some_vars (e ∷ vars) = some (e ∷ vars)

-- what `handleSubmit` asks for, if it asks
unfoldable pub create_request : CreateForm → Option CreateSessionRequest
unfolding env_vars_map
create_request form =
    if is_blank form.name
    then none
    else some (record {
      name = trim form.name;
      working_directory = or_undefined form.working_directory;
      command = or_undefined form.command;
      env_vars = some_vars (env_vars_map form.env_vars);
      backend = form.backend;
    })

-- What `handleSubmit` of the other dialog asks for: the new name.
unfoldable pub rename_request : Text → Text → Option Text
rename_request current_name name =
    if is_blank name || text_eq (trim name) current_name then none else some (trim name)

-- `disabled` of the two buttons
abbrev pub create_disabled : Bool → CreateForm → Bool
create_disabled loading form = loading || is_blank form.name

abbrev pub rename_disabled : Bool → Text → Text → Bool
rename_disabled loading current_name name =
    loading || is_blank name || text_eq (trim name) current_name

-- A dialog of either kind: `sent` are its requests, newest first; the log has the calls of `onClose`
-- and of `navigate`.
pub data Effect : Type 0 where
  closed : Effect
  navigated : Text → Effect

pub record Dialog (R : Type 0) : Type 0 where
  pub loading : Bool
  pub sent : List R
  pub log : List Effect

module _ {R : Type 0} where
  -- `handleSubmit` up to its await
  unfoldable pub submit : Option R → Dialog R → Dialog R
  submit none s = s
  submit (some request) s = record s { loading = true; sent = request ∷ s.sent }

  -- behind its await: the identifier of the new session, or `none` for an error
  unfoldable pub create_settled : Option Text → Dialog R → Dialog R
  create_settled none s = record s { loading = false }
  create_settled (some id) s = record s {
    loading = false;
    log = navigated (codes "/session/" ++ id) ∷ closed ∷ s.log;
  }

  -- behind its await, where the server agrees or not
  unfoldable pub rename_settled : Bool → Dialog R → Dialog R
  rename_settled false s = record s { loading = false }
  rename_settled true s = record s { loading = false; log = closed ∷ s.log }
