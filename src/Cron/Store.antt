-- ===== src/Cron/Store.antt =====
-- frontend/src/features/crons/CronContext.tsx: the list of jobs on the client. A call of the server
-- is cut at its await: an event is its answer, on the left the message of the error that it throws.
use terminal_hub.Common.{
  Bool, true, false, Option, none, some, List, [], ◌∷◌, ◌++◌, Text, codes, if◌then◌else◌, text_eq,
  ◌⊎◌, inl, inr,
}
use terminal_hub.Cron.Api.{CronJob}

pub data Effect : Type 0 where
  toast_error toast_success : Text → Effect

pub record CronStore : Type 0 where
  pub crons : List CronJob
  pub loading : Bool
  pub error : Option Text
  pub log : List Effect

unfoldable pub replace_cron_job : List CronJob → CronJob → List CronJob
replace_cron_job [] updated = []
replace_cron_job (x ∷ xs) updated =
    (if text_eq x.id updated.id then updated else x) ∷ replace_cron_job xs updated

-- the `map` of `enableCron` and `disableCron`
unfoldable pub set_enabled : Text → Bool → List CronJob → List CronJob
set_enabled id flag [] = []
set_enabled id flag (x ∷ xs) =
    (if text_eq x.id id then record x { enabled = flag } else x) ∷ set_enabled id flag xs

-- `filter((job) => job.id !== id)`
unfoldable pub without_job : Text → List CronJob → List CronJob
without_job id [] = []
without_job id (x ∷ xs) = let rest = without_job id xs in if text_eq x.id id then rest else x ∷ rest

abbrev pub toast : Effect → CronStore → CronStore
toast e s = record s { log = e ∷ s.log }

-- `refreshCrons` up to its await
unfoldable pub begin_refresh : Bool → CronStore → CronStore
begin_refresh silent s = if silent then s else record s { loading = true }

abbrev pub finish_loading : Bool → CronStore → CronStore
finish_loading silent s = if silent then s else record s { loading = false }

-- `refreshCrons` behind its await
unfoldable pub refreshed : Bool → Text ⊎ List CronJob → CronStore → CronStore
refreshed silent (inl message) s =
    let t = record s { error = some message } in
    finish_loading silent (if silent then t else toast (toast_error message) t)
refreshed silent (inr jobs) s = finish_loading silent (record s { crons = jobs; error = none })

-- the silent refresh at the end of an action: its error is caught there once more
unfoldable pub refreshed_after : Text ⊎ List CronJob → CronStore → CronStore
unfolding refreshed
refreshed_after (inl message) s = toast (toast_error message) (refreshed true (inl message) s)
refreshed_after (inr jobs) s = refreshed true (inr jobs) s

-- `createCron`, given the name in its request
unfoldable pub created : Text → Text ⊎ CronJob → CronStore → CronStore
unfolding without_job
created name (inl message) s = toast (toast_error message) s
created name (inr job) s =
    toast (toast_success (codes "Cron job \"" ++ (name ++ codes "\" created successfully")))
      (record s { crons = job ∷ without_job job.id s.crons; error = none })

unfoldable pub updated : Text ⊎ CronJob → CronStore → CronStore
unfolding replace_cron_job
updated (inl message) s = toast (toast_error message) s
updated (inr job) s =
    toast (toast_success (codes "Cron job updated successfully"))
      (record s { crons = replace_cron_job s.crons job; error = none })

-- `deleteCron`, `none` where the server agrees
unfoldable pub deleted : Text → Option Text → CronStore → CronStore
unfolding without_job
deleted id (some message) s = toast (toast_error message) s
deleted id none s =
    toast (toast_success (codes "Cron job deleted successfully"))
      (record s { crons = without_job id s.crons; error = none })

unfoldable pub ran : Option Text → CronStore → CronStore
ran (some message) s = toast (toast_error message) s
ran none s = toast (toast_success (codes "Cron job executed successfully")) s

abbrev pub switch_text : Bool → Text
switch_text flag = if flag then codes "Cron job enabled" else codes "Cron job disabled"

-- `enableCron` and `disableCron`
unfoldable pub switched : Text → Bool → Option Text → CronStore → CronStore
unfolding set_enabled
switched id flag (some message) s = toast (toast_error message) s
switched id flag none s =
    toast (toast_success (switch_text flag)) (record s { crons = set_enabled id flag s.crons })

-- `getCronHistory`
unfoldable pub history_read : Option Text → CronStore → CronStore
history_read (some message) s = toast (toast_error message) s
history_read none s = s

pub data Event : Type 0 where
  refresh_begun : Bool → Event
  refresh_answered : Bool → Text ⊎ List CronJob → Event
  action_refresh_answered : Text ⊎ List CronJob → Event
  create_answered : Text → Text ⊎ CronJob → Event
  update_answered : Text ⊎ CronJob → Event
  delete_answered : Text → Option Text → Event
  run_answered : Option Text → Event
  switch_answered : Text → Bool → Option Text → Event
  history_answered : Option Text → Event

unfoldable pub handle : Event → CronStore → CronStore
unfolding begin_refresh refreshed refreshed_after created updated deleted ran switched history_read
handle (refresh_begun silent) s = begin_refresh silent s
handle (refresh_answered silent answer) s = refreshed silent answer s
handle (action_refresh_answered answer) s = refreshed_after answer s
handle (create_answered name answer) s = created name answer s
handle (update_answered answer) s = updated answer s
handle (delete_answered id answer) s = deleted id answer s
handle (run_answered answer) s = ran answer s
handle (switch_answered id flag answer) s = switched id flag answer s
handle (history_answered answer) s = history_read answer s

unfoldable pub run : List Event → CronStore → CronStore
unfolding handle
run [] s = s
run (e ∷ es) s = run es (handle e s)

-- the state of a new provider
abbrev pub initial : CronStore
initial = record { crons = []; loading = true; error = none; log = [] }
