-- ===== src/Cron/Pressed.antt =====
-- The calls that the buttons of CronTable.tsx make.
use terminal_hub.Common.{
  ℕ, ◌≡◌, refl, true, false, not, ◌||◌, List, [], ◌∷◌, Text, includes, All, if_elim, arith,
}
use terminal_hub.Http.{Call, run_cron_now, enable_cron, disable_cron, delete_cron}
use terminal_hub.Cron.Api.{CronJob}
use terminal_hub.Cron.Actions.{Actions, pressed, ended, run_job_action, job_action_ended}
use terminal_hub.Cron.Actions
use terminal_hub.Cron.Busy.{IsBusy, handle-IsBusy}
use terminal_hub.Cron.Table.{
  Table, initial, Event, run_pressed, toggle_pressed, edit_pressed, history_pressed, delete_pressed,
  edit_closed, history_closed, action_ended, start_action, is_busy, toggle_call, handle, run,
  row_of,
}

-- A call that suits the row of a job: a job that is enabled is run or disabled, one that is not is
-- enabled, and any is deleted.
pub data IsMeant (job : CronJob) : Call → Type 0 where
  runs : job.enabled ≡ true → IsMeant job (run_cron_now job.id)
  disables : job.enabled ≡ true → IsMeant job (disable_cron job.id)
  enables : job.enabled ≡ false → IsMeant job (enable_cron job.id)
  deletes : IsMeant job (delete_cron job.id)

abbrev pub AreMeant : List (CronJob × Call) → Type 0
AreMeant calls = All (λ c. IsMeant c.0 c.1) calls

abbrev IsTable : Table → Type 0
IsTable s = IsBusy s.actions × AreMeant s.calls

start-IsBusy :
    (id : Text) (s : Actions)
    → includes id s.pending_job_ids ≡ false
    → IsBusy s
    → IsBusy (run_job_action id s)
unfolding Actions.handle
start-IsBusy id s h k = ground (arith, h, handle-IsBusy (pressed id true) s k)

ended-IsBusy : (id : Text) (s : Actions) → IsBusy s → IsBusy (job_action_ended id s)
unfolding Actions.handle
ended-IsBusy id s h = handle-IsBusy (ended id) s h

start-IsTable :
    (job : CronJob) (call : Call) (s : Table)
    → is_busy job s ≡ false
    → IsMeant job call
    → IsTable s
    → IsTable (start_action job call s)
start-IsTable job call s h m (b, c) = (start-IsBusy job.id s.actions h b, (m, c))

toggle-IsMeant : (job : CronJob) → IsMeant job (toggle_call job.id (not job.enabled))
toggle-IsMeant job =
    if_elim (IsMeant job) (not job.enabled) (λ h. enables (ground (arith, h)))
      (λ h. disables (ground (arith, h)))

handle-IsTable : (e : Event) (s : Table) → IsTable s → IsTable (handle e s)
unfolding handle
handle-IsTable (run_pressed job) s h =
    if_elim IsTable (is_busy job s || not job.enabled) (λ _. h)
      (λ k. start-IsTable job _ s (ground (arith, k)) (runs (ground (arith, k))) h)
handle-IsTable (toggle_pressed job) s h =
    if_elim IsTable (is_busy job s) (λ _. h) (λ k. start-IsTable job _ s k (toggle-IsMeant job) h)
handle-IsTable (edit_pressed job) s h = if_elim IsTable (is_busy job s) (λ _. h) (λ _. h)
handle-IsTable (history_pressed job) s h = if_elim IsTable (is_busy job s) (λ _. h) (λ _. h)
handle-IsTable (delete_pressed job confirmed) s h =
    if_elim IsTable (is_busy job s || not confirmed) (λ _. h)
      (λ k. start-IsTable job _ s (ground (arith, k)) deletes h)
handle-IsTable edit_closed s h = h
handle-IsTable history_closed s h = h
handle-IsTable (action_ended id) s (b, c) = (ended-IsBusy id s.actions b, c)

run-IsTable : (es : List Event) (s : Table) → IsTable s → IsTable (run es s)
unfolding run
run-IsTable [] s h = h
run-IsTable (e ∷ es) s h = run-IsTable es (handle e s) (handle-IsTable e s h)

-- However the buttons of the table are pressed and its actions end, every call suits the row that it
-- was made from, no job has two actions at a time, and the buttons of a row are disabled exactly
-- while an action on its job runs, the one that runs the job also where it is disabled.
pub run-AreMeant :
    (distance locale_string : ℕ → Text) (es : List Event) (job : CronJob)
    → let t = run es initial in
      let row = row_of distance locale_string t.actions.pending_job_ids job in
      AreMeant t.calls
      × IsBusy t.actions
      × (row.is_disabled ≡ includes job.id t.actions.running)
      × (row.is_run_disabled ≡ (includes job.id t.actions.running || not job.enabled))
unfolding row_of
run-AreMeant distance locale_string es job =
    let (b, c) = run-IsTable es initial ((refl, tt), tt) in (c, b, rw (b.0) refl, rw (b.0) refl)
