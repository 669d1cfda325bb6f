-- ===== src/Cron/Busy.antt =====
-- The actions of CronPage.tsx that run and the rows that they disable.
use terminal_hub.Common.{
  ◌≡◌, refl, true, false, List, [], ◌∷◌, Text, text_eq, text_eq_iff, includes, arith,
}
use terminal_hub.Cron.Actions.{
  Actions, no_actions, delete_id, mark_pending, run_job_action, remove_first, job_action_ended,
  Event, pressed, ended, handle, run,
}

-- no text twice
abbrev pub IsDistinct : List Text → Type 0
IsDistinct [] = Unit
IsDistinct (x ∷ xs) = (includes x xs ≡ false) × IsDistinct xs

-- The rows that are disabled are those of the actions that run, no job with two.
abbrev pub IsBusy : Actions → Type 0
IsBusy s = (s.pending_job_ids ≡ s.running) × IsDistinct s.running

absent-delete_id : (id : Text) (xs : List Text) → includes id xs ≡ false → delete_id id xs ≡ xs
unfolding includes delete_id
absent-delete_id id [] h = refl
absent-delete_id id (x ∷ xs) h = ground (arith, h, absent-delete_id id xs)

includes-same : (a b : Text) (xs : List Text) → text_eq a b ≡ true → includes a xs ≡ includes b xs
includes-same a b xs h = ground (arith, h, text_eq_iff a b)

delete-remove : (id : Text) (xs : List Text) → IsDistinct xs → delete_id id xs ≡ remove_first id xs
unfolding delete_id remove_first
delete-remove id [] h = refl
delete-remove id (x ∷ xs) h =
    ground (arith, h, delete-remove id xs h.1, absent-delete_id id xs, includes-same id x xs)

remove-includes :
    (id y : Text) (xs : List Text) → includes y xs ≡ false → includes y (remove_first id xs) ≡ false
unfolding includes remove_first
remove-includes id y [] h = h
remove-includes id y (x ∷ xs) h = ground (arith, h, remove-includes id y xs)

remove-IsDistinct : (id : Text) (xs : List Text) → IsDistinct xs → IsDistinct (remove_first id xs)
unfolding remove_first
remove-IsDistinct id [] h = h
remove-IsDistinct id (x ∷ xs) h =
    ground (arith, h, remove-IsDistinct id xs h.1, remove-includes id x xs)

pub handle-IsBusy : (e : Event) (s : Actions) → IsBusy s → IsBusy (handle e s)
unfolding handle run_job_action job_action_ended mark_pending
handle-IsBusy (pressed id confirmed) s h = ground (arith, h)
handle-IsBusy (ended id) s h =
    ground (arith, h, delete-remove id s.running h.1, remove-IsDistinct id s.running h.1)

IsBusy-run : (es : List Event) (s : Actions) → IsBusy s → IsBusy (run es s)
unfolding run
IsBusy-run [] s h = h
IsBusy-run (e ∷ es) s h = IsBusy-run es (handle e s) (handle-IsBusy e s h)

-- However the buttons of the table are pressed and the actions end, the rows that are disabled are
-- those of the jobs with an action that runs, and no job has two at a time.
run-IsBusy : (es : List Event) → IsBusy (run es no_actions)
run-IsBusy es = IsBusy-run es no_actions (refl, tt)
