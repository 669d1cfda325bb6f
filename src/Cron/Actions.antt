-- ===== src/Cron/Actions.antt =====
-- frontend/src/features/crons/CronPage.tsx: the jobs with an action that runs, whose buttons
-- CronTable.tsx disables. `runJobAction` is cut at its await; `running` are the actions that await
-- the server, newest first.
use terminal_hub.Common.{
  Bool, true, false, not, ◌||◌, List, [], ◌∷◌, Text, if◌then◌else◌, text_eq, includes,
}

pub record Actions : Type 0 where
  pub pending_job_ids : List Text
  pub running : List Text

abbrev pub no_actions : Actions
no_actions = record { pending_job_ids = []; running = [] }

-- `delete` of a set
unfoldable pub delete_id : Text → List Text → List Text
delete_id id [] = []
delete_id id (x ∷ xs) = let rest = delete_id id xs in if text_eq id x then rest else x ∷ rest

-- `markPending` on a set in the order of its insertions, newest first
unfoldable pub mark_pending : Text → Bool → Actions → Actions
unfolding delete_id includes
mark_pending id true s =
    if includes id s.pending_job_ids
    then s
    else record s { pending_job_ids = id ∷ s.pending_job_ids }
mark_pending id false s = record s { pending_job_ids = delete_id id s.pending_job_ids }

-- `runJobAction` up to its await
unfoldable pub run_job_action : Text → Actions → Actions
unfolding mark_pending
run_job_action id s = let t = mark_pending id true s in record t { running = id ∷ t.running }

unfoldable pub remove_first : Text → List Text → List Text
remove_first id [] = []
remove_first id (x ∷ xs) = let rest = remove_first id xs in if text_eq id x then xs else x ∷ rest

-- behind its await, whether the action threw or not
unfoldable pub job_action_ended : Text → Actions → Actions
unfolding mark_pending remove_first
job_action_ended id s =
    if includes id s.running
    then (let t = mark_pending id false s in record t { running = remove_first id s.running })
    else s

-- A button of a row that is not disabled is pressed (`confirmed` is the answer to `confirm` of the
-- button that deletes), or an action ends.
pub data Event : Type 0 where
  pressed : Text → Bool → Event
  ended : Text → Event

unfoldable pub handle : Event → Actions → Actions
unfolding run_job_action job_action_ended
handle (pressed id confirmed) s =
    if includes id s.pending_job_ids || not confirmed then s else run_job_action id s
handle (ended id) s = job_action_ended id s

unfoldable pub run : List Event → Actions → Actions
unfolding handle
run [] s = s
run (e ∷ es) s = run es (handle e s)
