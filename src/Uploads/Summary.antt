-- ===== src/Uploads/Summary.antt =====
-- The batches of FilesPage.tsx that are summed up.
use terminal_hub.Common.{
  ℕ, ◌-◌, ◌≤◌, ◌≡◌, max, Bool, true, not, ◌||◌, List, [], ◌∷◌, Text, codes, ltb, ◌==◌, length,
  select, arith, All, if_elim, maybe_elim, trim,
}
use terminal_hub.Uploads.State.{Item, Flight, Queue, skipped, failed}
use terminal_hub.Uploads.Steps.{
  update_upload_item, finalize_uploads_if_idle, max_batch, start_uploads, pump_upload_queue, settle,
  with_progress, with_success, with_status, Outcome, uploaded, rejected, broken, success_text,
  first_answer, second_answer, add_batch, enqueue_files, pull, Event, enqueued, progressed,
  answered, cleared, clear, handle, run, initial, is_idle, unsummarized, http_status_conflict,
}
use terminal_hub.Uploads.Limits.{update_items-All}

abbrev UpTo : ℕ → Item → Type 0
UpTo m x = x.batch_id ≤ m

pub IsSummed : Queue → Type 0
IsSummed s = is_idle s ≡ true → All (UpTo s.last_completed_batch_id) s.upload_items

le-max_batch : (m : ℕ) (xs : List Item) → m ≤ max_batch m xs
unfolding max_batch
le-max_batch m [] = omega arith
le-max_batch m (x ∷ xs) = omega (arith, le-max_batch (max m x.batch_id) xs)

select_none :
    (m : ℕ) (xs : List Item) → length (select (λ x. ltb m x.batch_id) xs) ≡ 0 → All (UpTo m) xs
unfolding select
select_none m [] e = tt
select_none m (x ∷ xs) e = (ground arith, select_none m xs (ground arith))

max_batch_bound :
    (m k : ℕ) (xs : List Item)
    → m ≤ k
    → All (UpTo (max_batch k (select (λ x. ltb m x.batch_id) xs))) xs
unfolding select max_batch
max_batch_bound m k [] h = tt
max_batch_bound m k (x ∷ xs) h =
    let rest = select (λ y. ltb m y.batch_id) xs in
    if_elim (λ l. All (UpTo (max_batch k l)) (x ∷ xs)) (ltb m x.batch_id)
      (λ above. (
        omega (arith, le-max_batch (max k x.batch_id) rest),
        max_batch_bound m (max k x.batch_id) xs (omega arith),
      ))
      (λ below. (ground (arith, le-max_batch k rest), max_batch_bound m k xs h))

finalize-IsSummed : (path : Text) (s : Queue) → IsSummed (finalize_uploads_if_idle path s)
unfolding finalize_uploads_if_idle IsSummed
finalize-IsSummed path s =
    if_elim IsSummed (not (is_idle s) || length (unsummarized s) == 0)
      (λ test idle. select_none s.last_completed_batch_id s.upload_items (ground arith))
      (λ _ _.
        max_batch_bound s.last_completed_batch_id s.last_completed_batch_id s.upload_items
          (omega arith))

pump-IsSummed : (path : Text) (s : Queue) → IsSummed (pump_upload_queue path s)
unfolding pump_upload_queue
pump-IsSummed path s = finalize-IsSummed path (start_uploads path s.pending_uploads s)

settle-IsSummed : (path : Text) (rest : List Flight) (s : Queue) → IsSummed (settle path rest s)
unfolding settle
settle-IsSummed path rest s =
    pump-IsSummed path
      (record s { in_flight = rest; active_upload_count = s.active_upload_count - 1 })

second_answer-IsSummed :
    (outcome : Outcome) (f : Flight) (rest : List Flight) (s : Queue)
    → IsSummed (second_answer outcome f rest s)
unfolding second_answer
second_answer-IsSummed (uploaded b) f rest s =
    settle-IsSummed f.origin rest
      (update_upload_item f.task.id (with_success (codes "Uploaded (overwritten)")) s)
second_answer-IsSummed (rejected status text) f rest s =
    settle-IsSummed f.origin rest (update_upload_item f.task.id (with_status failed text) s)
second_answer-IsSummed (broken text) f rest s =
    settle-IsSummed f.origin rest (update_upload_item f.task.id (with_status failed text) s)

first_answer-IsSummed :
    (outcome : Outcome) (b : Bool) (f : Flight) (rest : List Flight) (s : Queue)
    → IsSummed s
    → IsSummed (first_answer outcome b f rest s)
unfolding first_answer IsSummed
first_answer-IsSummed (uploaded overwritten) b f rest s v =
    settle-IsSummed f.origin rest
      (update_upload_item f.task.id (with_success (success_text overwritten)) s)
first_answer-IsSummed (rejected status text) b f rest s v =
    if_elim IsSummed (status == http_status_conflict)
      (λ _.
        if_elim IsSummed b (λ _. v)
          (λ _. settle-IsSummed f.origin rest (
            update_upload_item f.task.id (with_status skipped (codes "Skipped (already exists)"))
              s)))
      (λ _.
        settle-IsSummed f.origin rest (update_upload_item f.task.id (with_status failed text) s))
first_answer-IsSummed (broken text) b f rest s v =
    settle-IsSummed f.origin rest (update_upload_item f.task.id (with_status failed text) s)

handle-IsSummed : (e : Event) (s : Queue) → IsSummed s → IsSummed (handle e s)
unfolding handle enqueue_files update_upload_item clear IsSummed
handle-IsSummed (enqueued path files) s v =
    if_elim IsSummed (length files == 0) (λ _. v)
      (λ _.
        if_elim IsSummed (length (trim path) == 0) (λ _. v)
          (λ _. pump-IsSummed path (add_batch (trim path) files s)))
handle-IsSummed (progressed id loaded total) s v =
    maybe_elim IsSummed (pull id s.in_flight) (λ _. v)
      (λ p _ idle.
        update_items-All (UpTo s.last_completed_batch_id) id (with_progress loaded total p.0.task)
          (λ x h. unfold with_progress in h) s.upload_items (v idle))
handle-IsSummed (answered id outcome b) s v =
    maybe_elim IsSummed (pull id s.in_flight) (λ _. v)
      (λ p _.
        if_elim IsSummed p.0.retrying (λ _. second_answer-IsSummed outcome p.0 p.1 s)
          (λ _. first_answer-IsSummed outcome b p.0 p.1 s v))
handle-IsSummed cleared s v = if_elim IsSummed (length s.upload_items == 0) (λ _. v) (λ _ _. tt)

run-IsSummed : (es : List Event) (s : Queue) → IsSummed s → IsSummed (run es s)
unfolding run
run-IsSummed [] s v = v
run-IsSummed (e ∷ es) s v = run-IsSummed es (handle e s) (handle-IsSummed e s v)

-- Whenever no upload waits or runs, every item of the history belongs to a batch that has been
-- summed up.
pub run-IsSummed_initial :
    (es : List Event)
    → is_idle (run es initial) ≡ true
    → All (λ x. x.batch_id ≤ (run es initial).last_completed_batch_id) (run es initial).upload_items
unfolding initial IsSummed
run-IsSummed_initial es = run-IsSummed es initial (λ _. tt)
