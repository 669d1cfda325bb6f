-- ===== src/Uploads/Limits.antt =====
-- The counters of the upload queue of FilesPage.tsx, and the figures of its items.
use native.Mathlib.Nat.{div-lt_iff_lt-mul}
use terminal_hub.Common.{
  ℕ, zero, suc, ◌+◌, ◌-◌, ◌*◌, ◌≤◌, ◌<◌, ◌≡◌, refl, ap, min, max, Bool, true, false, not, ◌||◌,
  Option, none, some, List, [], ◌∷◌, ◌++◌, map, Text, codes, ltb, ◌==◌, if◌then◌else◌, maybe,
  length, arith, All, All-append, All-take, ◌⊎◌, inl, inr, if_elim, maybe_elim, trim, length-append,
  length-take_le,
}
use terminal_hub.Uploads.State.{UploadFile, Task, Item, Flight, Queue, skipped, failed}
use terminal_hub.Uploads.Steps.{
  max_parallel_uploads, update_items, update_upload_item, finalize_uploads_if_idle, start_task,
  start_uploads, pump_upload_queue, settle, percent_of, with_progress, with_success, with_status,
  Outcome, uploaded, rejected, broken, success_text, first_answer, second_answer, to_tasks, to_item,
  add_batch, enqueue_files, pull, Event, enqueued, progressed, answered, cleared, clear, handle,
  run, initial, is_idle, unsummarized, http_status_conflict,
}

-- What the figures of an item satisfy.
abbrev pub IsMeasured : Item → Type 0
IsMeasured x = (x.sent_bytes ≤ x.total_bytes) × (x.progress_percent ≤ 100)

-- What holds of the counter, the flights and the items while a handler has not pumped yet.
pub record Counts (active : ℕ) (flights : List Flight) (items : List Item) : Type 0 where
  pub balanced : active ≡ length flights
  pub limited : active ≤ max_parallel_uploads
  pub short : length items ≤ 150
  pub measured : All IsMeasured items

abbrev pub IsCounted : Queue → Type 0
IsCounted s = Counts s.active_upload_count s.in_flight s.upload_items

-- What holds between two events: nothing waits while fewer than three uploads run.
abbrev pub IsValid : Queue → Type 0
IsValid s =
    IsCounted s × ((s.pending_uploads ≡ []) ⊎ (s.active_upload_count ≡ max_parallel_uploads))

percent-le : (part whole : ℕ) → part ≤ whole → percent_of part whole ≤ 100
unfolding percent_of
percent-le part zero h = omega arith
percent-le part (suc w) h = ground (
  arith,
  (div-lt_iff_lt-mul {k = 2 * suc w} {x = 200 * part + suc w} {y = 101} (omega arith)).1
      (omega arith),
)

with_progress-IsMeasured :
    (loaded total : ℕ) (task : Task) (x : Item) → IsMeasured (with_progress loaded total task x)
unfolding with_progress
with_progress-IsMeasured loaded total task x =
    let whole = if total == 0 then task.file.size else total in
    (omega arith, percent-le (min (max loaded 0) whole) whole (omega arith))

pub update_items-All :
    (P : Item → Type 0) (id : ℕ) (f : Item → Item)
    → ((x : Item) → P x → P (f x))
    → (xs : List Item) → All P xs
    → All P (update_items id f xs)
unfolding update_items
update_items-All P id f keep [] h = tt
update_items-All P id f keep (x ∷ xs) (p, h) =
    (if_elim P (x.id == id) (λ _. keep x p) (λ _. p), update_items-All P id f keep xs h)

length-update_items :
    (id : ℕ) (f : Item → Item) (xs : List Item) → length (update_items id f xs) ≡ length xs
unfolding update_items
length-update_items id f [] = refl
length-update_items id f (x ∷ xs) = ap suc (length-update_items id f xs)

update-IsCounted :
    (id : ℕ) (f : Item → Item)
    → ((x : Item) → IsMeasured x → IsMeasured (f x))
    → (s : Queue) → IsCounted s
    → IsCounted (update_upload_item id f s)
unfolding update_upload_item
update-IsCounted id f keep s v = record {
  balanced = v.balanced;
  limited = v.limited;
  short = omega (arith, v.short, length-update_items id f s.upload_items);
  measured = update_items-All IsMeasured id f keep s.upload_items v.measured;
}

start_task-IsCounted :
    (path : Text) (task : Task) (s : Queue)
    → s.active_upload_count < max_parallel_uploads
    → IsCounted s
    → IsCounted (start_task path task s)
start_task-IsCounted path task s room v = record {
  balanced = omega (
    arith,
    v.balanced,
    length-append {0} s.in_flight (record { task = task; retrying = false; origin = path } ∷ []),
  );
  limited = omega arith;
  short = v.short;
  measured = v.measured;
}

start_uploads-IsValid :
    (path : Text) (tasks : List Task) (s : Queue)
    → IsCounted s
    → IsValid (start_uploads path tasks s)
unfolding start_uploads
start_uploads-IsValid path [] s v = (v, inl refl)
start_uploads-IsValid path (task ∷ tasks) s v =
    if_elim IsValid (ltb s.active_upload_count max_parallel_uploads)
      (λ room.
        start_uploads-IsValid path tasks (start_task path task s)
          (start_task-IsCounted path task s (ground arith) v))
      (λ full. (v, inr (ground (arith, v.limited))))

finalize-IsValid : (path : Text) (s : Queue) → IsValid s → IsValid (finalize_uploads_if_idle path s)
unfolding finalize_uploads_if_idle
finalize-IsValid path s v =
    if_elim IsValid (not (is_idle s) || length (unsummarized s) == 0) (λ _. v) (λ _. v)

pump-IsValid : (path : Text) (s : Queue) → IsCounted s → IsValid (pump_upload_queue path s)
unfolding pump_upload_queue
pump-IsValid path s v =
    finalize-IsValid path (start_uploads path s.pending_uploads s)
      (start_uploads-IsValid path s.pending_uploads s v)

settle-IsValid :
    (path : Text) (rest : List Flight) (s : Queue)
    → IsCounted s
    → length s.in_flight ≡ suc (length rest)
    → IsValid (settle path rest s)
unfolding settle
settle-IsValid path rest s v e =
    pump-IsValid path
      (record s { in_flight = rest; active_upload_count = s.active_upload_count - 1 })
      (record {
        balanced = omega (arith, v.balanced);
        limited = omega (arith, v.limited);
        short = v.short;
        measured = v.measured;
      })

settle_updated :
    (path : Text) (rest : List Flight) (id : ℕ) (f : Item → Item) (s : Queue)
    → ((x : Item) → IsMeasured x → IsMeasured (f x))
    → IsCounted s
    → length s.in_flight ≡ suc (length rest)
    → IsValid (settle path rest (update_upload_item id f s))
unfolding update_upload_item
settle_updated path rest id f s keep v e =
    settle-IsValid path rest (update_upload_item id f s) (update-IsCounted id f keep s v) e

pull_step :
    (b : Bool) (f : Flight) (fs : List Flight) (o : Option (Flight × List Flight))
    (p : Flight × List Flight)
    → ((q : Flight × List Flight) → o ≡ some q → length fs ≡ suc (length q.1))
    → (if b then some (f, fs) else maybe o none (λ q. some (q.0, f ∷ q.1))) ≡ some p
    → suc (length fs) ≡ suc (length p.1)
pull_step true f fs o p ih e = ground arith
pull_step false f fs none p ih e = cc
pull_step false f fs (some q) p ih e = ground (arith, ih q refl)

length-pull :
    (id : ℕ) (fs : List Flight) (p : Flight × List Flight)
    → pull id fs ≡ some p
    → length fs ≡ suc (length p.1)
unfolding pull
length-pull id [] p e = cc
length-pull id (f ∷ fs) p e = pull_step (f.task.id == id) f fs (pull id fs) p (length-pull id fs) e

with_success-IsMeasured : (text : Text) (x : Item) → IsMeasured x → IsMeasured (with_success text x)
with_success-IsMeasured text x h = omega arith

second_answer-IsValid :
    (outcome : Outcome) (f : Flight) (rest : List Flight) (s : Queue)
    → IsCounted s
    → length s.in_flight ≡ suc (length rest)
    → IsValid (second_answer outcome f rest s)
unfolding second_answer
second_answer-IsValid (uploaded b) f rest s v e =
    settle_updated f.origin rest f.task.id (with_success (codes "Uploaded (overwritten)")) s
      (with_success-IsMeasured (codes "Uploaded (overwritten)")) v e
second_answer-IsValid (rejected status text) f rest s v e =
    settle_updated f.origin rest f.task.id (with_status failed text) s (λ x h. h) v e
second_answer-IsValid (broken text) f rest s v e =
    settle_updated f.origin rest f.task.id (with_status failed text) s (λ x h. h) v e

first_answer-IsValid :
    (outcome : Outcome) (b : Bool) (f : Flight) (rest : List Flight) (s : Queue)
    → IsValid s
    → length s.in_flight ≡ suc (length rest)
    → IsValid (first_answer outcome b f rest s)
unfolding first_answer
first_answer-IsValid (uploaded overwritten) b f rest s (v, busy) e =
    settle_updated f.origin rest f.task.id (with_success (success_text overwritten)) s
      (with_success-IsMeasured (success_text overwritten)) v e
first_answer-IsValid (rejected status text) b f rest s (v, busy) e =
    if_elim IsValid (status == http_status_conflict)
      (λ _.
        if_elim IsValid b
          (λ _. (
            record {
              balanced = omega (arith, v.balanced);
              limited = v.limited;
              short = v.short;
              measured = v.measured;
            },
            busy,
          ))
          (λ _.
            settle_updated f.origin rest f.task.id
              (with_status skipped (codes "Skipped (already exists)")) s (λ x h. h) v e))
      (λ _. settle_updated f.origin rest f.task.id (with_status failed text) s (λ x h. h) v e)
first_answer-IsValid (broken text) b f rest s (v, busy) e =
    settle_updated f.origin rest f.task.id (with_status failed text) s (λ x h. h) v e

length-to_tasks :
    (id batch : ℕ) (path : Text) (files : List UploadFile)
    → length (to_tasks id batch path files) ≡ length files
unfolding to_tasks
length-to_tasks id batch path [] = refl
length-to_tasks id batch path (file ∷ files) = ap suc (length-to_tasks (suc id) batch path files)

to_item-IsMeasured : (tasks : List Task) → All IsMeasured (map to_item tasks)
to_item-IsMeasured [] = tt
to_item-IsMeasured (task ∷ tasks) = (omega arith, to_item-IsMeasured tasks)

add_batch-IsCounted :
    (path : Text) (files : List UploadFile) (s : Queue)
    → IsCounted s
    → IsCounted (add_batch path files s)
unfolding add_batch
add_batch-IsCounted path files s v =
    let items =
      map to_item (to_tasks s.next_upload_id s.next_batch_id path files) ++ s.upload_items in
    record {
      balanced = v.balanced;
      limited = v.limited;
      short = length-take_le 150 items;
      measured =
          All-take IsMeasured 150 items
            (All-append IsMeasured _ s.upload_items (to_item-IsMeasured _) v.measured);
    }

enqueue_files-IsValid :
    (path : Text) (files : List UploadFile) (s : Queue)
    → IsValid s
    → IsValid (enqueue_files path files s)
unfolding enqueue_files
enqueue_files-IsValid path files s (v, busy) =
    if_elim IsValid (length files == 0) (λ _. (v, busy))
      (λ _.
        if_elim IsValid (length (trim path) == 0) (λ _. (v, busy))
          (λ _.
            pump-IsValid path (add_batch (trim path) files s)
              (add_batch-IsCounted (trim path) files s v)))

handle-IsValid : (e : Event) (s : Queue) → IsValid s → IsValid (handle e s)
unfolding handle update_upload_item clear
handle-IsValid (enqueued path files) s v = enqueue_files-IsValid path files s v
handle-IsValid (progressed id loaded total) s (v, busy) =
    maybe_elim IsValid (pull id s.in_flight) (λ _. (v, busy))
      (λ p _. (
        update-IsCounted id (with_progress loaded total p.0.task)
            (λ x _. with_progress-IsMeasured loaded total p.0.task x) s v,
        busy,
      ))
handle-IsValid (answered id outcome b) s v =
    maybe_elim IsValid (pull id s.in_flight) (λ _. v)
      (λ p e.
        if_elim IsValid p.0.retrying
          (λ _. second_answer-IsValid outcome p.0 p.1 s v.0 (length-pull id s.in_flight p e))
          (λ _. first_answer-IsValid outcome b p.0 p.1 s v (length-pull id s.in_flight p e)))
handle-IsValid cleared s (v, busy) =
    if_elim IsValid (length s.upload_items == 0) (λ _. (v, busy))
      (λ _. (
        record { balanced = v.balanced; limited = v.limited; short = omega arith; measured = tt },
        busy,
      ))

run-IsValid : (es : List Event) (s : Queue) → IsValid s → IsValid (run es s)
unfolding run
run-IsValid [] s v = v
run-IsValid (e ∷ es) s v = run-IsValid es (handle e s) (handle-IsValid e s v)

-- Whatever is dropped on the page and however the requests end: the counter of active uploads is
-- the number of those in flight and at most three, an upload waits only while three run, the
-- history holds at most 150 items, and no item shows more bytes sent than it has or more than 100%.
pub run-IsValid-initial : (es : List Event) → IsValid (run es initial)
unfolding initial
run-IsValid-initial es = run-IsValid es initial (omega arith, inl refl)
