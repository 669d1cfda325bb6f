-- ===== src/Transfer/Ended.antt =====
-- How an upload of the queue of frontend/src/features/files/FilesPage.tsx ends: what its answers leave
-- in the items of its identifier.
use terminal_hub.Common.{
  ℕ, ◌-◌, ◌≡◌, refl, Bool, true, false, some, List, [], ◌∷◌, Text, codes, ◌==◌, select, All, arith,
  Option-cases, inl, inr,
}
use terminal_hub.Uploads.State.{Status, completed, failed, skipped, Task, Item, Flight, Queue}
use terminal_hub.Uploads.Steps.{
  update_items, update_upload_item, finalize_uploads_if_idle, start_task, start_uploads,
  pump_upload_queue, settle, with_success, with_status, success_text, Outcome, uploaded, rejected,
  broken, first_answer, second_answer, pull, answered, handle, run,
}

start_uploads-items :
    (path : Text) (tasks : List Task) (s : Queue)
    → (start_uploads path tasks s).upload_items ≡ s.upload_items
unfolding start_uploads
start_uploads-items path [] s = refl
start_uploads-items path (task ∷ tasks) s =
    ground (arith, start_uploads-items path tasks (start_task path task s))

pub settle-items :
    (path : Text) (rest : List Flight) (s : Queue)
    → (settle path rest s).upload_items ≡ s.upload_items
unfolding settle pump_upload_queue finalize_uploads_if_idle
settle-items path rest s = ground (
  arith,
  start_uploads-items path s.pending_uploads
      (record s { in_flight = rest; active_upload_count = s.active_upload_count - 1 }),
)

-- The items with an identifier have a status.
abbrev pub HasStatus : ℕ → Status → List Item → Type 0
HasStatus id status items = All (λ x. x.status ≡ status) (select (λ x. x.id == id) items)

update-HasStatus :
    (id : ℕ) (status : Status) (f : Item → Item) (items : List Item)
    → ((x : Item) → ((f x).status ≡ status) × ((f x).id ≡ x.id))
    → HasStatus id status (update_items id f items)
unfolding update_items select
update-HasStatus id status f [] h = tt
update-HasStatus id status f (x ∷ xs) h = ground (arith, h x, update-HasStatus id status f xs h)

-- An answer that is not a conflict, or an answer to the second request, gives the items its verdict.
abbrev pub verdict : Outcome → Status
verdict (uploaded _) = completed
verdict (rejected _ _) = failed
verdict (broken _) = failed

failed-HasStatus :
    (t : Text) (f : Flight) (rest : List Flight) (s : Queue)
    → HasStatus f.task.id failed
        (settle f.origin rest (update_upload_item f.task.id (with_status failed t) s)).upload_items
unfolding update_upload_item
failed-HasStatus t f rest s =
    rw (settle-items f.origin rest (update_upload_item f.task.id (with_status failed t) s))
      (update-HasStatus f.task.id failed (with_status failed t) s.upload_items (λ x. (refl, refl)))

second-HasStatus :
    (o : Outcome) (f : Flight) (rest : List Flight) (s : Queue)
    → HasStatus f.task.id (verdict o) (second_answer o f rest s).upload_items
unfolding second_answer update_upload_item
second-HasStatus (uploaded b) f rest s =
    let text = codes "Uploaded (overwritten)" in
    rw (settle-items f.origin rest (update_upload_item f.task.id (with_success text) s))
      (update-HasStatus f.task.id completed (with_success text) s.upload_items (λ x. (refl, refl)))
second-HasStatus (rejected n t) f rest s = failed-HasStatus t f rest s
second-HasStatus (broken t) f rest s = failed-HasStatus t f rest s

abbrev pub is_refusal : Outcome → Bool
is_refusal (uploaded _) = false
is_refusal (rejected n _) = n == 409
is_refusal (broken _) = false

pull-id :
    (id : ℕ) (fs : List Flight) (f : Flight) (rest : List Flight)
    → pull id fs ≡ some (f, rest)
    → f.task.id ≡ id
unfolding pull
pull-id id [] f rest h = ground (arith, h)
pull-id id (g ∷ gs) f rest h = elim (Option-cases (pull id gs)) [
  | inl u ↦ ground (arith, u, h)
  | inr (m, w) ↦ ground (arith, w, h, pull-id id gs m.0 m.1)
]

first-HasStatus :
    (o : Outcome) (confirmed : Bool) (f : Flight) (rest : List Flight) (s : Queue)
    → is_refusal o ≡ false
    → HasStatus f.task.id (verdict o) (first_answer o confirmed f rest s).upload_items
unfolding first_answer update_upload_item
first-HasStatus (uploaded b) confirmed f rest s h =
    rw (settle-items f.origin rest (update_upload_item f.task.id (with_success (success_text b)) s))
      (update-HasStatus f.task.id completed (with_success (success_text b)) s.upload_items
        (λ x. (refl, refl)))
first-HasStatus (rejected n t) confirmed f rest s h = ground (arith, h, failed-HasStatus t f rest s)
first-HasStatus (broken t) confirmed f rest s h = failed-HasStatus t f rest s

skipped-HasStatus :
    (n : ℕ) (t : Text) (f : Flight) (rest : List Flight) (s : Queue)
    → (n == 409) ≡ true
    → HasStatus f.task.id skipped (first_answer (rejected n t) false f rest s).upload_items
unfolding first_answer update_upload_item
skipped-HasStatus n t f rest s h =
    let text = codes "Skipped (already exists)" in
    ground (
      arith,
      h,
      settle-items f.origin rest (update_upload_item f.task.id (with_status skipped text) s),
      update-HasStatus f.task.id skipped (with_status skipped text) s.upload_items
          (λ x. (refl, refl)),
    )

pub retry-HasStatus :
    (id : ℕ) (n : ℕ) (t : Text) (o : Outcome) (f : Flight) (rest : List Flight) (s : Queue)
    → pull id s.in_flight ≡ some (f, rest)
    → f.retrying ≡ false
    → (n == 409) ≡ true
    → HasStatus id
        (verdict o)
        (run (answered id (rejected n t) true ∷ answered id o true ∷ []) s).upload_items
unfolding run handle first_answer pull
retry-HasStatus id n t o f rest s h k r =
    let g : Flight = record f { retrying = true } in
    ground (
      arith,
      h,
      k,
      r,
      pull-id id s.in_flight f rest h,
      second-HasStatus o g rest (record s { in_flight = g ∷ rest }),
    )

pub once-HasStatus :
    (id : ℕ) (o : Outcome) (confirmed : Bool) (f : Flight) (rest : List Flight) (s : Queue)
    → pull id s.in_flight ≡ some (f, rest)
    → f.retrying ≡ false
    → is_refusal o ≡ false
    → HasStatus id (verdict o) (run (answered id o confirmed ∷ []) s).upload_items
unfolding run handle
once-HasStatus id o confirmed f rest s h k r =
    ground (arith, h, k, pull-id id s.in_flight f rest h, first-HasStatus o confirmed f rest s r)

pub skip-HasStatus :
    (id : ℕ) (n : ℕ) (t : Text) (f : Flight) (rest : List Flight) (s : Queue)
    → pull id s.in_flight ≡ some (f, rest)
    → f.retrying ≡ false
    → (n == 409) ≡ true
    → HasStatus id skipped (run (answered id (rejected n t) false ∷ []) s).upload_items
unfolding run handle
skip-HasStatus id n t f rest s h k r =
    ground (arith, h, k, r, pull-id id s.in_flight f rest h, skipped-HasStatus n t f rest s r)
