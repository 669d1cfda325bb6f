-- ===== src/Transfer/Listed.antt =====
-- That the answers of the queue of frontend/src/features/files/FilesPage.tsx keep its items.
use terminal_hub.Common.{
  if_both, ℕ, ◌≡◌, refl, Bool, true, false, ◌||◌, Option, none, some, if◌then◌else◌, List, [], ◌∷◌,
  Text, codes, ◌==◌, select, arith, Option-cases, inl, inr,
}
use terminal_hub.Uploads.State.{Status, failed, skipped, Item, Flight, Queue}
use terminal_hub.Uploads.Steps.{
  http_status_conflict, update_items, update_upload_item, settle, with_status, Outcome, uploaded,
  rejected, broken, first_answer, second_answer, pull, answered, handle,
}
use terminal_hub.Transfer.Ended.{HasStatus, settle-items}

-- whether there is an item with an identifier
unfoldable pub is_listed : ℕ → List Item → Bool
is_listed id [] = false
is_listed id (x ∷ xs) = x.id == id || is_listed id xs

-- the status of the first item with an identifier
unfoldable pub status_of : ℕ → List Item → Option Status
status_of id [] = none
status_of id (x ∷ xs) = let rest = status_of id xs in if x.id == id then some x.status else rest

pub listed-status :
    (id : ℕ) (status : Status) (items : List Item)
    → is_listed id items ≡ true
    → HasStatus id status items
    → status_of id items ≡ some status
unfolding is_listed status_of select
listed-status id status [] l h = cc
listed-status id status (x ∷ xs) l h = ground (arith, l, h, listed-status id status xs)

update-listed :
    (id other : ℕ) (f : Item → Item) (items : List Item)
    → ((x : Item) → (f x).id ≡ x.id)
    → is_listed id (update_items other f items) ≡ is_listed id items
unfolding update_items is_listed
update-listed id other f [] h = refl
update-listed id other f (x ∷ xs) h = ground (arith, h x, update-listed id other f xs h)

settled-listed :
    (id other : ℕ) (path : Text) (f : Item → Item) (rest : List Flight) (s : Queue)
    → ((x : Item) → (f x).id ≡ x.id)
    → is_listed id (settle path rest (update_upload_item other f s)).upload_items
      ≡ is_listed id s.upload_items
unfolding update_upload_item
settled-listed id other path f rest s h =
    rw (settle-items path rest (update_upload_item other f s))
      (update-listed id other f s.upload_items h)

second-listed :
    (id : ℕ) (o : Outcome) (f : Flight) (rest : List Flight) (s : Queue)
    → is_listed id (second_answer o f rest s).upload_items ≡ is_listed id s.upload_items
unfolding second_answer
second-listed id (uploaded b) f rest s = settled-listed id f.task.id f.origin _ rest s (λ x. refl)
second-listed id (rejected n t) f rest s = settled-listed id f.task.id f.origin _ rest s (λ x. refl)
second-listed id (broken t) f rest s = settled-listed id f.task.id f.origin _ rest s (λ x. refl)

first-listed :
    (id : ℕ) (o : Outcome) (confirmed : Bool) (f : Flight) (rest : List Flight) (s : Queue)
    → is_listed id (first_answer o confirmed f rest s).upload_items ≡ is_listed id s.upload_items
unfolding first_answer
first-listed id (uploaded b) confirmed f rest s =
    settled-listed id f.task.id f.origin _ rest s (λ x. refl)
first-listed id (rejected n t) confirmed f rest s =
    let skip = with_status skipped (codes "Skipped (already exists)") in
    if_both (λ (t : Queue). is_listed id t.upload_items ≡ is_listed id s.upload_items)
      (n == http_status_conflict)
      (if_both (λ (t : Queue). is_listed id t.upload_items ≡ is_listed id s.upload_items) confirmed
        refl (settled-listed id f.task.id f.origin skip rest s (λ x. refl)))
      (settled-listed id f.task.id f.origin (with_status failed t) rest s (λ x. refl))
first-listed id (broken t) confirmed f rest s =
    settled-listed id f.task.id f.origin _ rest s (λ x. refl)

pub answered-listed :
    (id other : ℕ) (o : Outcome) (confirmed : Bool) (s : Queue)
    → is_listed id (handle (answered other o confirmed) s).upload_items
      ≡ is_listed id s.upload_items
unfolding handle
answered-listed id other o confirmed s = elim (Option-cases (pull other s.in_flight)) [
  | inl u ↦ rw u refl
  | inr ((f, rest), u) ↦
      ground (arith, u, first-listed id o confirmed f rest s, second-listed id o f rest s)
]
