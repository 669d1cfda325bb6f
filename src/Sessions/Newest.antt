-- ===== src/Sessions/Newest.antt =====
-- The order and the figures of the dashboard in SessionGrid.tsx.
use terminal_hub.Common.{
  ℕ, ◌≡◌, refl, Bool, true, false, Option, some, List, [], ◌∷◌, Text, length, select, All, All-map,
  if_elim, arith,
}
use terminal_hub.Sessions.Store.{SessionInfo}
use terminal_hub.Sessions.Grid.{is_older, insert_session, sorted_sessions}

module _ (time : Text → Option ℕ) where
  -- a date that can be read
  abbrev pub IsDated : SessionInfo → Type 0
  IsDated x = (at : ℕ) × (time x.metadata.created_at ≡ some at)

  -- no session stands before one that was created later
  abbrev pub IsNewest : List SessionInfo → Type 0
  IsNewest [] = Unit
  IsNewest (x ∷ xs) = All (λ y. is_older time x y ≡ false) xs × IsNewest xs

  insert-All :
      (P : SessionInfo → Type 0) (x : SessionInfo) (ys : List SessionInfo)
      → P x
      → All P ys
      → All P (insert_session time x ys)
  unfolding insert_session
  insert-All P x [] p h = (p, tt)
  insert-All P x (y ∷ ys) p (q, h) =
      if_elim (All P) (is_older time x y) (λ _. (q, insert-All P x ys p h)) (λ _. (p, (q, h)))

  older_swap :
      (x y z : SessionInfo)
      → IsDated y
      → is_older time x y ≡ false
      → is_older time y z ≡ false
      → is_older time x z ≡ false
  unfolding is_older
  older_swap x y z (at, e) h k = ground (arith, e, h, k)

  older_asym : (x y : SessionInfo) → is_older time x y ≡ true → is_older time y x ≡ false
  unfolding is_older
  older_asym x y h = ground (arith, h)

  insert-IsNewest :
      (x : SessionInfo) (ys : List SessionInfo)
      → All IsDated ys
      → IsDated x
      → IsNewest ys
      → IsNewest (insert_session time x ys)
  unfolding insert_session
  insert-IsNewest x [] d dx h = (tt, tt)
  insert-IsNewest x (y ∷ ys) (dy, d) dx (p, h) =
      if_elim IsNewest (is_older time x y)
        (λ older. (
          insert-All (λ z. is_older time y z ≡ false) x ys (older_asym x y older) p,
          insert-IsNewest x ys d dx h,
        ))
        (λ newer. (
          (
            newer,
            All-map (λ z. is_older time y z ≡ false) (λ z. is_older time x z ≡ false)
                (λ z k. older_swap x y z dy newer k) ys p,
          ),
          (p, h),
        ))

  sorted-All :
      (P : SessionInfo → Type 0) (xs : List SessionInfo)
      → All P xs
      → All P (sorted_sessions time xs)
  unfolding sorted_sessions
  sorted-All P [] h = tt
  sorted-All P (x ∷ xs) (p, h) = insert-All P x (sorted_sessions time xs) p (sorted-All P xs h)

  sorted-IsNewest : (xs : List SessionInfo) → All IsDated xs → IsNewest (sorted_sessions time xs)
  unfolding sorted_sessions
  sorted-IsNewest [] h = tt
  sorted-IsNewest (x ∷ xs) (d, h) =
      insert-IsNewest x (sorted_sessions time xs) (sorted-All IsDated xs h) d (sorted-IsNewest xs h)

  count-insert :
      (p : SessionInfo → Bool) (x : SessionInfo) (ys : List SessionInfo)
      → length (select p (insert_session time x ys)) ≡ length (select p (x ∷ ys))
  unfolding insert_session select
  count-insert p x [] = refl
  count-insert p x (y ∷ ys) = ground (arith, count-insert p x ys)

  count-sorted :
      (p : SessionInfo → Bool) (xs : List SessionInfo)
      → length (select p (sorted_sessions time xs)) ≡ length (select p xs)
  unfolding sorted_sessions select
  count-sorted p [] = refl
  count-sorted p (x ∷ xs) =
      ground (arith, count-insert p x (sorted_sessions time xs), count-sorted p xs)

  -- The dashboard has a card for each session, no session twice, whatever tells them apart, and, where
  -- all dates of creation can be read, none stands before one of a session that was created later.
  sorted_sessions-IsNewest :
      (sessions : List SessionInfo)
      → All IsDated sessions
      → IsNewest (sorted_sessions time sessions)
        × ((p : SessionInfo → Bool)
            → length (select p (sorted_sessions time sessions)) ≡ length (select p sessions))
  sorted_sessions-IsNewest sessions h = (sorted-IsNewest sessions h, λ p. count-sorted p sessions)
