-- ===== src/Cron/Shown.antt =====
-- What CronHistoryDialog.tsx shows.
use terminal_hub.Common.{
  Bool-cases, ℕ, ◌+◌, ◌-◌, ◌*◌, ◌/◌, ◌%◌, ◌≡◌, ◌≤◌, ◌<◌, refl, not, ◌&&◌, List, [], ◌∷◌, ◌++◌, Text,
  codes, ltb, if◌then◌else◌, includes, text_eq, text_eq_iff, text_eq_refl, arith, inl, inr,
}
use terminal_hub.Cron.Actions.{delete_id}
use terminal_hub.Cron.History.{format_duration, toggle_expanded}

includes-delete_id :
    (id y : Text) (xs : List Text)
    → includes y (delete_id id xs) ≡ (not (text_eq id y) && includes y xs)
unfolding includes delete_id
includes-delete_id id y [] = ground arith
includes-delete_id id y (x ∷ xs) = ground (
  arith,
  includes-delete_id id y xs,
  text_eq_iff id x,
  text_eq_iff y x,
  text_eq_iff id y,
  text_eq_refl y,
)

-- A click on an execution shows it in full, or no longer does, and leaves the others as they were.
pub includes-toggle_expanded :
    (id y : Text) (expanded : List Text)
    → includes y (toggle_expanded id expanded)
      ≡ (if text_eq id y then not (includes y expanded) else includes y expanded)
unfolding toggle_expanded includes
includes-toggle_expanded id y expanded =
    ground (arith, includes-delete_id id y expanded, text_eq_iff id y, text_eq_iff y id)

module _ (string_of : ℕ → Text) where
  -- the text of a duration, by its size
  pub data IsDuration (seconds : ℕ) (text : Text) : Type 0 where
    instant : seconds ≡ 0 → text ≡ codes "<1s" → IsDuration seconds text
    short :
        1 ≤ seconds → seconds < 60 → text ≡ string_of seconds ++ codes "s" → IsDuration seconds text
    medium :
        (m s : ℕ)
        → 1 ≤ m
        → m < 60
        → s < 60
        → seconds ≡ 60 * m + s
        → text ≡ string_of m ++ codes "m " ++ string_of s ++ codes "s"
        → IsDuration seconds text
    long :
        (h m s : ℕ)
        → 1 ≤ h
        → m < 60
        → s < 60
        → seconds ≡ 3600 * h + 60 * m + s
        → text ≡ string_of h ++ codes "h " ++ string_of m ++ codes "m"
        → IsDuration seconds text

  -- The text of a duration is that of its hours, minutes and seconds: none where it is empty, seconds
  -- below a minute, minutes and seconds below an hour, and hours and minutes from there on.
  format_duration-IsDuration :
      (started finished : ℕ)
      → IsDuration (finished - started) (format_duration string_of started finished)
  unfolding format_duration
  format_duration-IsDuration started finished =
      let d = finished - started in
      let m = d / 60 in
      elim (Bool-cases (ltb d 1)) [
        | inl u ↦ rw u (instant (ground (arith, u)) refl)
        | inr u ↦ elim (Bool-cases (ltb d 60)) [
          | inl v ↦ rw (u, v) (short (ground (arith, u)) (ground (arith, v)) refl)
          | inr v ↦ elim (Bool-cases (ltb m 60)) [
            | inl w ↦
                rw (u, v, w)
                  (medium m (d % 60) (ground (arith, v)) (ground (arith, w)) (omega arith)
                    (omega arith) refl)
            | inr w ↦
                rw (u, v, w)
                  (long (m / 60) (m % 60) (d % 60) (ground (arith, w)) (omega arith) (omega arith)
                    (omega arith) refl)
          ]
        ]
      ]
