-- ===== src/Workspace/Sizes.antt =====
-- Sizes in bytes as frontend/src/features/files/FilesPage.tsx shows them. The quotients are exact in
-- doubles, as they are by powers of two, and `toFixed` rounds them; `string_of` is `String` of a
-- number.
use terminal_hub.Common.{
  ℕ, ◌+◌, ◌*◌, ◌/◌, ◌%◌, ◌≤◌, ◌<◌, ◌≡◌, refl, true, false, Text, codes, ◌++◌, ltb, if◌then◌else◌,
  arith, ltb→lt, Bool-cases, inl, inr,
}

abbrev pub kilobyte : ℕ
kilobyte = 1024

abbrev pub megabyte : ℕ
megabyte = 1048576

abbrev pub gigabyte : ℕ
gigabyte = 1073741824

-- the tenths of `(size / unit).toFixed(1)`, of which two equally near ones give the larger
unfoldable pub tenths : ℕ → ℕ → ℕ
tenths size unit = (20 * size + unit) / (2 * unit)

-- `n` tenths of a unit are nearest to the size, and are at least one unit
abbrev pub IsNearest : ℕ → ℕ → ℕ → Type 0
IsNearest size unit n =
    (2 * (n * unit) ≤ 20 * size + unit) × (20 * size < 2 * (n * unit) + unit) × (10 ≤ n)

kilobytes-IsNearest :
    (size : ℕ) → ltb size kilobyte ≡ false → IsNearest size kilobyte (tenths size kilobyte)
unfolding tenths
kilobytes-IsNearest size h = ground (arith, h)

megabytes-IsNearest :
    (size : ℕ) → ltb size megabyte ≡ false → IsNearest size megabyte (tenths size megabyte)
unfolding tenths
megabytes-IsNearest size h = ground (arith, h)

gigabytes-IsNearest :
    (size : ℕ) → ltb size gigabyte ≡ false → IsNearest size gigabyte (tenths size gigabyte)
unfolding tenths
gigabytes-IsNearest size h = ground (arith, h)

kilobytes_bound : (size : ℕ) → ltb size megabyte ≡ true → tenths size kilobyte ≤ 10240
unfolding tenths
kilobytes_bound size h = ground (arith, h)

megabytes_bound : (size : ℕ) → ltb size gigabyte ≡ true → tenths size megabyte ≤ 10240
unfolding tenths
megabytes_bound size h = ground (arith, h)

module _ (string_of : ℕ → Text) where
  abbrev pub fixed : ℕ → Text
  fixed n = string_of (n / 10) ++ (codes "." ++ string_of (n % 10))

  unfoldable pub format_bytes : ℕ → Text
  unfolding tenths
  format_bytes size =
      if ltb size kilobyte
      then string_of size ++ codes " B"
      else if ltb size megabyte
      then fixed (tenths size kilobyte) ++ codes " KB"
      else if ltb size gigabyte
      then fixed (tenths size megabyte) ++ codes " MB"
      else fixed (tenths size gigabyte) ++ codes " GB"

  pub data IsSize (size : ℕ) (text : Text) : Type 0 where
    plain : size < 1024 → text ≡ string_of size ++ codes " B" → IsSize size text
    kilobytes :
        (n : ℕ)
        → size < megabyte
        → IsNearest size kilobyte n
        → n ≤ 10240
        → text ≡ fixed n ++ codes " KB"
        → IsSize size text
    megabytes :
        (n : ℕ)
        → size < gigabyte
        → IsNearest size megabyte n
        → n ≤ 10240
        → text ≡ fixed n ++ codes " MB"
        → IsSize size text
    gigabytes :
        (n : ℕ)
        → gigabyte ≤ size
        → IsNearest size gigabyte n
        → text ≡ fixed n ++ codes " GB"
        → IsSize size text

  -- A size is shown exactly below a kilobyte, and else to the nearest tenth of the largest unit that
  -- it reaches; rounded up, it may show 1024.0 of a unit, and no more.
  format_bytes-IsSize : (size : ℕ) → IsSize size (format_bytes size)
  unfolding format_bytes
  format_bytes-IsSize size = elim (Bool-cases (ltb size kilobyte)) [
    | inl a ↦ rw a (plain (ltb→lt size kilobyte a) refl)
    | inr a ↦ elim (Bool-cases (ltb size megabyte)) [
      | inl b ↦
          rw (a, b)
            (kilobytes (tenths size kilobyte) (ltb→lt size megabyte b) (kilobytes-IsNearest size a)
              (kilobytes_bound size b) refl)
      | inr b ↦ elim (Bool-cases (ltb size gigabyte)) [
        | inl c ↦
            rw (a, b, c)
              (megabytes (tenths size megabyte) (ltb→lt size gigabyte c)
                (megabytes-IsNearest size b) (megabytes_bound size c) refl)
        | inr c ↦
            rw (a, b, c)
              (gigabytes (tenths size gigabyte) (ground (arith, c)) (gigabytes-IsNearest size c)
                refl)
      ]
    ]
  ]
