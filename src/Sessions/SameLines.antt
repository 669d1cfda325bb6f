-- ===== src/Sessions/SameLines.antt =====
-- The lines of a text of variables, as CreateSessionDialog.tsx and crons/cronForm.ts split it.
use terminal_hub.Common.{
  All, ℕ, ◌≡◌, refl, ap, true, false, ◌&&◌, none, some, List, [], ◌∷◌, ◌++◌, Text, ◌==◌, maybe,
  length, trim, trim_start, trim_end, is_space, one_of, prepend, arith, ◌⊎◌, inl, inr, Bool-cases,
  Option-cases,
}
use terminal_hub.Cron.Env.{Vars, split_at_separator, split_env_lines}
use terminal_hub.Snapshot.{split_lines}
use terminal_hub.Sessions.Env.{add_line, add_lines}

-- the same lines, but for a carriage return at the end
abbrev pub SameLine : Text → Text → Type 0
SameLine l m = (m ≡ l) ⊎ (m ≡ l ++ (13 ∷ []))

abbrev pub SameLines : List Text → List Text → Type 0
SameLines [] [] = Unit
SameLines [] (m ∷ ms) = ⊥
SameLines (l ∷ ls) [] = ⊥
SameLines (l ∷ ls) (m ∷ ms) = SameLine l m × SameLines ls ms

pub blank_split : (l : Text) → (length (trim l) == 0) ≡ true → split_at_separator l ≡ none
unfolding trim trim_start trim_end split_at_separator is_space one_of
blank_split [] h = refl
blank_split (c ∷ s) h = ground (arith, h, blank_split s)

pub split-cr :
    (l : Text)
    → split_at_separator (l ++ (13 ∷ []))
      ≡ maybe (split_at_separator l) none (λ p. some (p.0, p.1 ++ (13 ∷ [])))
unfolding split_at_separator
split-cr [] = refl
split-cr (c ∷ l) = elim (Option-cases (split_at_separator l)) [
  | inl u ↦ ground (arith, u, split-cr l)
  | inr (p, u) ↦ ground (arith, u, split-cr l)
]

trim_end-cr : (v : Text) → trim_end (v ++ (13 ∷ [])) ≡ trim_end v
unfolding trim_end is_space one_of
trim_end-cr [] = refl
trim_end-cr (c ∷ v) = ground (arith, trim_end-cr v)

pub trim-cr : (v : Text) → trim (v ++ (13 ∷ [])) ≡ trim v
unfolding trim trim_start is_space one_of
trim-cr [] = refl
trim-cr (c ∷ v) = ground (arith, trim-cr v, trim_end-cr (c ∷ v))

prepend-SameLines :
    (c : ℕ) (ls ms : List Text) → SameLines ls ms → SameLines (prepend c ls) (prepend c ms)
prepend-SameLines c [] [] h = (inl refl, tt)
prepend-SameLines c [] (m ∷ ms) h = absurd h
prepend-SameLines c (l ∷ ls) [] h = absurd h
prepend-SameLines c (l ∷ ls) (m ∷ ms) (inl e, h) = (inl (ap (λ x. c ∷ x) e), h)
prepend-SameLines c (l ∷ ls) (m ∷ ms) (inr e, h) = (inr (ap (λ x. c ∷ x) e), h)

pub split-SameLines : (s : Text) → SameLines (split_env_lines s) (split_lines s)
unfolding split_env_lines split_lines
split-SameLines [] = (inl refl, tt)
split-SameLines (c ∷ []) = ground (arith, prepend-SameLines c ([] ∷ []) ([] ∷ []) (inl refl, tt))
split-SameLines (c ∷ d ∷ s) =
    let rest = split-SameLines (d ∷ s) in
    let inner = split-SameLines s in
    elim (Bool-cases (c == 10)) [
      | inl u ↦ rw u (inl refl, rest)
      | inr u ↦ elim (Bool-cases (c == 13 && d == 10)) [
        | inl w ↦
            let cr : (c == 13) ≡ true = ground (arith, w) in
            let lf : (d == 10) ≡ true = ground (arith, w) in
            rw (u, cr, lf) (inr (ground (arith, cr)), inner)
        | inr w ↦
            rw (u, w) (prepend-SameLines c (split_env_lines (d ∷ s)) (split_lines (d ∷ s)) rest)
      ]
    ]

abbrev pub NoSeparator : ℕ → Type 0
NoSeparator c = (c == b'=') ≡ false

pub blank-NoSeparator : (text : Text) → (length (trim text) == 0) ≡ true → All NoSeparator text
unfolding trim trim_start trim_end is_space one_of
blank-NoSeparator [] h = tt
blank-NoSeparator (c ∷ s) h = ground (arith, h, blank-NoSeparator s)

prepend-NoSeparator :
    (c : ℕ) (ls : List Text)
    → NoSeparator c
    → All (All NoSeparator) ls
    → All (All NoSeparator) (prepend c ls)
prepend-NoSeparator c [] k h = ((k, tt), tt)
prepend-NoSeparator c (l ∷ ls) k (h, hs) = ((k, h), hs)

pub split_lines-NoSeparator :
    (text : Text) → All NoSeparator text → All (All NoSeparator) (split_lines text)
unfolding split_lines
split_lines-NoSeparator [] h = (tt, tt)
split_lines-NoSeparator (c ∷ s) (k, h) =
    let rest = split_lines-NoSeparator s h in
    ground (arith, rest, prepend-NoSeparator c (split_lines s) k rest)

split-NoSeparator : (l : Text) → All NoSeparator l → split_at_separator l ≡ none
unfolding split_at_separator
split-NoSeparator [] h = refl
split-NoSeparator (c ∷ l) (k, h) = rw (k, split-NoSeparator l h) refl

pub add_lines-NoSeparator :
    (ls : List Text) (vars : Vars) → All (All NoSeparator) ls → add_lines ls vars ≡ vars
unfolding add_lines add_line
add_lines-NoSeparator [] vars h = refl
add_lines-NoSeparator (l ∷ ls) vars (k, h) =
    rw (split-NoSeparator l k) (add_lines-NoSeparator ls vars h)
