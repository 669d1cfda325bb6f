-- ===== src/Snapshot/Lines.antt =====
-- Terminal.tsx: splitting into lines, trimming them, popping the empty ones and joining the rest.
use terminal_hub.Common.{
  is_nil, join_lines, prepend, ℕ, zero, suc, ◌≤◌, ◌<◌, ◌≡◌, ◌≢◌, refl, ap, ◌∙◌, false, ◌&&◌, none,
  some, List, [], ◌∷◌, ◌++◌, map, Text, ◌==◌, if◌then◌else◌, take, get_elem?, length, arith, All,
  if_elim, All-append,
}
use terminal_hub.Snapshot.{
  is_blank, end_index, trim_trailing_horizontal_whitespace, split_lines, pop_empty,
}

-- A line without the blanks at its end, from the left.
pub trim_line : Text → Text
trim_line [] = []
trim_line (c ∷ s) = let rest = trim_line s in if is_nil rest && is_blank c then [] else c ∷ rest

is_nil-append : (s : Text) (c : ℕ) → is_nil (s ++ (c ∷ [])) ≡ false
is_nil-append [] c = refl
is_nil-append (d ∷ s) c = refl

trim_line-append :
    (s : Text) (c : ℕ)
    → trim_line (s ++ (c ∷ [])) ≡ (if is_blank c then trim_line s else s ++ (c ∷ []))
unfolding trim_line
trim_line-append [] c = ground arith
trim_line-append (d ∷ s) c = ground (arith, trim_line-append s c, is_nil-append s c)

take-suc :
    (s : Text) (i : ℕ) (c : ℕ) → get_elem? s i ≡ some c → take (suc i) s ≡ take i s ++ (c ∷ [])
take-suc [] i c e = cc
take-suc (d ∷ s) zero c e = ground arith
take-suc (d ∷ s) (suc i) c e = ap (λ r. d ∷ r) (take-suc s i c e)

take-suc_beyond : (s : Text) (i : ℕ) → get_elem? s i ≡ none → take (suc i) s ≡ take i s
take-suc_beyond [] zero e = refl
take-suc_beyond [] (suc i) e = refl
take-suc_beyond (d ∷ s) zero e = cc
take-suc_beyond (d ∷ s) (suc i) e = ap (λ r. d ∷ r) (take-suc_beyond s i e)

take-length : (s : Text) → take (length s) s ≡ s
take-length [] = refl
take-length (c ∷ s) = ap (λ r. c ∷ r) (take-length s)

get_elem?-lt : (s : Text) (i : ℕ) → i < length s → (c : ℕ) × (get_elem? s i ≡ some c)
get_elem?-lt [] i h = elim h [ ]
get_elem?-lt (c ∷ s) zero h = (c, refl)
get_elem?-lt (c ∷ s) (suc i) h = get_elem?-lt s i (omega arith)

take-end_index : (s : Text) (i : ℕ) → i ≤ length s → take (end_index s i) s ≡ trim_line (take i s)
unfolding end_index trim_line
take-end_index s zero h = refl
take-end_index s (suc i) h =
    let (c, e) = get_elem?-lt s i (omega arith) in
    ground (arith, take-end_index s i, take-suc s i c e, trim_line-append (take i s) c)

-- The loop over `endIndex` drops the blanks at the end of a line and nothing else.
trim-trim_line : (s : Text) → trim_trailing_horizontal_whitespace s ≡ trim_line s
unfolding trim_trailing_horizontal_whitespace
trim-trim_line s = take-end_index s (length s) (omega arith) ∙ ap trim_line (take-length s)

trim_line_idem : (s : Text) → trim_line (trim_line s) ≡ trim_line s
unfolding trim_line
trim_line_idem [] = refl
trim_line_idem (c ∷ s) = ground (arith, trim_line_idem s)

pub trim_idem :
    (s : Text)
    → trim_trailing_horizontal_whitespace (trim_trailing_horizontal_whitespace s)
      ≡ trim_trailing_horizontal_whitespace s
trim_idem s = ground (arith, trim-trim_line s, trim-trim_line (trim_line s), trim_line_idem s)

module _ (P : ℕ → Type 0) where
  trim_line-All : (s : Text) → All P s → All P (trim_line s)
  unfolding trim_line
  trim_line-All [] h = tt
  trim_line-All (c ∷ s) (p, h) =
      if_elim (All P) (is_nil (trim_line s) && is_blank c) (λ _. tt) (λ _. (p, trim_line-All s h))

  prepend-All : (c : ℕ) (ls : List Text) → P c → All (All P) ls → All (All P) (prepend c ls)
  prepend-All c [] p h = ((p, tt), tt)
  prepend-All c (l ∷ ls) p (k, h) = ((p, k), h)

  pub split_lines-All : (s : Text) → All P s → All (All P) (split_lines s)
  unfolding split_lines
  split_lines-All [] h = (tt, tt)
  split_lines-All (c ∷ s) (p, h) =
      if_elim (All (All P)) (c == 10) (λ _. (tt, split_lines-All s h))
        (λ _. prepend-All c (split_lines s) p (split_lines-All s h))

  pub trim-All :
      (ls : List Text) → All (All P) ls → All (All P) (map trim_trailing_horizontal_whitespace ls)
  trim-All [] h = tt
  trim-All (l ∷ ls) (k, h) = (rw trim-trim_line (trim_line-All l k), trim-All ls h)

  pub pop_empty-All : (ls : List Text) → All (All P) ls → All (All P) (pop_empty ls)
  unfolding pop_empty
  pop_empty-All [] h = tt
  pop_empty-All (l ∷ ls) (k, h) =
      if_elim (All (All P)) (is_nil (pop_empty ls) && is_nil l) (λ _. tt)
        (λ _. (k, pop_empty-All ls h))

  pub join_lines-All : P 10 → (ls : List Text) → All (All P) ls → All P (join_lines ls)
  unfolding join_lines
  join_lines-All p [] h = tt
  join_lines-All p (l ∷ []) (k, h) = k
  join_lines-All p (l ∷ m ∷ ls) (k, h) =
      All-append P l (10 ∷ join_lines (m ∷ ls)) k (p, join_lines-All p (m ∷ ls) h)

-- No line that `split` makes holds a newline.
abbrev pub NoNewline : ℕ → Type 0
NoNewline c = (c == 10) ≡ false

prepend-NoNewline :
    (c : ℕ) (ls : List Text)
    → NoNewline c
    → All (All NoNewline) ls
    → All (All NoNewline) (prepend c ls)
prepend-NoNewline = prepend-All NoNewline

pub split_lines-NoNewline : (s : Text) → All (All NoNewline) (split_lines s)
unfolding split_lines
split_lines-NoNewline [] = (tt, tt)
split_lines-NoNewline (c ∷ s) =
    if_elim (All (All NoNewline)) (c == 10) (λ _. (tt, split_lines-NoNewline s))
      (λ e. prepend-NoNewline c (split_lines s) e (split_lines-NoNewline s))

split_lines_unbroken : (l : Text) → All NoNewline l → split_lines l ≡ l ∷ []
unfolding split_lines
split_lines_unbroken [] h = refl
split_lines_unbroken (c ∷ l) (p, h) = ground (arith, split_lines_unbroken l h)

split_lines-append :
    (l s : Text) → All NoNewline l → split_lines (l ++ (10 ∷ s)) ≡ l ∷ split_lines s
unfolding split_lines
split_lines-append [] s h = refl
split_lines-append (c ∷ l) s (p, h) = ground (arith, split_lines-append l s h)

-- Lines without newlines are read back from their join, but for the empty list of lines.
pub split-join :
    (ls : List Text) → ls ≢ [] → All (All NoNewline) ls → split_lines (join_lines ls) ≡ ls
unfolding join_lines
split-join [] e h = absurd (e refl)
split-join (l ∷ []) e (k, h) = split_lines_unbroken l k
split-join (l ∷ m ∷ ls) e (k, h) =
    split_lines-append l (join_lines (m ∷ ls)) k ∙ ap (λ r. l ∷ r) (split-join (m ∷ ls) (λ z. cc) h)

abbrev trim_all : List Text → List Text
trim_all = map trim_trailing_horizontal_whitespace

trim_all-pop_empty : (ls : List Text) → trim_all (pop_empty (trim_all ls)) ≡ pop_empty (trim_all ls)
unfolding pop_empty
trim_all-pop_empty [] = refl
trim_all-pop_empty (l ∷ ls) = ground (arith, trim_all-pop_empty ls, trim_idem l)

abbrev pub tidy : Text → Text
tidy s = join_lines (pop_empty (trim_all (split_lines s)))

pub pop_empty_idem : (ls : List Text) → pop_empty (pop_empty ls) ≡ pop_empty ls
unfolding pop_empty
pop_empty_idem [] = refl
pop_empty_idem (l ∷ ls) = ground (arith, pop_empty_idem ls)

tidy_fixed :
    (ms : List Text)
    → trim_all ms ≡ ms
    → pop_empty ms ≡ ms
    → All (All NoNewline) ms
    → tidy (join_lines ms) ≡ join_lines ms
tidy_fixed [] _ _ _ =
    unfold join_lines split_lines pop_empty trim_trailing_horizontal_whitespace end_index in refl
tidy_fixed (l ∷ ms) trimmed popped h =
    ap (λ r. join_lines (pop_empty (trim_all r))) (split-join (l ∷ ms) (λ z. cc) h)
    ∙ ap (λ r. join_lines (pop_empty r)) trimmed
    ∙ ap join_lines popped

-- Tidying a text a second time changes nothing.
pub tidy_idem : (s : Text) → tidy (tidy s) ≡ tidy s
tidy_idem s =
    let ls = trim_all (split_lines s) in
    tidy_fixed (pop_empty ls) (trim_all-pop_empty (split_lines s)) (pop_empty_idem ls)
      (pop_empty-All NoNewline ls (trim-All NoNewline (split_lines s) (split_lines-NoNewline s)))

-- What holds of every code unit and of the newline holds after tidying.
pub tidy-All : (P : ℕ → Type 0) (s : Text) → P 10 → All P s → All P (tidy s)
tidy-All P s p h =
    let ls = trim_all (split_lines s) in
    join_lines-All P p (pop_empty ls)
      (pop_empty-All P ls (trim-All P (split_lines s) (split_lines-All P s h)))
