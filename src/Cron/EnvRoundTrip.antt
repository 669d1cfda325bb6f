-- ===== src/Cron/EnvRoundTrip.antt =====
-- The text of the environment variables of cronForm.ts, printed and parsed.
use terminal_hub.Common.{
  join_lines, ℕ, suc, ◌≡◌, ◌≢◌, refl, sym, ap, ◌∙◌, Bool, true, false, ◌||◌, some, List, [], ◌∷◌,
  ◌++◌, map, Text, codes, ◌==◌, length, trim, trim_start, trim_end, is_space, one_of, text_eq,
  text_eq_iff, arith, All, All-append, if_elim, append_assoc, append-nil,
}
use terminal_hub.Cron.Env.{
  Vars, EnvError, is_word, all_units, is_env_var_key, split_env_lines, split_at_separator, has_own,
  assign, parse_entry, parse_line, parse_lines, to_parsed, parse_env_vars_text, entry_text,
  insert_sorted, sort_keys, env_vars_to_text,
}

-- no newline and no carriage return
abbrev pub IsInline : ℕ → Type 0
IsInline c = (c ≢ 10) × (c ≢ 13)

-- A variable that the text can carry: its name is one of a shell, and not the property that
-- JavaScript does not assign; its value is on one line.
abbrev pub IsVar : Text × Text → Type 0
IsVar (k, v) = (is_env_var_key k ≡ true) × (text_eq k (codes "__proto__") ≡ false) × All IsInline v

-- No key twice.
abbrev pub IsDistinct : Vars → Type 0
IsDistinct [] = Unit
IsDistinct ((k, v) ∷ vars) = (has_own vars k ≡ false) × IsDistinct vars

word-not_space : (c : ℕ) → is_word c ≡ true → is_space c ≡ false
unfolding is_space one_of
word-not_space c h = ground arith

word-IsInline : (c : ℕ) → is_word c ≡ true → IsInline c × ((c == b'=') ≡ false)
word-IsInline c h = ground arith

all_units-key : (k : Text) → is_env_var_key k ≡ true → all_units is_word k ≡ true
unfolding is_env_var_key all_units
all_units-key [] h = cc
all_units-key (c ∷ s) h = ground arith

trim_start_word : (k : Text) → all_units is_word k ≡ true → trim_start k ≡ k
unfolding all_units trim_start
trim_start_word [] h = refl
trim_start_word (c ∷ s) h = ground (arith, word-not_space c)

trim_end_word : (k : Text) → all_units is_word k ≡ true → trim_end k ≡ k
unfolding all_units trim_end
trim_end_word [] h = refl
trim_end_word (c ∷ s) h = ground (arith, word-not_space c, trim_end_word s)

trim_word : (k : Text) → all_units is_word k ≡ true → trim k ≡ k
unfolding trim
trim_word k h = ap trim_end (trim_start_word k h) ∙ trim_end_word k h

split_at_word :
    (k v : Text) → all_units is_word k ≡ true → split_at_separator (k ++ (b'=' ∷ v)) ≡ some (k, v)
unfolding all_units split_at_separator
split_at_word [] v h = refl
split_at_word (c ∷ k) v h = ground (arith, word-IsInline c, split_at_word k v)

IsInline-word : (k : Text) → all_units is_word k ≡ true → All IsInline k
unfolding all_units
IsInline-word [] h = tt
IsInline-word (c ∷ k) h = ((word-IsInline c (ground arith)).0, IsInline-word k (ground arith))

entry-IsInline : (e : Text × Text) → IsVar e → All IsInline (entry_text e)
entry-IsInline (k, v) (valid, ordinary, inline) =
    All-append IsInline k (b'=' ∷ v) (IsInline-word k (all_units-key k valid)) (omega arith, inline)

split_one : (l : Text) → All IsInline l → split_env_lines l ≡ l ∷ []
unfolding split_env_lines
split_one [] h = refl
split_one (c ∷ l) (p, h) = ground (arith, split_one l h)

split_more : (l s : Text) → All IsInline l → split_env_lines (l ++ (10 ∷ s)) ≡ l ∷ split_env_lines s
unfolding split_env_lines
split_more [] s h = refl
split_more (c ∷ l) s (p, h) = ground (arith, split_more l s h)

-- the key stands first, so the line is not blank
trim-entry : (k v : Text) → is_env_var_key k ≡ true → (length (trim (k ++ (b'=' ∷ v))) == 0) ≡ false
unfolding is_env_var_key trim trim_start trim_end
trim-entry [] v h = cc
trim-entry (c ∷ k) v h = ground (arith, word-not_space c)

split-join :
    (ls : List Text) → ls ≢ [] → All (All IsInline) ls → split_env_lines (join_lines ls) ≡ ls
unfolding join_lines
split-join [] e h = absurd (e refl)
split-join (l ∷ []) e (k, h) = split_one l k
split-join (l ∷ m ∷ ls) e (k, h) =
    split_more l (join_lines (m ∷ ls)) k ∙ ap (λ r. l ∷ r) (split-join (m ∷ ls) (λ z. cc) h)

text_eq-false_sym : (a b : Text) → text_eq a b ≡ false → text_eq b a ≡ false
text_eq-false_sym a b h = ground (arith, text_eq_iff a b, text_eq_iff b a)

abbrev Fresh : Text → Text × Text → Type 0
Fresh k e = text_eq e.0 k ≡ false

Fresh-of_has_own : (k : Text) (vars : Vars) → has_own vars k ≡ false → All (Fresh k) vars
unfolding has_own
Fresh-of_has_own k [] h = tt
Fresh-of_has_own k ((j, v) ∷ vars) h = (ground arith, Fresh-of_has_own k vars (ground arith))

has_own-append :
    (vars : Vars) (k v j : Text)
    → has_own (vars ++ ((k, v) ∷ [])) j ≡ (has_own vars j || text_eq k j)
unfolding has_own
has_own-append [] k v j = ground arith
has_own-append ((i, w) ∷ vars) k v j = ground (arith, has_own-append vars k v j)

abbrev Unused : Vars → Text × Text → Type 0
Unused result e = has_own result e.0 ≡ false

Unused-append :
    (result vars : Vars) (k v : Text)
    → All (Unused result) vars
    → All (Fresh k) vars
    → All (Unused (result ++ ((k, v) ∷ []))) vars
Unused-append result [] k v h f = tt
Unused-append result ((j, w) ∷ vars) k v (p, h) (q, f) = (
  ground (arith, has_own-append result k v j, text_eq-false_sym j k),
  Unused-append result vars k v h f,
)

key-nonempty : (k : Text) → is_env_var_key k ≡ true → (length k == 0) ≡ false
unfolding is_env_var_key
key-nonempty [] h = cc
key-nonempty (c ∷ k) h = ground arith

parse_line-entry :
    (n : ℕ) (k v : Text) (result : Vars) (errors : List EnvError)
    → IsVar (k, v)
    → has_own result k ≡ false
    → parse_line n (entry_text (k, v)) (result, errors) ≡ (result ++ ((k, v) ∷ []), errors)
unfolding parse_line parse_entry assign
parse_line-entry n k v result errors (valid, ordinary, inline) unused =
    let word = all_units-key k valid in
    rw (trim-entry k v valid, split_at_word k v word)
      (ground (arith, trim_word k word, key-nonempty k valid))

parse_lines-entries :
    (n : ℕ) (vars result : Vars) (errors : List EnvError)
    → All IsVar vars
    → IsDistinct vars
    → All (Unused result) vars
    → parse_lines n (map entry_text vars) (result, errors) ≡ (result ++ vars, errors)
unfolding parse_lines
parse_lines-entries n [] result errors _ _ _ = ap (λ r. (r, errors)) (sym (append-nil result))
parse_lines-entries n ((k, v) ∷ vars) result errors (var, h) (new, d) (unused, u) =
    ap (parse_lines (suc n) (map entry_text vars)) (parse_line-entry n k v result errors var unused)
    ∙ parse_lines-entries (suc n) vars (result ++ ((k, v) ∷ [])) errors h d
        (Unused-append result vars k v u (Fresh-of_has_own k vars new))
    ∙ ap (λ r. (r, errors)) (append_assoc result ((k, v) ∷ []) vars)

map-IsInline : (vars : Vars) → All IsVar vars → All (All IsInline) (map entry_text vars)
map-IsInline [] h = tt
map-IsInline (e ∷ vars) (p, h) = (entry-IsInline e p, map-IsInline vars h)

Unused-nil : (vars : Vars) → All (Unused []) vars
unfolding has_own
Unused-nil [] = tt
Unused-nil (e ∷ vars) = (refl, Unused-nil vars)

parse-join :
    (vars : Vars)
    → All IsVar vars
    → IsDistinct vars
    → parse_env_vars_text (join_lines (map entry_text vars)) ≡ to_parsed (vars, [])
unfolding parse_env_vars_text
parse-join [] h d = unfold join_lines split_env_lines parse_lines trim trim_start trim_end in refl
parse-join (e ∷ vars) h d =
    ap (λ ls. to_parsed (parse_lines 1 ls ([], [])))
      (split-join (map entry_text (e ∷ vars)) (λ z. cc) (map-IsInline (e ∷ vars) h))
    ∙ ap to_parsed (parse_lines-entries 1 (e ∷ vars) [] [] h d (Unused-nil (e ∷ vars)))

module _ (comes_first : Text → Text → Bool) where
  insert_sorted-All :
      (P : Text × Text → Type 0) (e : Text × Text) (vars : Vars)
      → P e
      → All P vars
      → All P (insert_sorted comes_first e vars)
  unfolding insert_sorted
  insert_sorted-All P e [] p h = (p, tt)
  insert_sorted-All P e (f ∷ vars) p (q, h) =
      if_elim (All P) (comes_first e.0 f.0) (λ _. (p, (q, h)))
        (λ _. (q, insert_sorted-All P e vars p h))

  has_own-insert :
      (e : Text × Text) (vars : Vars) (k : Text)
      → has_own (insert_sorted comes_first e vars) k ≡ (text_eq e.0 k || has_own vars k)
  unfolding insert_sorted has_own
  has_own-insert e [] k = refl
  has_own-insert e (f ∷ vars) k = ground (arith, has_own-insert e vars k)

  insert_sorted-IsDistinct :
      (e : Text × Text) (vars : Vars)
      → has_own vars e.0 ≡ false
      → IsDistinct vars
      → IsDistinct (insert_sorted comes_first e vars)
  unfolding insert_sorted has_own
  insert_sorted-IsDistinct e [] u d = (refl, tt)
  insert_sorted-IsDistinct e ((j, w) ∷ vars) u (n, d) =
      if_elim IsDistinct (comes_first e.0 j) (λ _. (u, (n, d)))
        (λ _. (
          ground (arith, has_own-insert e vars j, text_eq-false_sym j e.0),
          insert_sorted-IsDistinct e vars (ground arith) d,
        ))

  has_own-sort : (vars : Vars) (k : Text) → has_own (sort_keys comes_first vars) k ≡ has_own vars k
  unfolding sort_keys has_own
  has_own-sort [] k = refl
  has_own-sort (e ∷ vars) k =
      ground (arith, has_own-insert e (sort_keys comes_first vars) k, has_own-sort vars k)

  sort_keys-IsDistinct : (vars : Vars) → IsDistinct vars → IsDistinct (sort_keys comes_first vars)
  unfolding sort_keys
  sort_keys-IsDistinct [] d = tt
  sort_keys-IsDistinct ((k, v) ∷ vars) (u, d) =
      insert_sorted-IsDistinct (k, v) (sort_keys comes_first vars) (has_own-sort vars k ∙ u)
        (sort_keys-IsDistinct vars d)

  sort_keys-All :
      (P : Text × Text → Type 0) (vars : Vars) → All P vars → All P (sort_keys comes_first vars)
  unfolding sort_keys
  sort_keys-All P [] h = tt
  sort_keys-All P (e ∷ vars) (p, h) =
      insert_sorted-All P e (sort_keys comes_first vars) p (sort_keys-All P vars h)

  -- Variables with shell names other than `__proto__`, no name twice and values on one line are read
  -- back from their text, sorted by name and with no error. A variable named `__proto__`, whose name
  -- passes the pattern, is left out, since the code loses it.
  pub parse-env_vars_to_text :
      (vars : Vars)
      → All IsVar vars
      → IsDistinct vars
      → parse_env_vars_text (env_vars_to_text comes_first (some vars))
        ≡ to_parsed (sort_keys comes_first vars, [])
  unfolding env_vars_to_text
  parse-env_vars_to_text vars h d =
      parse-join (sort_keys comes_first vars) (sort_keys-All IsVar vars h)
        (sort_keys-IsDistinct vars d)
