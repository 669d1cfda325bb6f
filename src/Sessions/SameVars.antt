-- ===== src/Sessions/SameVars.antt =====
-- The environment variables of CreateSessionDialog.tsx beside those of crons/cronForm.ts.
use terminal_hub.Common.{
  ℕ, suc, ◌≡◌, ◌≢◌, refl, sym, ap, subst, ◌∙◌, false, List, [], ◌∷◌, ◌++◌, map, Text, ◌==◌, maybe,
  length, trim, arith, inl, inr, Bool-cases, Option-cases,
}
use terminal_hub.Cron.Env.{
  Vars, EnvError, EnvState, split_at_separator, split_env_lines, has_own, assign, parse_entry,
  parse_line, parse_lines, to_parsed, parse_env_vars_text,
}
use terminal_hub.Snapshot.{split_lines}
use terminal_hub.Sessions.Env.{put_own, put, add_line, add_lines, env_vars_map}
use terminal_hub.Sessions.SameLines.{
  SameLine, SameLines, blank_split, split-cr, trim-cr, split-SameLines, blank-NoSeparator,
  split_lines-NoSeparator, add_lines-NoSeparator,
}

-- the values without white space around them
abbrev pub trimmed : Vars → Vars
trimmed vars = map (λ p. (p.0, trim p.1)) vars

has_own-trimmed : (vars : Vars) (k : Text) → has_own (trimmed vars) k ≡ has_own vars k
unfolding has_own
has_own-trimmed [] k = refl
has_own-trimmed ((j, v) ∷ vars) k = ground (arith, has_own-trimmed vars k)

put_own-fresh :
    (vars : Vars) (k v : Text) → has_own vars k ≡ false → put_own vars k v ≡ vars ++ ((k, v) ∷ [])
unfolding put_own has_own
put_own-fresh [] k v h = refl
put_own-fresh ((j, w) ∷ vars) k v h = ground (arith, h, put_own-fresh vars k v)

trimmed-append :
    (vars : Vars) (k v : Text)
    → trimmed (vars ++ ((k, v) ∷ [])) ≡ trimmed vars ++ ((k, trim v) ∷ [])
trimmed-append [] k v = refl
trimmed-append (p ∷ vars) k v = ap (λ r. (p.0, trim p.1) ∷ r) (trimmed-append vars k v)

put-assign :
    (vars : Vars) (k v : Text)
    → has_own vars k ≡ false
    → put (trimmed vars) k (trim v) ≡ trimmed (assign vars k v)
unfolding put assign
put-assign vars k v h = ground (
  arith,
  h,
  has_own-trimmed vars k,
  put_own-fresh (trimmed vars) k (trim v),
  trimmed-append vars k v,
)

-- a carriage return at the end of a line changes nothing
add_line-cr : (l : Text) (vars : Vars) → add_line (l ++ (13 ∷ [])) vars ≡ add_line l vars
unfolding add_line
add_line-cr l vars = elim (Option-cases (split_at_separator l)) [
  | inl u ↦ ground (arith, u, split-cr l)
  | inr (p, u) ↦ ground (arith, u, split-cr l, trim-cr p.1)
]

add_line-SameLine : (l m : Text) (vars : Vars) → SameLine l m → add_line m vars ≡ add_line l vars
add_line-SameLine l m vars (inl e) = ap (λ x. add_line x vars) e
add_line-SameLine l m vars (inr e) = ap (λ x. add_line x vars) e ∙ add_line-cr l vars

parse_line-errors :
    (n : ℕ) (l : Text) (result : Vars) (e : EnvError) (errors : List EnvError)
    → (parse_line n l (result, e ∷ errors)).1 ≢ []
unfolding parse_line parse_entry
parse_line-errors n l result e errors = elim (Option-cases (split_at_separator l)) [
  | inl u ↦ ground (arith, u)
  | inr (p, u) ↦ ground (arith, u)
]

-- No error is ever taken back.
parse_lines-errors :
    (n : ℕ) (ls : List Text) (state : EnvState) → state.1 ≢ [] → (parse_lines n ls state).1 ≢ []
unfolding parse_lines
parse_lines-errors n [] state h = h
parse_lines-errors n (l ∷ ls) (result, []) h = absurd (h refl)
parse_lines-errors n (l ∷ ls) (result, e ∷ errors) h =
    parse_lines-errors (suc n) ls (parse_line n l (result, e ∷ errors))
      (parse_line-errors n l result e errors)

-- A line without an error does the same in both.
line-trimmed :
    (n : ℕ) (l : Text) (result : Vars)
    → (parse_line n l (result, [])).1 ≡ []
    → add_line l (trimmed result) ≡ trimmed (parse_line n l (result, [])).0
unfolding parse_line parse_entry add_line
line-trimmed n l result k = elim (Option-cases (split_at_separator l)) [
  | inl u ↦ ground (arith, u, k, blank_split l)
  | inr (p, u) ↦ ground (arith, u, k, blank_split l, put-assign result (trim p.0) p.1)
]

parse_lines-clean :
    (n : ℕ) (ls : List Text) (state : EnvState)
    → (parse_lines n ls state).1 ≡ []
    → state ≡ (state.0, [])
parse_lines-clean n ls (result, []) h = refl
parse_lines-clean n ls (result, e ∷ errors) h =
    absurd (parse_lines-errors n ls (result, e ∷ errors) (λ z. cc) h)

lines-trimmed :
    (n : ℕ) (ls ms : List Text) (result : Vars)
    → SameLines ls ms
    → (parse_lines n ls (result, [])).1 ≡ []
    → add_lines ms (trimmed result) ≡ trimmed (parse_lines n ls (result, [])).0
unfolding parse_lines add_lines
lines-trimmed n [] [] result h k = refl
lines-trimmed n [] (m ∷ ms) result h k = absurd h
lines-trimmed n (l ∷ ls) [] result h k = absurd h
lines-trimmed n (l ∷ ls) (m ∷ ms) result (h, hs) k =
    let state = parse_line n l (result, []) in
    let clean = parse_lines-clean (suc n) ls state k in
    let rest =
      lines-trimmed (suc n) ls ms state.0 hs
        (subst (λ t. (parse_lines (suc n) ls t).1 ≡ []) clean k) in
    rw
      (
        add_line-SameLine l m (trimmed result) h,
        line-trimmed n l result (ap (λ t. t.1) clean),
        rest,
      )
      (ap (λ t. trimmed (parse_lines (suc n) ls t).0) (sym clean))

map-lines : (text : Text) → env_vars_map text ≡ add_lines (split_lines text) []
unfolding env_vars_map
map-lines text = elim (Bool-cases (length (trim text) == 0)) [
  | inl u ↦
      let lines = split_lines-NoSeparator text (blank-NoSeparator text u) in
      rw u (sym (add_lines-NoSeparator (split_lines text) [] lines))
  | inr u ↦ rw u refl
]

to_parsed-vars :
    (state : EnvState)
    → (to_parsed state).errors ≡ []
    → (state.1 ≡ []) × (maybe (to_parsed state).env_vars [] (λ v. v) ≡ state.0)
to_parsed-vars ([], []) h = (refl, refl)
to_parsed-vars (p ∷ vars, []) h = (refl, refl)
to_parsed-vars ([], e ∷ errors) h = absurd (cc h)
to_parsed-vars (p ∷ vars, e ∷ errors) h = absurd (cc h)

-- A text of environment variables that the form of a cron job accepts stands for the same variables
-- in the dialog that creates a session, but for white space around their values.
pub env_vars_map-trimmed :
    (text : Text)
    → (parse_env_vars_text text).errors ≡ []
    → env_vars_map text ≡ trimmed (maybe (parse_env_vars_text text).env_vars [] (λ v. v))
unfolding parse_env_vars_text
env_vars_map-trimmed text h =
    let state = parse_lines 1 (split_env_lines text) ([], []) in
    let parsed = to_parsed-vars state h in
    rw (map-lines text, parsed.1)
      (lines-trimmed 1 (split_env_lines text) (split_lines text) [] (split-SameLines text) parsed.0)
