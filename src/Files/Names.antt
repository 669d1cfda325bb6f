-- ===== src/Files/Names.antt =====
-- The names of downloaded files in frontend/src/features/files/api.ts: `basename`,
-- `contentDispositionFilename` and the choice that `downloadWorkspaceFile` makes.
-- `decodeURIComponent` is the parameter `decode`, `none` where it throws.
use terminal_hub.Common.{
  ℕ, ◌+◌, ◌&&◌, ◌||◌, Option, none, some, [], ◌∷◌, ◌++◌, Text, codes, leb, ◌==◌, if◌then◌else◌,
  maybe, length, trim,
}

-- `replaceAll("\\", "/")`
unfoldable pub replace_backslashes : Text → Text
replace_backslashes [] = []
replace_backslashes (c ∷ s) = (if c == b'\\' then b'/' else c) ∷ replace_backslashes s

-- `split("/").at(-1)`; `part` is the part so far
unfoldable pub last_part : Text → Text → Text
last_part part [] = part
last_part part (c ∷ s) =
    let next = last_part [] s in
    let same = last_part (part ++ (c ∷ [])) s in if c == b'/' then next else same

abbrev pub fallback_name : Text
fallback_name = codes "downloaded-file"

unfoldable pub basename : Text → Text
unfolding replace_backslashes last_part
basename path =
    let last = last_part [] (replace_backslashes path) in
    if length (trim last) == 0 then fallback_name else last

-- the flag `i`, on ASCII letters
abbrev pub fold_case : ℕ → ℕ
fold_case c = if leb b'A' c && leb c b'Z' then c + 32 else c

-- the rest behind a literal in lower case
unfoldable pub behind : Text → Text → Option Text
behind [] s = some s
behind (p ∷ ps) [] = none
behind (p ∷ ps) (c ∷ s) = let rest = behind ps s in if fold_case c == p then rest else none

-- `[^";]*`
unfoldable pub unquoted : Text → Text
unquoted [] = []
unquoted (c ∷ s) = let rest = unquoted s in if c == 0x22 || c == b';' then [] else c ∷ rest

-- `([^";]+)`
abbrev pub capture : Text → Option Text
capture s = elim (unquoted s) [ [] ↦ none | c ∷ name ↦ some (c ∷ name) ]

abbrev pub or_else : Option Text → Option Text → Option Text
or_else none later = later
or_else (some t) later = some t

abbrev pub captured_behind : Text → Text → Option Text
captured_behind prefix s = maybe (behind prefix s) none capture

abbrev pub without_star : Text → Text
without_star [] = []
without_star (c ∷ s) = if c == b'*' then s else c ∷ s

-- the pattern at one position: `filename\*?=(?:UTF-8''|")?([^";]+)`
unfoldable pub match_here : Text → Option Text
unfolding behind unquoted
match_here s = maybe (behind (codes "filename") s) none (λ r.
    maybe (behind (codes "=") (without_star r)) none (λ v.
      or_else (captured_behind (codes "utf-8''") v)
        (or_else (captured_behind (0x22 ∷ []) v) (capture v))))

-- `exec`: the first position that matches
unfoldable pub find_match : Text → Option Text
unfolding match_here
find_match [] = none
find_match (c ∷ s) = let later = find_match s in or_else (match_here (c ∷ s)) later

-- `replaceAll('"', "")`
unfoldable pub without_quotes : Text → Text
without_quotes [] = []
without_quotes (c ∷ s) = let rest = without_quotes s in if c == 0x22 then rest else c ∷ rest

abbrev pub non_empty : Text → Option Text
non_empty [] = none
non_empty (c ∷ s) = some (c ∷ s)

module _ (decode : Text → Option Text) where
  unfoldable pub content_disposition_filename : Option Text → Option Text
  unfolding find_match without_quotes
  content_disposition_filename none = none
  content_disposition_filename (some header) =
      if length (trim header) == 0
      then none
      else maybe (find_match header) none (λ m.
        let candidate = without_quotes (trim m) in
        non_empty (maybe (decode candidate) candidate (λ t. t)))

  -- `anchor.download`, given the trimmed path and the trimmed name
  unfoldable pub download_name : Text → Text → Option Text → Text
  unfolding content_disposition_filename basename
  download_name path filename header =
      maybe (non_empty filename)
        (maybe (content_disposition_filename header) (basename path) (λ t. t)) (λ t. t)
