-- ===== src/Files/Basename.antt =====
-- The names under which files/api.ts saves files.
use terminal_hub.Common.{
  ℕ, ◌≡◌, ◌≢◌, refl, sym, ap, ◌∙◌, true, false, Option, none, some, [], ◌∷◌, ◌++◌, Text, codes,
  ◌==◌, maybe, length, trim, trim_start, trim_end, is_space, one_of, All, All-append, append-nil,
  append_assoc, arith, Option-cases, inl, inr,
}
use terminal_hub.Files.Names.{
  replace_backslashes, last_part, basename, behind, unquoted, match_here, find_match, non_empty,
  without_quotes, content_disposition_filename, download_name,
}

-- neither a slash nor a backslash
abbrev pub IsPlain : ℕ → Type 0
IsPlain c = (c ≢ b'/') × (c ≢ b'\\')

abbrev NoBackslash : ℕ → Type 0
NoBackslash c = c ≢ b'\\'

replaced : (s : Text) → All NoBackslash (replace_backslashes s)
unfolding replace_backslashes
replaced [] = tt
replaced (c ∷ s) = ground (arith, replaced s)

last_part-IsPlain :
    (s part : Text) → All IsPlain part → All NoBackslash s → All IsPlain (last_part part s)
unfolding last_part
last_part-IsPlain [] part h k = h
last_part-IsPlain (c ∷ s) part h k = ground (
  arith,
  last_part-IsPlain s [] tt k.1,
  last_part-IsPlain s (part ++ (c ∷ [])),
  All-append IsPlain part (c ∷ []) h,
  k,
)

-- The last part of a path has no separator, whichever of the two systems the path is from.
basename-IsPlain : (path : Text) → All IsPlain (basename path)
unfolding basename
basename-IsPlain path =
    ground (arith, last_part-IsPlain (replace_backslashes path) [] tt (replaced path))

replace_plain : (name : Text) → All IsPlain name → replace_backslashes name ≡ name
unfolding replace_backslashes
replace_plain [] h = refl
replace_plain (c ∷ s) h = ground (arith, replace_plain s h.1, h)

last_plain : (name part : Text) → All IsPlain name → last_part part name ≡ part ++ name
unfolding last_part
last_plain [] part h = sym (append-nil part)
last_plain (c ∷ s) part h =
    ground (arith, last_plain s (part ++ (c ∷ [])) h.1, append_assoc part (c ∷ []) s, h)

replace-append :
    (s t : Text) → replace_backslashes (s ++ t) ≡ replace_backslashes s ++ replace_backslashes t
unfolding replace_backslashes
replace-append [] t = refl
replace-append (c ∷ s) t = ground (arith, replace-append s t)

last_part-slash : (s part name : Text) → last_part part (s ++ (b'/' ∷ name)) ≡ last_part [] name
unfolding last_part
last_part-slash [] part name = refl
last_part-slash (c ∷ s) part name =
    ground (arith, last_part-slash s [] name, last_part-slash s (part ++ (c ∷ [])) name)

last-append :
    (directory name : Text)
    → All IsPlain name
    → last_part [] (replace_backslashes (directory ++ (b'/' ∷ name))) ≡ name
unfolding replace_backslashes
last-append directory name h =
    ap (last_part []) (replace-append directory (b'/' ∷ name))
    ∙ last_part-slash (replace_backslashes directory) [] (replace_backslashes name)
    ∙ ap (last_part []) (replace_plain name h)
    ∙ last_plain name [] h

-- A path that ends in a slash and a name without separators, of which not all is white space, has
-- this name as its last part.
basename-append :
    (directory name : Text)
    → All IsPlain name
    → (length (trim name) == 0) ≡ false
    → basename (directory ++ (b'/' ∷ name)) ≡ name
unfolding basename
basename-append directory name h k = rw (last-append directory name h) (rw k refl)

abbrev pub IsUnquoted : ℕ → Type 0
IsUnquoted c = (c ≢ 0x22) × (c ≢ b';')

unquoted_name : (name : Text) → All IsUnquoted name → unquoted (name ++ (0x22 ∷ [])) ≡ name
unfolding unquoted
unquoted_name [] h = refl
unquoted_name (c ∷ s) h = ground (arith, unquoted_name s h.1, h)

without_quotes_name : (name : Text) → All IsUnquoted name → without_quotes name ≡ name
unfolding without_quotes
without_quotes_name [] h = refl
without_quotes_name (c ∷ s) h = ground (arith, without_quotes_name s h.1, h)

abbrev pub attachment : Text → Text
attachment name = codes "attachment; filename=\"" ++ (name ++ (0x22 ∷ []))

trim_first : (c : ℕ) (s : Text) → is_space c ≡ false → (length (trim (c ∷ s)) == 0) ≡ false
unfolding trim trim_start trim_end
trim_first c s h = ground arith

blank_attachment : (name : Text) → (length (trim (attachment name)) == 0) ≡ false
blank_attachment name =
    trim_first b'a' (codes "ttachment; filename=\"" ++ (name ++ (0x22 ∷ [])))
      (unfold is_space one_of in refl)

find_attachment :
    (c : ℕ) (s : Text) → All IsUnquoted (c ∷ s) → find_match (attachment (c ∷ s)) ≡ some (c ∷ s)
unfolding find_match match_here behind
find_attachment c s h = ground (arith, h.0, unquoted_name s h.1)

-- A name that the server sends in quotes is the name of the download, where none is asked for: a
-- name that is not empty, without quotes and semicolons and without white space around it, that
-- `decodeURIComponent` leaves as it is or refuses.
pub download-attachment :
    (decode : Text → Option Text) (path : Text) (c : ℕ) (s : Text)
    → All IsUnquoted (c ∷ s)
    → trim (c ∷ s) ≡ c ∷ s
    → maybe (decode (c ∷ s)) (c ∷ s) (λ t. t) ≡ c ∷ s
    → download_name decode path [] (some (attachment (c ∷ s))) ≡ c ∷ s
unfolding download_name content_disposition_filename
download-attachment decode path c s h t d =
    ground
      (arith, find_attachment c s h, without_quotes_name (c ∷ s) h, t, d, blank_attachment (c ∷ s))

blank_nil : (t : Text) → t ≡ [] → (length (trim t) == 0) ≡ true
unfolding trim trim_start trim_end
blank_nil t e = rw e refl

basename_named : (path : Text) → basename path ≢ []
unfolding basename
basename_named path e = ground (arith, blank_nil (last_part [] (replace_backslashes path)))

non_empty_named : (t : Text) → non_empty t ≢ some []
non_empty_named [] e = cc
non_empty_named (c ∷ s) e = cc

header_named :
    (decode : Text → Option Text) (header : Option Text)
    → content_disposition_filename decode header ≢ some []
unfolding content_disposition_filename
header_named decode none e = cc
header_named decode (some header) e = elim (Option-cases (find_match header)) [
  | inl missing ↦ ground arith
  | inr (m, found) ↦ ground (
    arith,
    non_empty_named (maybe (decode (without_quotes (trim m))) (without_quotes (trim m)) (λ t. t)),
  )
]

-- A file is never saved without a name.
download-named :
    (decode : Text → Option Text) (path filename : Text) (header : Option Text)
    → download_name decode path filename header ≢ []
unfolding download_name
download-named decode path [] header e =
    ground (arith, header_named decode header, basename_named path)
download-named decode path (c ∷ s) header e = cc
