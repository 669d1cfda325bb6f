-- ===== src/Common/Strings.antt =====
-- JavaScript strings: lists of UTF-16 code units, with the standard library's operations that the
-- program calls.
use Prim.Native.Nat.{ℕ, ◌+◌, ◌-◌, ◌*◌}
use Prim.Native.Char.{code}
use Prim.Native.String.{String}
use mathlib.Core.Path.{◌≡◌, refl}
use mathlib.Core.Logic.{◌↔◌}
use mathlib.Core.Bool.{Bool, true, false, ◌&&◌, ◌||◌}
use mathlib.Core.List.{List, [], ◌∷◌, ◌++◌}
use native.Mathlib.Omega.{arith}
use terminal_hub.Common.Tests.{leb, ◌==◌, if◌then◌else◌}

abbrev pub Text : Type 0
Text = List ℕ

-- The code units of an ASCII literal.
abbrev pub codes : String → Text
codes String.[] = []
codes (String.◌∷◌ c s) = code c ∷ codes s

-- `===` on strings.
unfoldable pub text_eq : Text → Text → Bool
text_eq [] [] = true
text_eq [] (y ∷ ys) = false
text_eq (x ∷ xs) [] = false
text_eq (x ∷ xs) (y ∷ ys) = x == y && text_eq xs ys

pub text_eq_sound : (a b : Text) → text_eq a b ≡ true → a ≡ b
unfolding text_eq
text_eq_sound [] [] h = refl
text_eq_sound [] (y ∷ ys) h = cc
text_eq_sound (x ∷ xs) [] h = cc
text_eq_sound (x ∷ xs) (y ∷ ys) h = ground (arith, text_eq_sound xs ys)

pub text_eq_refl : (a : Text) → text_eq a a ≡ true
unfolding text_eq
text_eq_refl [] = refl
text_eq_refl (x ∷ xs) = ground (arith, text_eq_refl xs)

pub text_eq_iff : (a b : Text) → (text_eq a b ≡ true) ↔ (a ≡ b)
text_eq_iff a b = (text_eq_sound a b, λ e. rw e (text_eq_refl b))

-- `Array.prototype.includes` and `Set.prototype.has` over strings and over code units.
unfoldable pub includes : Text → List Text → Bool
includes a [] = false
includes a (b ∷ bs) = text_eq a b || includes a bs

unfoldable pub one_of : ℕ → Text → Bool
one_of c [] = false
one_of c (d ∷ ds) = c == d || one_of c ds

-- The surrogates; a high one and a low one behind it make one character.
abbrev pub is_high : ℕ → Bool
is_high c = leb 0xd800 c && leb c 0xdbff

abbrev pub is_low : ℕ → Bool
is_low c = leb 0xdc00 c && leb c 0xdfff

-- `codePointAt` at the head of a text.
unfoldable pub code_point_at : ℕ → Text → ℕ
code_point_at c [] = c
code_point_at c (d ∷ s) =
    if is_high c && is_low d then 0x10000 + (c - 0xd800) * 0x400 + (d - 0xdc00) else c

-- `[...text]` and `for (const char of text)`: the characters, each of one or two code units.
unfoldable pub characters : Text → List Text
characters [] = []
characters (c ∷ []) = (c ∷ []) ∷ []
characters (c ∷ d ∷ s) =
    let pair = (c ∷ d ∷ []) ∷ characters s in
    let single = (c ∷ []) ∷ characters (d ∷ s) in if is_high c && is_low d then pair else single

-- `join("")`.
unfoldable pub concat : List Text → Text
concat [] = []
concat (t ∷ ts) = t ++ concat ts

pub concat-characters : (s : Text) → concat (characters s) ≡ s
unfolding concat characters
concat-characters [] = refl
concat-characters (c ∷ []) = refl
concat-characters (c ∷ d ∷ s) = ground (arith, concat-characters s, concat-characters (d ∷ s))

-- The white space of `trim` and of `\s`.
unfoldable pub is_space : ℕ → Bool
unfolding one_of
is_space c =
    leb 9 c && leb c 13
    || one_of c (0x20 ∷ 0xa0 ∷ 0x1680 ∷ 0x2028 ∷ 0x2029 ∷ 0x202f ∷ 0x205f ∷ 0x3000 ∷ 0xfeff ∷ [])
    || leb 0x2000 c && leb c 0x200a

unfoldable pub trim_start : Text → Text
trim_start [] = []
trim_start (c ∷ s) = let rest = trim_start s in if is_space c then rest else c ∷ s

abbrev keep_unless : Bool → ℕ → Text → Text
keep_unless true c [] = []
keep_unless true c (d ∷ s) = c ∷ d ∷ s
keep_unless false c s = c ∷ s

unfoldable pub trim_end : Text → Text
trim_end [] = []
trim_end (c ∷ s) = keep_unless (is_space c) c (trim_end s)

-- `trim()`
unfoldable pub trim : Text → Text
unfolding trim_start trim_end is_space
trim s = trim_end (trim_start s)

-- A code unit in front of the first of some texts.
abbrev pub prepend : ℕ → List Text → List Text
prepend c [] = (c ∷ []) ∷ []
prepend c (l ∷ ls) = (c ∷ l) ∷ ls

-- `join("\n")`
unfoldable pub join_lines : List Text → Text
join_lines [] = []
join_lines (l ∷ []) = l
join_lines (l ∷ m ∷ ls) = l ++ (10 ∷ join_lines (m ∷ ls))
