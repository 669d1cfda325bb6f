-- ===== src/Touch/Distance.antt =====
-- Whole numbers as differences of natural numbers.
use terminal_hub.Common.{ℕ, ◌+◌, ◌*◌, ◌≡◌, refl, ap, List, [], ◌∷◌, arith}
use terminal_hub.Touch.{ℤ, pos, negsuc, difference, ◌+ℤ◌, negate, scale}

-- The number is the difference of the two.
abbrev pub IsDifference : ℤ → ℕ → ℕ → Type 0
IsDifference (pos n) a b = a ≡ b + n
IsDifference (negsuc n) a b = b ≡ a + n + 1

pub difference-IsDifference : (a b : ℕ) → IsDifference (difference a b) a b
unfolding difference
difference-IsDifference a b = ground arith

pub add-IsDifference :
    (x y : ℤ) (a b c d : ℕ)
    → IsDifference x a b
    → IsDifference y c d
    → IsDifference (x +ℤ y) (a + c) (b + d)
unfolding ◌+ℤ◌ difference
add-IsDifference (pos m) (pos n) a b c d h k = omega (arith, h, k)
add-IsDifference (pos m) (negsuc n) a b c d h k = ground (arith, h, k)
add-IsDifference (negsuc m) (pos n) a b c d h k = ground (arith, h, k)
add-IsDifference (negsuc m) (negsuc n) a b c d h k = omega (arith, h, k)

pub negate-IsDifference : (x : ℤ) (a b : ℕ) → IsDifference x a b → IsDifference (negate x) b a
unfolding negate
negate-IsDifference (pos n) a b h = ground (arith, h)
negate-IsDifference (negsuc n) a b h = omega (arith, h)

pub scale-IsDifference :
    (x : ℤ) (a b : ℕ) → IsDifference x a b → IsDifference (scale 3 x) (3 * a) (3 * b)
unfolding scale
scale-IsDifference (pos n) a b h = omega (arith, h)
scale-IsDifference (negsuc n) a b h = omega (arith, h)

pub +ℤ_comm : (x y : ℤ) → x +ℤ y ≡ y +ℤ x
unfolding ◌+ℤ◌
+ℤ_comm (pos m) (pos n) = ap pos (omega arith)
+ℤ_comm (pos m) (negsuc n) = refl
+ℤ_comm (negsuc m) (pos n) = refl
+ℤ_comm (negsuc m) (negsuc n) = ap negsuc (omega arith)

pub +ℤ_zero : (x : ℤ) → x +ℤ pos 0 ≡ x
unfolding ◌+ℤ◌ difference
+ℤ_zero (pos n) = ap pos (omega arith)
+ℤ_zero (negsuc n) = ground arith

unfoldable pub total : List ℤ → ℤ
unfolding ◌+ℤ◌
total [] = pos 0
total (x ∷ xs) = x +ℤ total xs

unique-IsDifference : (x y : ℤ) (a b : ℕ) → IsDifference x a b → IsDifference y a b → x ≡ y
unique-IsDifference (pos m) (pos n) a b h k = ap pos (omega (arith, h, k))
unique-IsDifference (pos m) (negsuc n) a b h k = absurd (omega (arith, h, k))
unique-IsDifference (negsuc m) (pos n) a b h k = absurd (omega (arith, h, k))
unique-IsDifference (negsuc m) (negsuc n) a b h k = ap negsuc (omega (arith, h, k))

-- the parts of a number above and below zero
abbrev above : ℤ → ℕ
above (pos n) = n
above (negsuc n) = 0

abbrev below : ℤ → ℕ
below (pos n) = 0
below (negsuc n) = n + 1

parts-IsDifference : (x : ℤ) → IsDifference x (above x) (below x)
parts-IsDifference (pos n) = omega arith
parts-IsDifference (negsuc n) = omega arith

pub +ℤ_assoc : (x y z : ℤ) → (x +ℤ y) +ℤ z ≡ x +ℤ (y +ℤ z)
+ℤ_assoc x y z =
    let p = parts-IsDifference x in
    let q = parts-IsDifference y in
    let r = parts-IsDifference z in
    let left =
      add-IsDifference (x +ℤ y) z (above x + above y) (below x + below y) (above z) (below z)
        (add-IsDifference x y (above x) (below x) (above y) (below y) p q) r in
    let right =
      add-IsDifference x (y +ℤ z) (above x) (below x) (above y + above z) (below y + below z) p
        (add-IsDifference y z (above y) (below y) (above z) (below z) q r) in
    unique-IsDifference ((x +ℤ y) +ℤ z) (x +ℤ (y +ℤ z)) (above x + above y + above z)
      (below x + below y + below z) left (ground (arith, right))
