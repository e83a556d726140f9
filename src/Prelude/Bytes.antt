-- ===== src/Prelude/Bytes.antt =====
-- Bytes and texts as lists of numbers, Python's slices of them, and the integers that `struct` and
-- `int.from_bytes` read.
use Prim.Native.Char.{code}
use Prim.Native.Nat.{ℕ, ◌+◌, ◌-◌, ◌*◌, ◌<◌}
use Prim.Native.String.{String}
use mathlib.Core.Path.{◌≡◌, refl}
use mathlib.Core.Bool.{Bool, true, false, ◌&&◌, ◌||◌}
use mathlib.Core.List.{List, [], ◌∷◌}
use native.Mathlib.Omega.{arith}
use ios_rehydrate.Prelude.Tests.{◌==◌}
use ios_rehydrate.Prelude.Lists.{take, drop, All}

-- A `bytes` value; every element of a real one is below 256.
abbrev pub Bytes : Type 0
Bytes = List ℕ

-- A `str` value, as its code points.
abbrev pub Text : Type 0
Text = List ℕ

abbrev pub IsBytes : Bytes → Type 0
IsBytes = All (λ b. b < 256)

abbrev pub codes : String → Text
codes String.[] = []
codes (String.◌∷◌ c s) = code c ∷ codes s

-- `a == b` on texts and on bytes.
unfoldable pub eq_text : List ℕ → List ℕ → Bool
eq_text [] [] = true
eq_text [] (y ∷ ys) = false
eq_text (x ∷ xs) [] = false
eq_text (x ∷ xs) (y ∷ ys) = x == y && eq_text xs ys

pub eq_text→eq : (xs ys : List ℕ) → eq_text xs ys ≡ true → xs ≡ ys
unfolding eq_text
eq_text→eq [] [] h = refl
eq_text→eq [] (y ∷ ys) h = ground arith
eq_text→eq (x ∷ xs) [] h = ground arith
eq_text→eq (x ∷ xs) (y ∷ ys) h = ground (arith, eq_text→eq xs ys)

pub eq_text_refl : (xs : List ℕ) → eq_text xs xs ≡ true
unfolding eq_text
eq_text_refl [] = refl
eq_text_refl (x ∷ xs) = ground (arith, eq_text_refl xs)

-- `x in xs`
unfoldable pub elem : List ℕ → List (List ℕ) → Bool
unfolding eq_text
elem x [] = false
elem x (y ∷ ys) = eq_text x y || elem x ys

-- `data[from:to]` with bounds that are not negative.
abbrev pub slice : Bytes → ℕ → ℕ → Bytes
slice bytes from to = take (to - from) (drop from bytes)

-- `int.from_bytes(bytes, "little")`
abbrev pub little : Bytes → ℕ
little [] = 0
little (b ∷ bs) = b + 256 * little bs

-- `int.from_bytes(bytes, "big")`, from the digits read so far.
abbrev pub big_from : ℕ → Bytes → ℕ
big_from acc [] = acc
big_from acc (b ∷ bs) = big_from (acc * 256 + b) bs

abbrev pub big : Bytes → ℕ
big = big_from 0
