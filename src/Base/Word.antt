-- ===== src/Base/Word.antt =====
-- Go's `int` is 64 bits wide on the machines the program runs on: sums wrap around.
use cs_350_boston_u.Base.{ℕ, ◌+◌, ◌-◌, ◌%◌, ◌^◌, ◌≤◌, ◌<◌, ◌≡◌, arith, ltb, if◌then◌else◌}
use cs_350_boston_u.Base.Int.{ℤ, pos, negsuc, ◌+ℤ◌, ◌-ℤ◌, ◌≤ℤ◌, ◌<ℤ◌}

-- The value of the 64-bit word that an integer is cut down to.
abbrev pub wrap : ℤ → ℤ
wrap (pos n) = let r = n % 2 ^ 64 in if ltb r (2 ^ 63) then pos r else negsuc (2 ^ 64 - 1 - r)
wrap (negsuc n) = let r = n % 2 ^ 64 in if ltb r (2 ^ 63) then negsuc r else pos (2 ^ 64 - 1 - r)

abbrev pub IsInt : ℤ → Type 0
IsInt z = (negsuc (2 ^ 63 - 1) ≤ℤ z) × (z <ℤ pos (2 ^ 63))

pub wrap_small : (z : ℤ) → IsInt z → wrap z ≡ z
wrap_small (pos n) h = ground arith
wrap_small (negsuc n) h = ground arith

pub wrap-IsInt : (z : ℤ) → IsInt (wrap z)
wrap-IsInt (pos n) = ground arith
wrap-IsInt (negsuc n) = ground arith

-- Go's `a + b` and `a - b`.
unfoldable pub add_int : ℤ → ℤ → ℤ
add_int a b = wrap (a +ℤ b)

unfoldable pub sub_int : ℤ → ℤ → ℤ
sub_int a b = wrap (a -ℤ b)

pub add_int_small : (a b : ℤ) → IsInt (a +ℤ b) → add_int a b ≡ a +ℤ b
unfolding add_int
add_int_small a b h = wrap_small (a +ℤ b) h

pub sub_int_small : (a b : ℤ) → IsInt (a -ℤ b) → sub_int a b ≡ a -ℤ b
unfolding sub_int
sub_int_small a b h = wrap_small (a -ℤ b) h

pub add_int-pos : (a b : ℕ) → a + b < 2 ^ 63 → add_int (pos a) (pos b) ≡ pos (a + b)
unfolding add_int ◌+ℤ◌
add_int-pos a b h = ground arith

pub sub_int-pos : (a b : ℕ) → b ≤ a → a < 2 ^ 63 → sub_int (pos a) (pos b) ≡ pos (a - b)
unfolding sub_int ◌-ℤ◌
sub_int-pos a b le h = ground arith

-- The word itself, read without sign.
abbrev pub word : ℤ → ℕ
word (pos n) = n % 2 ^ 64
word (negsuc n) = 2 ^ 64 - 1 - n % 2 ^ 64

pub word_lt : (z : ℤ) → word z < 2 ^ 64
word_lt (pos n) = ground arith
word_lt (negsuc n) = ground arith

pub word_add : (a b : ℤ) → word (add_int a b) ≡ (word a + word b) % 2 ^ 64
unfolding add_int ◌+ℤ◌
word_add (pos a) (pos b) = ground arith
word_add (pos a) (negsuc b) = ground arith
word_add (negsuc a) (pos b) = ground arith
word_add (negsuc a) (negsuc b) = ground arith

pub word_sub : (a b : ℤ) → word (sub_int a b) ≡ (word a + 2 ^ 64 - word b) % 2 ^ 64
unfolding sub_int ◌-ℤ◌
word_sub (pos a) (pos b) = ground arith
word_sub (pos a) (negsuc b) = ground arith
word_sub (negsuc a) (pos b) = ground arith
word_sub (negsuc a) (negsuc b) = ground arith

-- A sum is known by its word.
pub IsInt-word : (a b : ℤ) → IsInt a → IsInt b → word a ≡ word b → a ≡ b
IsInt-word (pos a) (pos b) ha hb e = ground arith
IsInt-word (pos a) (negsuc b) ha hb e = ground arith
IsInt-word (negsuc a) (pos b) ha hb e = ground arith
IsInt-word (negsuc a) (negsuc b) ha hb e = ground arith
