-- ===== src/Prelude/Bytes.antt =====
-- 32-bit words as their bytes, on a machine that stores the low byte first.
use Prim.Native.Nat.{ℕ, zero, suc, ◌+◌, ◌*◌, ◌/◌, ◌%◌, ◌^◌, ◌<◌}
use mathlib.Core.Path.{◌≡◌, refl}
use mathlib.Core.Logic.{◌≢◌}
use mathlib.Core.Bool.{Bool, true, false, ◌&&◌}
use cheops_ng.Prelude.Tests.{◌==◌, if◌then◌else◌}
use cheops_ng.Prelude.Lists.{length, All}
use mathlib.Core.List.{List, [], ◌∷◌, ◌++◌}
use native.Mathlib.Omega.{arith}

-- The bytes of a word of `n` bytes, as they lie in memory.
unfoldable pub bytes_of : ℕ → ℕ → List ℕ
bytes_of zero x = []
bytes_of (suc n) x = x % 2 ^ 8 ∷ bytes_of n (x / 2 ^ 8)

-- ntohl(), which is htonl() too.
unfoldable pub ntohl : ℕ → ℕ
ntohl x =
    x % 2 ^ 8 * 2 ^ 24
    + x / 2 ^ 8 % 2 ^ 8 * 2 ^ 16
    + x / 2 ^ 16 % 2 ^ 8 * 2 ^ 8
    + x / 2 ^ 24 % 2 ^ 8

pub ntohl-ntohl : (x : ℕ) → x < 2 ^ 32 → ntohl (ntohl x) ≡ x
unfolding ntohl
ntohl-ntohl x h = omega arith

pub ntohl_bound : (x : ℕ) → ntohl x < 2 ^ 32
unfolding ntohl
ntohl_bound x = omega arith

pub ntohl-zero : (x : ℕ) → x < 2 ^ 32 → ntohl x ≡ 0 → x ≡ 0
unfolding ntohl
ntohl-zero x h e = omega arith

pub zero-ntohl : (x : ℕ) → x ≡ 0 → ntohl x ≡ 0
unfolding ntohl
zero-ntohl x e = omega arith

-- A pointer `n` bytes further.
unfoldable pub skip : ℕ → List ℕ → List ℕ
skip zero l = l
skip (suc n) [] = []
skip (suc n) (x ∷ l) = skip n l

-- The string at a pointer into a buffer.
unfoldable pub string_at : List ℕ → List ℕ
string_at [] = []
string_at (x ∷ l) = let rest = string_at l in if x == 0 then [] else x ∷ rest

-- A word as htonl() stores it, and what ntohl() reads at a pointer; a byte that is missing is 0.
unfoldable pub put_word : ℕ → List ℕ
put_word x = x / 2 ^ 24 % 2 ^ 8 ∷ x / 2 ^ 16 % 2 ^ 8 ∷ x / 2 ^ 8 % 2 ^ 8 ∷ x % 2 ^ 8 ∷ []

abbrev pub first_byte : List ℕ → ℕ
first_byte [] = 0
first_byte (x ∷ l) = x

unfoldable pub get_word : List ℕ → ℕ
unfolding skip
get_word l =
    first_byte l * 2 ^ 24
    + first_byte (skip 1 l) * 2 ^ 16
    + first_byte (skip 2 l) * 2 ^ 8
    + first_byte (skip 3 l)

pub get_word-put_word : (x : ℕ) (l : List ℕ) → x < 2 ^ 32 → get_word (put_word x ++ l) ≡ x
unfolding get_word put_word
get_word-put_word x l h = omega arith

pub skip-put_word : (x : ℕ) (l : List ℕ) → skip 4 (put_word x ++ l) ≡ l
unfolding skip put_word
skip-put_word x l = refl

pub skip-length : (xs l : List ℕ) → skip (length xs) (xs ++ l) ≡ l
unfolding skip
skip-length [] l = refl
skip-length (x ∷ xs) l = skip-length xs l

-- A string as it is stored, with its NUL.
unfoldable pub put_string : List ℕ → List ℕ
put_string s = s ++ (0 ∷ [])

pub string_at-put_string : (s l : List ℕ) → All (λ x. x ≢ 0) s → string_at (put_string s ++ l) ≡ s
unfolding string_at put_string
string_at-put_string [] l h = refl
string_at-put_string (x ∷ s) l h = ground (arith, h.0, string_at-put_string s l h.1)

pub skip-put_string : (s l : List ℕ) → skip (suc (length s)) (put_string s ++ l) ≡ l
unfolding skip put_string
skip-put_string [] l = refl
skip-put_string (x ∷ s) l = skip-put_string s l

-- strcmp() of two strings without a NUL.
unfoldable pub is_equal : List ℕ → List ℕ → Bool
is_equal [] [] = true
is_equal [] (y ∷ l) = false
is_equal (x ∷ k) [] = false
is_equal (x ∷ k) (y ∷ l) = let rest = is_equal k l in x == y && rest
