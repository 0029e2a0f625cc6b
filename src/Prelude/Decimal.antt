-- ===== src/Prelude/Decimal.antt =====
-- Integers in decimal, as sprintf() prints them with "%d" and atoi() reads them.
use Prim.Native.Nat.{ℕ, zero, suc, ◌+◌, ◌-◌, ◌*◌, ◌/◌, ◌%◌, ◌^◌, ◌≤◌, ◌<◌}
use mathlib.Core.Path.{◌≡◌, refl, ◌∙◌, ap}
use mathlib.Core.Logic.{◌⊎◌, inl, inr}
use mathlib.Core.Bool.{Bool, true, false, ◌&&◌}
use cheops_ng.Prelude.Tests.{ltb, leb, ◌==◌, if◌then◌else◌, Bool-cases}
use cheops_ng.Prelude.Lists.{length, length-append, All, All-append, All-map}
use mathlib.Core.List.{List, [], ◌∷◌, ◌++◌}
use native.Mathlib.Omega.{arith}

-- The digits of a number, at most `k` of them.
unfoldable pub digits : ℕ → ℕ → List ℕ
digits zero n = []
digits (suc k) n =
    let before = digits k (n / 10) in
    if ltb n 10 then (48 + n) ∷ [] else before ++ ((48 + n % 10) ∷ [])

-- "%d" of an `unsigned int`, which is printed as the `int` of the same bits.
unfoldable pub print_int : ℕ → List ℕ
unfolding digits
print_int n = if ltb n (2 ^ 31) then digits 10 n else 45 ∷ digits 10 (2 ^ 32 - n)

abbrev pub is_digit : ℕ → Bool
is_digit c = leb 48 c && leb c 57

-- The number that the digits from here on give, after digits that gave `n`.
unfoldable pub read_digits : ℕ → List ℕ → ℕ
read_digits n [] = n
read_digits n (c ∷ l) = let all = read_digits (n * 10 + (c - 48)) l in if is_digit c then all else n

abbrev pub at_most : ℕ → ℕ → ℕ
at_most bound n = if ltb n bound then n else bound

-- strtol(), which stops at the ends of a `long`, and the conversion to an `unsigned int`.
unfoldable pub signed : Bool → ℕ → ℕ
signed false n = at_most (2 ^ 63 - 1) n % 2 ^ 32
signed true n = (2 ^ 32 - at_most (2 ^ 63) n % 2 ^ 32) % 2 ^ 32

unfoldable pub read_signed : List ℕ → ℕ
unfolding read_digits signed
read_signed [] = 0
read_signed (c ∷ l) =
    if c == 45
    then signed true (read_digits 0 l)
    else (if c == 43 then signed false (read_digits 0 l) else signed false (read_digits 0 (c ∷ l)))

-- isspace().
abbrev pub is_space : ℕ → Bool
is_space c = if c == 32 then true else leb 9 c && leb c 13

-- atoi() as an `unsigned int`.
unfoldable pub atoi : List ℕ → ℕ
unfolding read_signed
atoi [] = 0
atoi (c ∷ l) = let later = atoi l in if is_space c then later else read_signed (c ∷ l)

abbrev pub IsDigit : ℕ → Type 0
IsDigit c = is_digit c ≡ true

pub digits-IsDigit : (k n : ℕ) → All IsDigit (digits k n)
unfolding digits
digits-IsDigit zero n = tt
digits-IsDigit (suc k) n = elim (Bool-cases (ltb n 10)) [
  | inl small ↦ rw small (ground (arith, small), tt)
  | inr large ↦
      rw large (All-append _ (digits k (n / 10)) _ (digits-IsDigit k (n / 10)) (ground arith, tt))
]

read_digits-snoc :
    (n c : ℕ) (l : List ℕ)
    → All IsDigit l
    → IsDigit c
    → read_digits n (l ++ (c ∷ [])) ≡ read_digits n l * 10 + (c - 48)
unfolding read_digits
read_digits-snoc n c [] h d = rw d refl
read_digits-snoc n c (x ∷ l) h d = rw h.0 (read_digits-snoc (n * 10 + (x - 48)) c l h.1 d)

tenth : (n p : ℕ) → n < p * 10 → n / 10 < p
tenth n p h = omega arith

pub read_digits-digits : (k n : ℕ) → n < 10 ^ k → read_digits 0 (digits k n) ≡ n
unfolding digits read_digits
read_digits-digits zero n h = omega arith
read_digits-digits (suc k) n h = elim (Bool-cases (ltb n 10)) [
  | inl small ↦ rw small (ground (arith, small))
  | inr large ↦
      let e = read_digits-digits k (n / 10) (tenth n (10 ^ k) (omega (arith, h))) in
      rw large (
        read_digits-snoc 0 (48 + n % 10) (digits k (n / 10)) (digits-IsDigit k (n / 10))
          (ground arith)
        ∙ omega (arith, e))
]

pub length-digits : (k n : ℕ) → length (digits k n) ≤ k
unfolding digits
length-digits zero n = omega arith
length-digits (suc k) n = elim (Bool-cases (ltb n 10)) [
  | inl small ↦ rw small (omega arith)
  | inr large ↦
      let e = length-append (digits k (n / 10)) ((48 + n % 10) ∷ []) in
      let f = length-digits k (n / 10) in rw large (omega arith)
]

-- A list of digits begins with neither a sign nor a space.
atoi-digits : (l : List ℕ) → All IsDigit l → atoi l ≡ signed false (read_digits 0 l)
unfolding atoi read_signed
atoi-digits [] h = refl
atoi-digits (c ∷ l) h = ground (arith, h.0)

signed_positive : (n : ℕ) → n < 2 ^ 32 → signed false n ≡ n
unfolding signed
signed_positive n h = ground arith

signed_negative : (n : ℕ) → n < 2 ^ 32 → 2 ^ 31 ≤ n → signed true (2 ^ 32 - n) ≡ n
unfolding signed
signed_negative n h l = ground arith

atoi-minus : (l : List ℕ) → atoi (45 ∷ l) ≡ signed true (read_digits 0 l)
unfolding atoi read_signed
atoi-minus l = refl

-- What "%d" prints of any word of 32 bits, atoi() reads back.
pub atoi-print_int : (n : ℕ) → n < 2 ^ 32 → atoi (print_int n) ≡ n
unfolding print_int
atoi-print_int n h = elim (Bool-cases (ltb n (2 ^ 31))) [
  | inl small ↦ rw small (
      atoi-digits (digits 10 n) (digits-IsDigit 10 n)
      ∙ ap (signed false) (read_digits-digits 10 n (omega (arith, h)))
      ∙ signed_positive n h)
  | inr large ↦ rw large (
      atoi-minus (digits 10 (2 ^ 32 - n))
      ∙ ap (signed true) (read_digits-digits 10 (2 ^ 32 - n) (omega (arith, h)))
      ∙ signed_negative n h (ground (arith, large)))
]

-- Of a digit or of the sign.
abbrev pub IsSign : ℕ → Type 0
IsSign c = (IsDigit c) ⊎ (c ≡ 45)

pub print_int-IsSign : (n : ℕ) → All IsSign (print_int n)
unfolding print_int
print_int-IsSign n = elim (Bool-cases (ltb n (2 ^ 31))) [
  | inl small ↦ rw small (All-map _ _ (digits 10 n) (λ c d. inl d) (digits-IsDigit 10 n))
  | inr large ↦ rw large (
    inr refl,
    All-map _ _ (digits 10 (2 ^ 32 - n)) (λ c d. inl d) (digits-IsDigit 10 (2 ^ 32 - n)),
  )
]

pub length-print_int : (n : ℕ) → length (print_int n) ≤ 11
unfolding print_int
length-print_int n = elim (Bool-cases (ltb n (2 ^ 31))) [
  | inl small ↦ let e = length-digits 10 n in rw small (omega arith)
  | inr large ↦ let e = length-digits 10 (2 ^ 32 - n) in rw large (omega arith)
]
