-- ===== src/Prelude/Lists.antt =====
-- Lists measured and indexed by native numbers, under the library's names.
use mathlib.Core.Logic.{◌≢◌, ◌⊎◌, inl, inr, Lift}
use Prim.Native.Nat.{ℕ, zero, suc, ◌+◌}
use mathlib.Core.Path.{◌≡◌, refl, subst}
use mathlib.Core.List.{List, [], ◌∷◌, ◌++◌}
use mathlib.Core.Option.{Option, none, some}
use native.Mathlib.Omega.{arith}

module _ {ℓ} {A : Type ℓ} where
  abbrev pub length : List A → ℕ
  length [] = 0
  length (x ∷ xs) = suc (length xs)

  abbrev pub get_elem? : List A → ℕ → Option A
  get_elem? [] i = none
  get_elem? (x ∷ xs) zero = some x
  get_elem? (x ∷ xs) (suc i) = get_elem? xs i

  -- A write out of bounds changes nothing.
  abbrev pub set : List A → ℕ → A → List A
  set [] i v = []
  set (x ∷ xs) zero v = v ∷ xs
  set (x ∷ xs) (suc i) v = x ∷ set xs i v

  pub length-append : (xs ys : List A) → length (xs ++ ys) ≡ length xs + length ys
  length-append [] ys = omega arith
  length-append (x ∷ xs) ys = omega (arith, length-append xs ys)

  -- Holds of every element; it computes to a product that the tactics read.
  abbrev pub All {κ} : (A → Type κ) → List A → Type κ
  All P [] = Unit
  All P (x ∷ xs) = P x × All P xs

  pub All-append {κ} : (P : A → Type κ) (xs ys : List A) → All P xs → All P ys → All P (xs ++ ys)
  All-append P [] ys hx hy = hy
  All-append P (x ∷ xs) ys (h, hx) hy = (h, All-append P xs ys hx hy)

  pub All-map {κ μ} :
      (P : A → Type κ) (Q : A → Type μ) (xs : List A) → ((a : A) → P a → Q a) → All P xs → All Q xs
  All-map P Q [] f h = tt
  All-map P Q (x ∷ xs) f (h, hs) = (f x h, All-map P Q xs f hs)

pub All-zip {ℓ κ μ ν} :
    {A : Type ℓ} (P : A → Type κ) (Q : A → Type μ) (R : A → Type ν) (xs : List A)
    → ((a : A) → P a → Q a → R a)
    → All P xs
    → All Q xs
    → All R xs
All-zip P Q R [] f h k = tt
All-zip P Q R (x ∷ xs) f (h, hs) (k, ks) = (f x h k, All-zip P Q R xs f hs ks)

module _ {ℓ} {A : Type ℓ} where
  -- The places in the list where the element stands.
  abbrev pub Has : List A → A → Type ℓ
  Has [] a = Lift ⊥
  Has (x ∷ xs) a = (x ≡ a) ⊎ Has xs a

  pub Has-append : (l m : List A) (a : A) → Has l a → Has (l ++ m) a
  Has-append [] m a h = absurd h.lower
  Has-append (x ∷ l) m a (inl same) = inl same
  Has-append (x ∷ l) m a (inr later) = inr (Has-append l m a later)

  pub Has-snoc : (l : List A) (a : A) → Has (l ++ (a ∷ [])) a
  Has-snoc [] a = inl refl
  Has-snoc (x ∷ l) a = inr (Has-snoc l a)

  pub All-Has {κ} : (P : A → Type κ) (l : List A) (a : A) → All P l → Has l a → P a
  All-Has P [] a h there = absurd there.lower
  All-Has P (x ∷ l) a h (inl same) = subst P same h.0
  All-Has P (x ∷ l) a h (inr later) = All-Has P l a h.1 later

abbrev pub IsDistinct : List ℕ → Type 0
IsDistinct [] = Unit
IsDistinct (a ∷ l) = All (λ b. b ≢ a) l × IsDistinct l
