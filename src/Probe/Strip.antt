-- ===== src/Probe/Strip.antt =====
-- `strip_version` of probe.c: the string without its first words.
use cheops_ng.Prelude.{
  ◌⊎◌, ◌||◌, ℕ, zero, suc, ◌+◌, ◌≤◌, ◌≡◌, refl, Bool, true, false, Bool-cases, inl, inr, List, [],
  ◌∷◌, ◌++◌, Option, none, some, some_eq, ltb, ◌==◌, ◌&&◌, if◌then◌else◌, arith, ap, subst, ◌∙◌,
  map, All, length,
}
use mathlib.Core.Path.{ap₂}
use cheops_ng.Prelude.Bytes.{string_at}

abbrev lower : ℕ → ℕ
lower x = if ltb 64 x && ltb x 91 then x + 32 else x

-- strcasecmp() finds no difference.
unfoldable pub is_same : List ℕ → List ℕ → Bool
is_same [] [] = true
is_same [] (y ∷ l) = false
is_same (x ∷ a) [] = false
is_same (x ∷ a) (y ∷ l) = let rest = is_same a l in if lower x == lower y then rest else false

-- "No Answer" and "Inoperable".
abbrev pub no_answer : List ℕ
no_answer = 78 ∷ 111 ∷ 32 ∷ 65 ∷ 110 ∷ 115 ∷ 119 ∷ 101 ∷ 114 ∷ []

abbrev pub inoperable : List ℕ
inoperable = 73 ∷ 110 ∷ 111 ∷ 112 ∷ 101 ∷ 114 ∷ 97 ∷ 98 ∷ 108 ∷ 101 ∷ []

unfoldable pub is_answer : List ℕ → Bool
unfolding is_same
is_answer c = is_same c no_answer || is_same c inoperable

-- What is behind the first space, where there is one.
unfoldable pub behind_space : List ℕ → Option (List ℕ)
behind_space [] = none
behind_space (x ∷ l) = let rest = behind_space l in if x == 32 then some l else rest

abbrev pub step_over : Option (List ℕ) → List ℕ → List ℕ
step_over none c = c
step_over (some d) c = d

-- The loop, whose `count` is the argument of the probe.
unfoldable pub strip : ℕ → List ℕ → List ℕ
unfolding is_answer behind_space
strip zero c = c
strip (suc count) c =
    let rest = strip count (step_over (behind_space c) c) in if is_answer c then c else rest

-- `strip_version` of the bytes that read() gave, or of its failure.
unfoldable pub strip_version : ℕ → Option (List ℕ) → Option (List ℕ)
unfolding strip string_at
strip_version count none = none
strip_version count (some bytes) = some (strip count (string_at bytes))

abbrev spaces : List ℕ → ℕ
spaces [] = 0
spaces (x ∷ l) = if x == 32 then spaces l + 1 else spaces l

-- The words with a space behind each, then the rest.
abbrev join : List (List ℕ) → List ℕ → List ℕ
join [] r = r
join (w ∷ ws) r = w ++ (32 ∷ join ws r)

-- "No Answer" or "Inoperable", in letters of any case.
abbrev pub IsAnswer : List ℕ → Type 0
IsAnswer c = (map lower c ≡ map lower no_answer) ⊎ (map lower c ≡ map lower inoperable)

-- What stood before each of the words was no answer.
abbrev Passed : List (List ℕ) → List ℕ → Type 0
Passed [] r = Unit
Passed (w ∷ ws) r = (¬ IsAnswer (join (w ∷ ws) r)) × Passed ws r

-- What is left is the string without its first words: without `count` of them, or without fewer where
-- no space is left or where what is left is an answer; and it was no answer before.
pub record IsStripped (count : ℕ) (text r : List ℕ) : Type 0 where
  pub words : List (List ℕ)
  pub whole : text ≡ join words r
  pub no_spaces : All (λ w. spaces w ≡ 0) words
  pub few : length words ≤ count
  pub passed : Passed words r
  pub enough : (length words ≡ count) ⊎ ((spaces r ≡ 0) ⊎ IsAnswer r)

is_same_lem :
    (a b : List ℕ)
    → ((is_same a b ≡ true) × (map lower a ≡ map lower b))
      ⊎ ((is_same a b ≡ false) × (¬ (map lower a ≡ map lower b)))
unfolding is_same
is_same_lem [] [] = inl (refl, refl)
is_same_lem [] (y ∷ b) = inr (refl, λ e. absurd (cc))
is_same_lem (x ∷ a) [] = inr (refl, λ e. absurd (cc))
is_same_lem (x ∷ a) (y ∷ b) = elim (Bool-cases (lower x == lower y)) [
  | inl same ↦ elim (is_same_lem a b) [
    | inl (t, e) ↦ inl (rw same t, ap₂ (λ (c : ℕ) (l : List ℕ). c ∷ l) (ground (arith, same)) e)
    | inr (f, d) ↦ inr (rw same f, λ e. let t : map lower a ≡ map lower b = cc in d t)
  ]
  | inr other ↦ inr (
    rw other refl,
    λ e. let first : lower x ≡ lower y = cc in absurd (ground (arith, other, first)),
  )
]

is_answer_lem :
    (c : List ℕ) → ((is_answer c ≡ true) × IsAnswer c) ⊎ ((is_answer c ≡ false) × (¬ IsAnswer c))
unfolding is_answer
is_answer_lem c = elim (is_same_lem c no_answer) [
  | inl (t, e) ↦ inl (rw t refl, inl e)
  | inr (f, d) ↦ elim (is_same_lem c inoperable) [
    | inl (t, e) ↦ inl (rw (f, t) refl, inr e)
    | inr (g, k) ↦ inr (rw (f, g) refl, λ (a : IsAnswer c). elim a [ inl e ↦ d e | inr e ↦ k e ])
  ]
]

spaces-append : (l m : List ℕ) → spaces (l ++ m) ≡ spaces l + spaces m
spaces-append [] m = omega arith
spaces-append (x ∷ l) m = ground (arith, spaces-append l m)

spaces-join : (ws : List (List ℕ)) (r : List ℕ) → spaces r ≤ spaces (join ws r)
spaces-join [] r = omega arith
spaces-join (w ∷ ws) r = omega (arith, spaces-append w (32 ∷ join ws r), spaces-join ws r)

no_space : (l : List ℕ) → behind_space l ≡ none → spaces l ≡ 0
unfolding behind_space
no_space [] e = refl
no_space (x ∷ l) e = elim (Bool-cases (x == 32)) [
  | inl same ↦ absurd (ground (arith, same, e))
  | inr other ↦ ground (arith, other, no_space l (rw other at e))
]

behind_space-found :
    (l d : List ℕ)
    → behind_space l ≡ some d
    → (pre : List ℕ) × (l ≡ pre ++ (32 ∷ d)) × (spaces pre ≡ 0)
unfolding behind_space
behind_space-found [] d e = absurd (cc)
behind_space-found (x ∷ l) d e = elim (Bool-cases (x == 32)) [
  | inl same ↦
      let it : some l ≡ some d = rw same at e in ([], ground (arith, same, some_eq it), refl)
  | inr other ↦
      let (pre, f, z) = behind_space-found l d (rw other at e) in
      (x ∷ pre, ap (λ m. x ∷ m) f, ground (arith, other, z))
]

-- One word less, by what is known of the string behind it.
IsStripped-suc :
    (count : ℕ) (text : List ℕ) (o : Option (List ℕ))
    → ¬ IsAnswer text
    → behind_space text ≡ o
    → IsStripped count (step_over o text) (strip count (step_over o text))
    → IsStripped (suc count) text (strip count (step_over o text))
IsStripped-suc count text none other e s = record {
  words = s.words;
  whole = s.whole;
  no_spaces = s.no_spaces;
  few = omega (arith, s.few);
  passed = s.passed;
  enough =
      let r = strip count text in
      inr (inl (omega (arith, no_space text e, ap spaces s.whole, spaces-join s.words r)));
}
IsStripped-suc count text (some d) other e s =
    let (pre, f, z) = behind_space-found text d e in
    let whole : text ≡ join (pre ∷ s.words) (strip count d) =
      f ∙ ap (λ m. pre ++ (32 ∷ m)) s.whole in
    record {
      words = pre ∷ s.words;
      whole = whole;
      no_spaces = (z, s.no_spaces);
      few = omega (arith, s.few);
      passed = (subst (λ c. ¬ IsAnswer c) whole other, s.passed);
      enough = elim s.enough [ inl all ↦ inl (omega (arith, all)) | inr less ↦ inr less ];
    }

strip-IsStripped : (count : ℕ) (text : List ℕ) → IsStripped count text (strip count text)
unfolding strip
strip-IsStripped zero text = record {
  words = [];
  whole = refl;
  no_spaces = tt;
  few = omega arith;
  passed = tt;
  enough = inl refl;
}
strip-IsStripped (suc count) text = elim (is_answer_lem text) [
  | inl (answer, a) ↦ rw answer (record {
    words = [];
    whole = refl;
    no_spaces = tt;
    few = omega arith;
    passed = tt;
    enough = inr (inr a);
  })
  | inr (other, a) ↦
      let rest = step_over (behind_space text) text in
      rw other (IsStripped-suc count text (behind_space text) a refl (strip-IsStripped count rest))
]

-- A probe with the argument `count` reports the string that it read, up to the first NUL, without its
-- first words. It drops one word after the other, each up to a space, until `count` are dropped, no
-- space is left, or what is left is "No Answer" or "Inoperable" in letters of any case; an answer is
-- never cut.
pub strip_version-IsStripped :
    (count : ℕ) (bytes : List ℕ)
    → (r : List ℕ) × (strip_version count (some bytes) ≡ some r)
      × IsStripped count (string_at bytes) r
unfolding strip_version
strip_version-IsStripped count bytes = (_, refl, strip-IsStripped count (string_at bytes))
