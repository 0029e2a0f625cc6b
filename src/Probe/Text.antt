-- ===== src/Probe/Text.antt =====
-- `after_text` of probe.c: the rest of the first line behind a text. A string is the bytes in front of
-- its NUL; what follows in the buffer plays no part.
use cheops_ng.Prelude.{
  sym, ◌⊎◌, ℕ, ◌≡◌, ◌≤◌, ◌≢◌, refl, Bool, true, false, Bool-cases, inl, inr, List, [], ◌∷◌, ◌++◌,
  length, All, Option, none, some, some_eq, ◌==◌, ==_iff, if◌then◌else◌, arith, ap, subst, ◌∙◌,
}
use cheops_ng.Prelude.Bytes.{skip, string_at}

-- Whether `strncmp` of the text and the start of a string would find them equal.
unfoldable pub starts : List ℕ → List ℕ → Bool
starts [] l = true
starts (x ∷ a) [] = false
starts (x ∷ a) (y ∷ l) = let rest = starts a l in if x == y then rest else false

unfoldable pub strstr : List ℕ → List ℕ → Option (List ℕ)
unfolding starts
strstr [] after = if starts after [] then some [] else none
strstr (y ∷ l) after =
    let rest = strstr l after in if starts after (y ∷ l) then some (y ∷ l) else rest

-- The first newline is overwritten by a NUL.
unfoldable pub cut_line : List ℕ → List ℕ
cut_line [] = []
cut_line (x ∷ l) = let rest = cut_line l in if x == 10 then 0 ∷ l else x ∷ rest

-- `after_text` of what `get_text` returns; `none` is NULL.
unfoldable pub after_text : List ℕ → Option (List ℕ) → Option (List ℕ)
unfolding strstr cut_line skip string_at
after_text after none = none
after_text after (some text) = elim (strstr text after) [
  | none ↦ none
  | some c ↦ some (string_at (skip (length after) (cut_line c)))
]

-- The bytes in front of the first newline.
abbrev pub first_line : List ℕ → List ℕ
first_line [] = []
first_line (x ∷ l) = if x == 10 then [] else x ∷ first_line l

-- The text stands nowhere in the string.
abbrev pub IsAbsent : List ℕ → List ℕ → Type 0
IsAbsent after text = (pre rest : List ℕ) → text ≢ pre ++ (after ++ rest)

-- It stands there, and what is returned is the rest of the line behind the first place.
pub record IsAfter (after text r : List ℕ) : Type 0 where
  pub pre : List ℕ
  pub rest : List ℕ
  pub whole : text ≡ pre ++ (after ++ rest)
  pub line : r ≡ first_line rest
  pub first : (pre' rest' : List ℕ) → text ≡ pre' ++ (after ++ rest') → length pre ≤ length pre'

starts-found : (after l : List ℕ) → starts after l ≡ true → (rest : List ℕ) × (l ≡ after ++ rest)
unfolding starts
starts-found [] l e = (l, refl)
starts-found (x ∷ a) [] e = absurd (cc)
starts-found (x ∷ a) (y ∷ l) e = elim (Bool-cases (x == y)) [
  | inr other ↦ absurd (ground (arith, other, e))
  | inl same ↦
      let (rest, f) = starts-found a l (rw same at e) in
      (rest, ground (arith, (==_iff x y).0 same, f))
]

starts-append : (after rest : List ℕ) → starts after (after ++ rest) ≡ true
unfolding starts
starts-append [] rest = refl
starts-append (x ∷ a) rest = ground (arith, starts-append a rest)

-- A text that does not stand at the start of a string stands one byte further than in its tail.
further :
    (y : ℕ) (l after : List ℕ)
    → starts after (y ∷ l) ≡ false
    → (pre : List ℕ)
    → ((pre' rest' : List ℕ) → l ≡ pre' ++ (after ++ rest') → length pre ≤ length pre')
    → (pre' rest' : List ℕ) → y ∷ l ≡ pre' ++ (after ++ rest')
    → length (y ∷ pre) ≤ length pre'
further y l after other pre first [] rest' w = absurd (
    true-false
      (sym (subst (λ z. starts after z ≡ true) (sym w) (starts-append after rest')) ∙ other))
  where
    true-false : true ≡ false → ⊥
    true-false e = cc
further y l after other pre first (z ∷ pre') rest' w = omega (arith, first pre' rest' (tail_eq w))
  where
    tail_eq : {a b : ℕ} {xs ys : List ℕ} → a ∷ xs ≡ b ∷ ys → xs ≡ ys
    tail_eq e = cc

-- It is found, and nowhere in front of that.
strstr-found :
    (text after c : List ℕ)
    → strstr text after ≡ some c
    → (pre : List ℕ) × (text ≡ pre ++ c)
      × (starts after c ≡ true)
      × ((pre' rest' : List ℕ) → text ≡ pre' ++ (after ++ rest') → length pre ≤ length pre')
unfolding strstr
strstr-found [] after c e = elim (Bool-cases (starts after [])) [
  | inr other ↦ absurd (ground (arith, other, e))
  | inl found ↦
      let it : some [] ≡ some c = rw found at e in
      (
        [],
        some_eq it,
        subst (λ l. starts after l ≡ true) (some_eq it) found,
        λ pre' rest' w. omega arith,
      )
]
strstr-found (y ∷ l) after c e = elim (Bool-cases (starts after (y ∷ l))) [
  | inl found ↦
      let it : some (y ∷ l) ≡ some c = rw found at e in
      (
        [],
        some_eq it,
        subst (λ z. starts after z ≡ true) (some_eq it) found,
        λ pre' rest' w. omega arith,
      )
  | inr other ↦
      let (pre, f, g, first) = strstr-found l after c (rw other at e) in
      (y ∷ pre, ap (λ z. y ∷ z) f, g, further y l after other pre first)
]

strstr-starts : (l after : List ℕ) → starts after l ≡ true → strstr l after ≡ some l
unfolding strstr
strstr-starts [] after e = rw e refl
strstr-starts (y ∷ l) after e = rw e refl

strstr-present : (pre after rest : List ℕ) → strstr (pre ++ (after ++ rest)) after ≢ none
unfolding strstr
strstr-present [] after rest e =
    absurd (ground (arith, strstr-starts (after ++ rest) after (starts-append after rest), e))
strstr-present (y ∷ pre) after rest e =
    elim (Bool-cases (starts after (y ∷ (pre ++ (after ++ rest))))) [
      | inl found ↦ absurd (ground (arith, found, e))
      | inr other ↦ strstr-present pre after rest (rw other at e)
    ]

string_at-cut_line : (l : List ℕ) → All (λ x. x ≢ 0) l → string_at (cut_line l) ≡ first_line l
unfolding string_at cut_line
string_at-cut_line [] h = refl
string_at-cut_line (x ∷ l) h = ground (arith, h.0, string_at-cut_line l h.1)

rest_of_line :
    (after rest : List ℕ)
    → All (λ x. x ≢ 10) after
    → All (λ x. x ≢ 0) rest
    → string_at (skip (length after) (cut_line (after ++ rest))) ≡ first_line rest
unfolding skip cut_line
rest_of_line [] rest n h = string_at-cut_line rest h
rest_of_line (x ∷ a) rest n h = ground (arith, n.0, rest_of_line a rest n.1 h)

All-behind : (P : ℕ → Type 0) (xs ys : List ℕ) → All P (xs ++ ys) → All P ys
All-behind P [] ys h = h
All-behind P (x ∷ xs) ys h = All-behind P xs ys h.1

-- Of a string that was read, and for a text without a newline: NULL is returned exactly when the text
-- stands nowhere in the string, and otherwise the rest of the line behind the first place where it stands.
pub after_text-IsAfter :
    (after text : List ℕ)
    → All (λ x. x ≢ 10) after
    → All (λ x. x ≢ 0) text
    → ((after_text after (some text) ≡ none) × IsAbsent after text)
      ⊎ ((r : List ℕ) × (after_text after (some text) ≡ some r) × IsAfter after text r)
unfolding after_text
after_text-IsAfter after text n h = on (strstr text after) refl
  where
    answer : Option (List ℕ) → Option (List ℕ)
    answer none = none
    answer (some c) = some (string_at (skip (length after) (cut_line c)))

    on :
        (o : Option (List ℕ))
        → strstr text after ≡ o
        → ((after_text after (some text) ≡ none) × IsAbsent after text)
          ⊎ ((r : List ℕ) × (after_text after (some text) ≡ some r) × IsAfter after text r)
    on none e = inl (
      ap answer e,
      λ pre rest w. strstr-present pre after rest (subst (λ l. strstr l after ≡ none) w e),
    )
    on (some c) e =
        let (pre, w, found, first) = strstr-found text after c e in
        let (rest, f) = starts-found after c found in
        let whole : text ≡ pre ++ (after ++ rest) = w ∙ ap (λ l. pre ++ l) f in
        let text_rest =
          All-behind _ after rest
            (All-behind _ pre (after ++ rest) (subst (All (λ x. x ≢ 0)) whole h)) in
        inr (
          first_line rest,
          ap answer e
              ∙ ap some (
                  ap (λ l. string_at (skip (length after) (cut_line l))) f
                  ∙ rest_of_line after rest n text_rest),
          record { pre = pre; rest = rest; whole = whole; line = refl; first = first },
        )
