-- ===== src/Shell/Words.antt =====
-- `parse` gives the words back of a line that `do_force` makes of them.
use cheops_ng.Prelude.{
  ℕ, suc, ◌+◌, ◌≡◌, ◌≢◌, ◌≤◌, ◌<◌, ◌⊎◌, inl, inr, Bool-cases, ltb, refl, ◌∙◌, ap, sym, true, false,
  List, [], ◌∷◌, ◌++◌, map, length, length-append, Option, none, some, ◌==◌, if◌then◌else◌, All,
  All-map, arith,
}
use cheops_ng.Prelude.Bytes.{skip, string_at, skip-length, string_at-put_string, put_string}
use mathlib.Core.List.{append_assoc, append-nil}
use cheops_ng.Shell.Parse.{
  Parsing, is_blank, parse_byte, parse_loop, Parsed, reverse_onto, parse, words_of, force_line,
}

-- A byte of a word: no blank, no quote and no NUL.
abbrev pub IsPlain : ℕ → Type 0
IsPlain c = (is_blank c ≡ false) × ((c == 34) ≡ false) × (c ≢ 0)

pub record IsWord (w : List ℕ) : Type 0 where
  pub plain : All IsPlain w
  pub some_byte : w ≢ []

-- The line and the places that are left of words.
cut : List (List ℕ) → List ℕ
cut [] = []
cut (w ∷ ws) = w ++ (0 ∷ cut ws)

places : ℕ → List (List ℕ) → List ℕ
places p [] = []
places p (w ∷ ws) = p ∷ places (p + length w + 1) ws

-- Inside of a word.
abbrev inside : ℕ → List ℕ → Parsing
inside p argv = record { blank = false; inquote = false; place = p; argv = argv }

abbrev between : ℕ → List ℕ → Parsing
between p argv = record { blank = true; inquote = false; place = p; argv = argv }

abbrev prepend : List ℕ → List ℕ × Parsing → List ℕ × Parsing
prepend w (l, s) = (w ++ l, s)

plain_byte :
    (c p : ℕ) (argv : List ℕ) → IsPlain c → parse_byte c (inside p argv) ≡ (c, inside (suc p) argv)
unfolding parse_byte
plain_byte c p argv h = rw (h.0, h.1) refl

first_byte_of :
    (c p : ℕ) (argv : List ℕ)
    → IsPlain c
    → parse_byte c (between p argv) ≡ (c, inside (suc p) (p ∷ argv))
unfolding parse_byte
first_byte_of c p argv h = rw (h.0, h.1) refl

-- The loop after a byte.
abbrev go_on : List ℕ → ℕ × Parsing → List ℕ × Parsing
go_on l (b, s) = prepend (b ∷ []) (parse_loop l s)

parse_loop-cons :
    (c : ℕ) (l : List ℕ) (s : Parsing) → parse_loop (c ∷ l) s ≡ go_on l (parse_byte c s)
unfolding parse_loop
parse_loop-cons c l s = refl

at_place :
    (p q : ℕ) (argv l : List ℕ)
    → p ≡ q
    → parse_loop l (inside p argv) ≡ parse_loop l (inside q argv)
at_place p q argv l e = ap (λ (x : ℕ). parse_loop l (inside x argv)) e

parse_loop-word :
    (w l : List ℕ) (p : ℕ) (argv : List ℕ)
    → All IsPlain w
    → parse_loop (w ++ l) (inside p argv) ≡ prepend w (parse_loop l (inside (p + length w) argv))
parse_loop-word [] l p argv h = at_place p (p + 0) argv l (omega arith)
parse_loop-word (c ∷ w) l p argv h =
    parse_loop-cons c (w ++ l) (inside p argv)
    ∙ ap (go_on (w ++ l)) (plain_byte c p argv h.0)
    ∙ ap (prepend (c ∷ [])) (
        parse_loop-word w l (suc p) argv h.1
        ∙ ap (prepend w) (at_place (suc p + length w) (p + suc (length w)) argv l (omega arith)))

-- The space behind a word.
parse_loop-space :
    (l : List ℕ) (p : ℕ) (argv : List ℕ)
    → parse_loop (32 ∷ l) (inside p argv) ≡ prepend (0 ∷ []) (parse_loop l (between (suc p) argv))
unfolding parse_loop parse_byte
parse_loop-space l p argv = refl

-- The place behind the words.
finish : ℕ → List (List ℕ) → ℕ
finish p [] = p
finish p (w ∷ ws) = finish (p + length w + 1) ws

parse_loop-words :
    (ws : List (List ℕ)) (p q : ℕ) (argv : List ℕ)
    → p ≡ q
    → All IsWord ws
    → parse_loop (force_line ws) (between p argv)
      ≡ (cut ws, between (finish q ws) (reverse_onto (places q ws) argv))
unfolding parse_loop force_line cut places finish
parse_loop-words [] p q argv e h = ap (λ (x : ℕ). ([], between x argv)) e
parse_loop-words ([] ∷ ws) p q argv e h = absurd (h.0.some_byte refl)
parse_loop-words ((c ∷ w) ∷ ws) p q argv e h =
    ap (go_on (w ++ (32 ∷ force_line ws))) (first_byte_of c p argv h.0.plain.0)
    ∙ ap (prepend (c ∷ [])) (
        parse_loop-word w (32 ∷ force_line ws) (suc p) (p ∷ argv) h.0.plain.1
        ∙ ap (prepend w) (
            parse_loop-space (force_line ws) (suc p + length w) (p ∷ argv)
            ∙ ap (prepend (0 ∷ [])) (
                parse_loop-words ws (suc (suc p + length w)) (q + suc (length w) + 1) (p ∷ argv)
                  (omega (arith, e)) h.1
                ∙ ap
                    (λ (x : ℕ). (
                      cut ws,
                      between (finish (q + suc (length w) + 1) ws)
                          (reverse_onto (places (q + suc (length w) + 1) ws) (x ∷ argv)),
                    ))
                    e)))

reverse_onto-reverse_onto :
    (k m n : List ℕ) → reverse_onto (reverse_onto k m) n ≡ reverse_onto m (k ++ n)
reverse_onto-reverse_onto [] m n = refl
reverse_onto-reverse_onto (x ∷ k) m n = reverse_onto-reverse_onto k (x ∷ m) n

string_of : (w l : List ℕ) → All (λ c. c ≢ 0) w → string_at ((w ++ (0 ∷ [])) ++ l) ≡ w
unfolding put_string
string_of w l h = string_at-put_string w l h

-- The strings at the places of words, behind other bytes.
words_at :
    (ws : List (List ℕ)) (before : List ℕ) (p : ℕ)
    → p ≡ length before
    → All IsWord ws
    → map (λ place. string_at (skip place (before ++ cut ws))) (places p ws) ≡ ws
unfolding cut places
words_at [] before p e h = refl
words_at (w ∷ ws) before p e h =
    let not_nul = All-map _ _ w (λ c k. k.2) h.0.plain in
    let grown : length (before ++ (w ++ (0 ∷ []))) ≡ length before + (length w + 1) =
      length-append before (w ++ (0 ∷ []))
      ∙ ap (λ (x : ℕ). length before + x) (length-append w (0 ∷ [])) in
    let regroup : before ++ (w ++ (0 ∷ cut ws)) ≡ (before ++ (w ++ (0 ∷ []))) ++ cut ws =
      ap (λ (l : List ℕ). before ++ l) (sym (append_assoc w (0 ∷ []) (cut ws)))
      ∙ sym (append_assoc before (w ++ (0 ∷ [])) (cut ws)) in
    let here : string_at (skip p (before ++ (w ++ (0 ∷ cut ws)))) ≡ w =
      ap (λ (x : ℕ). string_at (skip x (before ++ (w ++ (0 ∷ cut ws))))) e
      ∙ ap string_at (skip-length before (w ++ (0 ∷ cut ws)))
      ∙ ap string_at (sym (append_assoc w (0 ∷ []) (cut ws)))
      ∙ string_of w (cut ws) not_nul in
    let later =
      ap
        (λ (line : List ℕ).
          map (λ place. string_at (skip place line)) (places (p + length w + 1) ws))
        regroup
      ∙ words_at ws (before ++ (w ++ (0 ∷ []))) (p + length w + 1) (omega (arith, e, grown)) h.1 in
    λ i. here i ∷ later i

length-reverse_onto : (l k : List ℕ) → length (reverse_onto l k) ≡ length l + length k
length-reverse_onto [] k = omega arith
length-reverse_onto (x ∷ l) k = omega (arith, length-reverse_onto l (x ∷ k))

length-places : (ws : List (List ℕ)) (p : ℕ) → length (places p ws) ≡ length ws
unfolding places
length-places [] p = refl
length-places (w ∷ ws) p = omega (arith, length-places ws (p + length w + 1))

-- What `parse` makes of the end of its loop.
abbrev parsed : ℕ → List ℕ × Parsing → Option (Option Parsed)
parsed args (left, s) =
    if ltb args (length s.argv)
    then none
    else some
        (if s.inquote then none else some (record { line = left; argv = reverse_onto s.argv [] }))

parse_loop-first :
    (w : List ℕ) (ws : List (List ℕ))
    → All IsWord (w ∷ ws)
    → parse_loop (force_line (w ∷ ws)) (inside 0 (0 ∷ [])) ≡ (
      cut (w ∷ ws),
      between (finish (length w + 1) ws) (reverse_onto (places (length w + 1) ws) (0 ∷ [])),
    )
unfolding force_line cut
parse_loop-first w ws h =
    parse_loop-word w (32 ∷ force_line ws) 0 (0 ∷ []) h.0.plain
    ∙ ap (prepend w) (
        parse_loop-space (force_line ws) (0 + length w) (0 ∷ [])
        ∙ ap (prepend (0 ∷ []))
            (parse_loop-words ws (suc (0 + length w)) (length w + 1) (0 ∷ []) (omega arith) h.1))

-- The words fit the array, and `parse` gives them back; or one is written behind the array.
abbrev pub IsParsed : ℕ → List (List ℕ) → Option (Option Parsed) → Type 0
IsParsed args words o =
    ((length words ≤ args) × ((p : Parsed) × (o ≡ some (some p)) × (words_of p ≡ words)))
    ⊎ ((args < length words) × (o ≡ none))

-- Of a line that `do_force` makes of words without blanks, quotes and NULs, with a space behind each,
-- and an array of any length: where the words fit the array, `parse` finds no quote that is open, and
-- the strings that it points to are these words in their order; where they do not, it writes behind
-- the array.
pub parse-force_line :
    (args : ℕ) (w : List ℕ) (ws : List (List ℕ))
    → All IsWord (w ∷ ws)
    → IsParsed args (w ∷ ws) (parse args (force_line (w ∷ ws)))
unfolding parse words_of cut places
parse-force_line args w ws h =
    let behind = places (length w + 1) ws in
    let argv = reverse_onto behind (0 ∷ []) in
    let ran : parse args (force_line (w ∷ ws))
        ≡ parsed args (cut (w ∷ ws), between (finish (length w + 1) ws) argv) =
      ap (parsed args) (parse_loop-first w ws h) in
    let counted : length argv ≡ suc (length ws) =
      length-reverse_onto behind (0 ∷ [])
      ∙ ap (λ (x : ℕ). x + 1) (length-places ws (length w + 1))
      ∙ omega arith in
    let order : reverse_onto argv [] ≡ places 0 (w ∷ ws) =
      reverse_onto-reverse_onto behind (0 ∷ []) []
      ∙ ap (λ (l : List ℕ). 0 ∷ l) (append-nil behind)
      ∙ ap (λ (x : ℕ). 0 ∷ places x ws) (omega arith) in
    elim (Bool-cases (ltb args (length argv))) [
      | inl over ↦ inr (ground (arith, over, counted), ran ∙ rw over refl)
      | inr within ↦ inl (
        ground (arith, within, counted),
        (
          record { line = cut (w ∷ ws); argv = reverse_onto argv [] },
          ran ∙ rw within refl,
          ap (map (λ place. string_at (skip place (cut (w ∷ ws))))) order
              ∙ words_at (w ∷ ws) [] 0 refl h,
        ),
      )
    ]
