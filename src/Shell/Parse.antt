-- ===== src/Shell/Parse.antt =====
-- `parse` of misc.c, which cuts a line into words in place, and the line that `do_force` of
-- cheops-sh-guts.c hands to it again.
use cheops_ng.Prelude.{
  ℕ, suc, Bool, true, false, ◌&&◌, ◌||◌, not, List, [], ◌∷◌, ◌++◌, map, length, ltb, Option, none,
  some, ◌==◌, if◌then◌else◌,
}
use cheops_ng.Prelude.Bytes.{skip, string_at}

-- Where the loop is: whether it skips blanks, whether it is inside of quotes, the place, and the places
-- of the words so far, the last one in front.
pub record Parsing : Type 0 where
  pub blank : Bool
  pub inquote : Bool
  pub place : ℕ
  pub argv : List ℕ

abbrev pub is_blank : ℕ → Bool
is_blank c = c == 32 || c == 9

-- argv[c - 1]++
abbrev pub bump : List ℕ → List ℕ
bump [] = []
bump (p ∷ argv) = suc p ∷ argv

-- A new word begins at what is not blank behind blanks.
abbrev pub begin_word : Parsing → List ℕ
begin_word s = if s.blank then s.place ∷ s.argv else s.argv

-- What the loop leaves in the place of a byte, and where it is behind it.
unfoldable pub parse_byte : ℕ → Parsing → ℕ × Parsing
parse_byte c s =
    let next = record s { place = suc s.place } in
    if s.blank && is_blank c
    then (c, next)
    else (if c == 34
        then (if s.inquote
            then (0, record next { blank = true; inquote = false; argv = begin_word s })
            else (c, record next { blank = false; inquote = true; argv = bump (begin_word s) }))
        else (if is_blank c && not s.inquote
            then (0, record next { blank = true; argv = begin_word s })
            else (c, record next { blank = false; argv = begin_word s })))

unfoldable pub parse_loop : List ℕ → Parsing → List ℕ × Parsing
unfolding parse_byte
parse_loop [] s = ([], s)
parse_loop (c ∷ l) s =
    let (b, next) = parse_byte c s in let (rest, end) = parse_loop l next in (b ∷ rest, end)

-- The line as it is left, and the places of the words in their order.
pub record Parsed : Type 0 where
  pub line : List ℕ
  pub argv : List ℕ

abbrev pub reverse_onto : List ℕ → List ℕ → List ℕ
reverse_onto [] k = k
reverse_onto (x ∷ l) k = reverse_onto l (x ∷ k)

-- `parse` for an array of `args` pointers: none where it writes behind the array, whose length it does
-- not look at, and then the return of -1 for a quote that is open as none.
unfoldable pub parse : ℕ → List ℕ → Option (Option Parsed)
unfolding parse_loop
parse args line =
    let (left, s) =
      parse_loop line (record { blank = false; inquote = false; place = 0; argv = 0 ∷ [] }) in
    if ltb args (length s.argv)
    then none
    else some
        (if s.inquote then none else some (record { line = left; argv = reverse_onto s.argv [] }))

-- The strings at the places.
unfoldable pub words_of : Parsed → List (List ℕ)
unfolding skip string_at
words_of p = map (λ place. string_at (skip place p.line)) p.argv

-- The line of `do_force`: each word with a space behind it.
unfoldable pub force_line : List (List ℕ) → List ℕ
force_line [] = []
force_line (word ∷ words) = word ++ (32 ∷ force_line words)
