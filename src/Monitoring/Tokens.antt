-- ===== src/Monitoring/Tokens.antt =====
-- The paths of nodes as strings, and what strtok_r() and atoi() make of them.
use cheops_ng.Prelude.{
  ℕ, suc, ◌+◌, ◌/◌, ◌%◌, ◌^◌, ◌≡◌, ◌⊎◌, refl, ◌∙◌, ap, sym, inl, inr, Bool-cases, List, [], ◌∷◌,
  ◌++◌, false, ◌==◌, ltb, All, All-map, arith,
}
use cheops_ng.Prelude.Decimal.{digits, print_int, print_int-IsSign, IsSign}
use mathlib.Core.List.{append_assoc, append-nil}
use cheops_ng.Monitoring.Nodes.{child_path}
use cheops_ng.Monitoring.Session.{emit, tokens}

emit-append : (it : List ℕ) (k l : List (List ℕ)) → emit it (k ++ l) ≡ emit it k ++ l
emit-append [] k l = refl
emit-append (c ∷ it) k l = refl

tokens-dot : (it s w : List ℕ) → tokens it (s ++ (46 ∷ w)) ≡ tokens it s ++ tokens [] w
unfolding tokens
tokens-dot it [] w = emit-append it [] (tokens [] w)
tokens-dot it (c ∷ s) w = elim (Bool-cases (c == 46)) [
  | inl dot ↦ rw dot (ap (emit it) (tokens-dot [] s w) ∙ emit-append it (tokens [] s) (tokens [] w))
  | inr in_token ↦ rw in_token (tokens-dot (it ++ (c ∷ [])) s w)
]

tokens-word : (it w : List ℕ) → All (λ c. (c == 46) ≡ false) w → tokens it w ≡ emit (it ++ w) []
unfolding tokens
tokens-word it [] h = ap (λ s. emit s []) (sym (append-nil it))
tokens-word it (c ∷ w) h =
    rw h.0 (tokens-word (it ++ (c ∷ [])) w h.1 ∙ ap (λ s. emit s []) (append_assoc it (c ∷ []) w))

emit-snoc : (it : List ℕ) (c : ℕ) → emit (it ++ (c ∷ [])) [] ≡ (it ++ (c ∷ [])) ∷ []
emit-snoc [] c = refl
emit-snoc (x ∷ it) c = refl

emit-digits : (k n : ℕ) → emit (digits (suc k) n) [] ≡ digits (suc k) n ∷ []
unfolding digits
emit-digits k n = elim (Bool-cases (ltb n 10)) [
  | inl small ↦ rw small refl
  | inr large ↦ rw large (emit-snoc (digits k (n / 10)) (48 + n % 10))
]

emit-print_int : (n : ℕ) → emit (print_int n) [] ≡ print_int n ∷ []
unfolding print_int
emit-print_int n = elim (Bool-cases (ltb n (2 ^ 31))) [
  | inl small ↦ rw small (emit-digits 9 n)
  | inr large ↦ rw large refl
]

sign_not_dot : (c : ℕ) → IsSign c → (c == 46) ≡ false
sign_not_dot c (inl d) = ground (arith, d)
sign_not_dot c (inr e) = ground (arith, e)

pub tokens-print_int : (n : ℕ) → tokens [] (print_int n) ≡ print_int n ∷ []
tokens-print_int n =
    tokens-word [] (print_int n) (All-map _ _ (print_int n) sign_not_dot (print_int-IsSign n))
    ∙ emit-print_int n

pub tokens-child_path :
    (path : List ℕ) (n : ℕ) → tokens [] (child_path path n) ≡ tokens [] path ++ (print_int n ∷ [])
tokens-child_path path n =
    tokens-dot [] path (print_int n) ∙ ap (λ k. tokens [] path ++ k) (tokens-print_int n)

-- What stands behind a path: nothing, or a dot and anything.
abbrev pub IsTail : List ℕ → Type 0
IsTail more = (more ≡ []) ⊎ ((w : List ℕ) × (more ≡ 46 ∷ w))

pub tokens-tail :
    (s more : List ℕ)
    → IsTail more
    → (rest : List (List ℕ)) × (tokens [] (s ++ more) ≡ tokens [] s ++ rest)
tokens-tail s more (inl e) = (
  [],
  ap (λ m. tokens [] (s ++ m)) e ∙ ap (tokens []) (append-nil s) ∙ sym (append-nil (tokens [] s)),
)
tokens-tail s more (inr (w, e)) = (tokens [] w, ap (λ m. tokens [] (s ++ m)) e ∙ tokens-dot [] s w)
