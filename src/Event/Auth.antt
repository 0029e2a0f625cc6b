-- ===== src/Event/Auth.antt =====
-- `handle_auth_request` of event.c. The accounts of the system are parameters: getpwnam() with the
-- name of the account, getspnam() with its encrypted password, and crypt(), which may give no string.
use mathlib.Core.Path.{ap₂}
use cheops_ng.Prelude.{
  ℕ, ◌≡◌, ◌⊎◌, refl, Bool, true, false, Bool-cases, Option-cases, inl, inr, List, [], ◌∷◌, Option,
  none, some, none-some, ◌==◌, if◌then◌else◌, arith, ap, subst, sym, ◌∙◌, some_eq,
}

abbrev pub Text : Type 0
Text = List ℕ

pub record Accounts : Type 0 where
  pub getpwnam : Text → Option Text
  pub getspnam : Text → Option Text
  pub crypt : Text → Text → Option Text

-- Whether strcmp() gives 0.
unfoldable pub same_text : Text → Text → Bool
same_text [] [] = true
same_text [] (y ∷ ys) = false
same_text (x ∷ xs) [] = false
same_text (x ∷ xs) (y ∷ ys) = let rest = same_text xs ys in if x == y then rest else false

-- The entry of the shadow file is there: the reply, and whether the agent is logged in then; none where
-- strcmp() is given the null of a crypt() that failed.
unfoldable pub check_password : Accounts → Text → Text → Bool → Option (ℕ × Bool)
unfolding same_text
check_password acc pass hash logged_in = elim (acc.crypt pass hash) [
  | none ↦ none
  | some crypted ↦ some (if same_text hash crypted then (1, true) else (0, logged_in))
]

unfoldable pub handle_auth_request : Accounts → Text → Text → Bool → Option (ℕ × Bool)
unfolding check_password
handle_auth_request acc user pass logged_in = elim (acc.getpwnam user) [
  | none ↦ some (0, logged_in)
  | some name ↦ elim (acc.getspnam name) [
    | none ↦ some (0, logged_in)
    | some hash ↦ check_password acc pass hash logged_in
  ]
]

same_text_eq : (xs ys : Text) → same_text xs ys ≡ true → xs ≡ ys
unfolding same_text
same_text_eq [] [] h = refl
same_text_eq [] (y ∷ ys) h = absurd (cc)
same_text_eq (x ∷ xs) [] h = absurd (cc)
same_text_eq (x ∷ xs) (y ∷ ys) h = elim (Bool-cases (x == y)) [
  | inl e ↦ ap₂ (λ (a : ℕ) (b : Text). a ∷ b) (ground arith) (same_text_eq xs ys (ground arith))
  | inr e ↦ absurd (ground arith)
]

same_text_refl : (xs : Text) → same_text xs xs ≡ true
unfolding same_text
same_text_refl [] = refl
same_text_refl (x ∷ xs) = ground (arith, same_text_refl xs)

-- The user has an account with this entry in the shadow file.
abbrev pub IsAccount : Accounts → Text → Text → Type 0
IsAccount acc user hash =
    (name : Text) × (acc.getpwnam user ≡ some name) × (acc.getspnam name ≡ some hash)

-- The password is the one of the user's account.
abbrev pub IsPassword : Accounts → Text → Text → Type 0
IsPassword acc user pass =
    (hash : Text) × IsAccount acc user hash × (acc.crypt pass hash ≡ some hash)

-- The user has an account whose entry crypt() refuses.
abbrev pub IsUncrypted : Accounts → Text → Text → Type 0
IsUncrypted acc user pass = (hash : Text) × IsAccount acc user hash × (acc.crypt pass hash ≡ none)

one_hash :
    (acc : Accounts) (user hash hash' : Text)
    → IsAccount acc user hash
    → IsAccount acc user hash'
    → hash ≡ hash'
one_hash acc user hash hash' (name, known, entry) (name', k, e) =
    some_eq (sym entry ∙ ap acc.getspnam (some_eq (sym known ∙ k)) ∙ e)

-- What crypt() makes of the password and the entry is one thing.
module _ (acc : Accounts) (user pass hash : Text) (account : IsAccount acc user hash) where
  IsPassword-crypt : IsPassword acc user pass → acc.crypt pass hash ≡ some hash
  IsPassword-crypt (hash', a, c) =
      let same = one_hash acc user hash hash' account a in
      ap (acc.crypt pass) same ∙ c ∙ ap some (sym same)

  IsUncrypted-crypt : IsUncrypted acc user pass → acc.crypt pass hash ≡ none
  IsUncrypted-crypt (hash', a, c) = ap (acc.crypt pass) (one_hash acc user hash hash' account a) ∙ c

-- What `handle_auth_request` does, by the accounts.
abbrev pub Logs : Accounts → Text → Text → Bool → Option (ℕ × Bool) → Type 0
Logs acc user pass logged_in o =
    (IsPassword acc user pass × (o ≡ some (1, true)))
    ⊎ ((IsUncrypted acc user pass × (o ≡ none))
        ⊎ (((¬ IsPassword acc user pass) × (¬ IsUncrypted acc user pass))
            × (o ≡ some (0, logged_in))))

check_password-Logs :
    (acc : Accounts) (user pass hash : Text) (logged_in : Bool)
    → IsAccount acc user hash
    → Logs acc user pass logged_in (check_password acc pass hash logged_in)
unfolding check_password
check_password-Logs acc user pass hash logged_in account =
    elim (Option-cases (acc.crypt pass hash)) [
      | inl null ↦ inr (inl ((hash, account, null), rw (null, check_password)))
      | inr (crypted, made) ↦ elim (Bool-cases (same_text hash crypted)) [
        | inl same ↦ inl (
          (hash, account, made ∙ ap some (sym (same_text_eq hash crypted same))),
          rw (made, same, check_password),
        )
        | inr other ↦ inr (
            inr (
              (
                (λ p.
                    let itself : crypted ≡ hash =
                      some_eq (sym made ∙ IsPassword-crypt acc user pass hash account p) in
                    let found : same_text hash crypted ≡ true =
                      ap (same_text hash) itself ∙ same_text_refl hash in
                    absurd (cc)),
                (λ u.
                    absurd
                      (none-some (sym (IsUncrypted-crypt acc user pass hash account u) ∙ made))),
              ),
              rw (made, other, check_password),
            ))
      ]
    ]

-- `handle_auth_request` logs the agent in and replies 1 when the password is the one of the user's
-- account. Where the user has an account and crypt() gives no string for its entry, it hands a null to
-- strcmp(). Otherwise it replies 0 and leaves the login as it was.
pub login_iff_IsPassword :
    (acc : Accounts) (user pass : Text) (logged_in : Bool)
    → Logs acc user pass logged_in (handle_auth_request acc user pass logged_in)
unfolding handle_auth_request
login_iff_IsPassword acc user pass logged_in = elim (Option-cases (acc.getpwnam user)) [
  | inl no_user ↦ inr (
      inr (
        (
          (λ (hash, (name, k, e), c). absurd (none-some (sym no_user ∙ k))),
          (λ (hash, (name, k, e), c). absurd (none-some (sym no_user ∙ k))),
        ),
        rw (no_user, handle_auth_request),
      ))
  | inr (name, known) ↦ elim (Option-cases (acc.getspnam name)) [
    | inl no_entry ↦
        let no_hash = λ (hash : Text) (a : IsAccount acc user hash).
          none-some (sym no_entry ∙ ap acc.getspnam (some_eq (sym known ∙ a.1)) ∙ a.2) in
        inr (
          inr (
            ((λ (hash, a, c). absurd (no_hash hash a)), (λ (hash, a, c). absurd (no_hash hash a))),
            rw (known, no_entry, handle_auth_request),
          ))
    | inr (hash, entry) ↦
        let checked : handle_auth_request acc user pass logged_in
            ≡ check_password acc pass hash logged_in =
          rw (known, entry, handle_auth_request) in
        subst (Logs acc user pass logged_in) (sym checked)
          (check_password-Logs acc user pass hash logged_in (name, known, entry))
  ]
]
