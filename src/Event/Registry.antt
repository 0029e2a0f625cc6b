-- ===== src/Event/Registry.antt =====
-- `event_register_handler` of event.c, and the handler of logins that it installs.
use cheops_ng.Prelude.{
  ℕ, ◌≡◌, ◌≢◌, refl, Bool, true, false, Bool-cases, ◌⊎◌, inl, inr, ℕ_discrete, List, [], ◌∷◌,
  Option, none, some, ltb, ◌==◌, ◌||◌, not, if◌then◌else◌, arith, All, ap, ◌∙◌,
}
use cheops_ng.Prelude.Int.{ℤ, pos, negsuc, ◌≤ℤ◌}
use cheops_ng.Event.Defs.{max_event, event_auth_request}

-- `handlers`, with NULL as `none`, and the static `initalized`.
pub record Registry : Type 0 where
  pub table : ℕ → Option ℕ
  pub initialized : Bool

abbrev pub unregistered : Registry
unregistered = record { table = λ t. none; initialized = false }

abbrev pub is_set : Option ℕ → Bool
is_set none = false
is_set (some f) = true

-- The part behind the initialisation. A negative type, which the test lets pass, writes in front of
-- the array: `none`.
unfoldable pub store : ℤ → ℕ → Bool → Registry → Option (ℤ × Registry)
store (negsuc t) f replace s = none
store (pos t) f replace s =
    let written = record s { table = λ u. if t == u then some f else s.table u } in
    if ltb t max_event
    then some (pos 0, if replace || not (is_set (s.table t)) then written else s)
    else some (negsuc 0, s)

-- The call of itself that the first call makes, with `handle_auth_request` as `auth`.
unfoldable pub initialize : ℕ → Registry → Registry
initialize auth s = if s.initialized then s else record {
  table = λ u. if event_auth_request == u then some auth else s.table u;
  initialized = true;
}

unfoldable pub register_handler : ℕ → ℤ → ℕ → Bool → Registry → Option (ℤ × Registry)
unfolding store initialize
register_handler auth t f replace s = store t f replace (initialize auth s)

-- A row of registrations: type, handler, and whether to replace; `none` is a fault.
pub record Registration : Type 0 where
  pub type : ℤ
  pub handler : ℕ
  pub replace : Bool

unfoldable pub register_all : ℕ → List Registration → Registry → Option Registry
unfolding register_handler
register_all auth [] s = some s
register_all auth (r ∷ rs) s = elim (register_handler auth r.type r.handler r.replace s) [
  | none ↦ none
  | some (res, s') ↦ register_all auth rs s'
]

-- The login handler is there.
abbrev pub HasLogin : ℕ → Registry → Type 0
HasLogin auth s = (s.initialized ≡ true) × (s.table event_auth_request ≡ some auth)

-- A registration whose type is not negative, and that replaces no login handler.
abbrev pub IsOrdinary : Registration → Type 0
IsOrdinary r = (pos 0 ≤ℤ r.type) × ((r.type ≢ pos event_auth_request) ⊎ (r.replace ≡ false))

initialize-HasLogin :
    (auth : ℕ) (s : Registry)
    → (s.initialized ≡ false) ⊎ HasLogin auth s
    → HasLogin auth (initialize auth s)
unfolding initialize
initialize-HasLogin auth s (inl e) = rw e (refl, refl)
initialize-HasLogin auth s (inr h) = rw h.0 (refl, h.1)

store-HasLogin :
    (auth f : ℕ) (t : ℤ) (replace : Bool) (s : Registry)
    → HasLogin auth s
    → IsOrdinary (record { type = t; handler = f; replace = replace })
    → (r : ℤ × Registry) × (store t f replace s ≡ some r) × HasLogin auth r.1
unfolding store
store-HasLogin auth f (negsuc t) replace s h o = absurd (omega (arith, o.0))
store-HasLogin auth f (pos t) replace s h o = elim (Bool-cases (ltb t max_event)) [
  | inr large ↦ rw large (_, refl, h)
  | inl small ↦ rw small (elim (Bool-cases (replace || not (is_set (s.table t)))) [
    | inr kept ↦ rw kept (_, refl, h)
    | inl written ↦ rw written (_, refl, (h.0, not_login (ℕ_discrete t event_auth_request) written))
  ])
]
  where
    not_login :
        Dec (t ≡ event_auth_request)
        → replace || not (is_set (s.table t)) ≡ true
        → (if t == event_auth_request then some f else s.table event_auth_request) ≡ some auth
    not_login (yes same) written =
        absurd (ground (arith, same, written, o.1, ap s.table same ∙ h.1))
    not_login (no other) written = ground (arith, other, h.1)

registrations :
    (auth : ℕ) (rs : List Registration) (s : Registry)
    → All IsOrdinary rs
    → HasLogin auth s
    → (s' : Registry) × (register_all auth rs s ≡ some s') × HasLogin auth s'
unfolding register_all register_handler
registrations auth [] s o h = (s, refl, h)
registrations auth (r ∷ rs) s o h =
    let (t, e, k) =
      store-HasLogin auth r.handler r.type r.replace (initialize auth s)
        (initialize-HasLogin auth s (inr h)) o.0 in
    let (s', e', k') = registrations auth rs t.1 o.1 k in (s', rw (e, register_all) e', k')

-- From the start, after any registrations of which none has a negative type and none replaces the
-- login handler, `handlers` was not left and holds `handle_auth_request` for logins.
pub registered-HasLogin :
    (auth : ℕ) (r : Registration) (rs : List Registration)
    → All IsOrdinary (r ∷ rs)
    → (s' : Registry) × (register_all auth (r ∷ rs) unregistered ≡ some s') × HasLogin auth s'
unfolding register_all register_handler
registered-HasLogin auth r rs o =
    let (t, e, k) =
      store-HasLogin auth r.handler r.type r.replace (initialize auth unregistered)
        (initialize-HasLogin auth unregistered (inl refl)) o.0 in
    let (s', e', k') = registrations auth rs t.1 o.1 k in (s', rw (e, register_all) e', k')
