-- ===== src/Services/Lookup.antt =====
-- The services as a map from ports and protocols to names.
use cheops_ng.Prelude.{
  ℕ, ◌≡◌, refl, false, Bool-cases, inl, inr, List, [], ◌∷◌, none, some, ◌==◌, ◌&&◌, if◌then◌else◌,
  arith,
}
use cheops_ng.Services.Defs.{Service, has_service, add_service, get_service}

-- Only one entry for a port and protocol.
abbrev pub IsUnique : List Service → Type 0
IsUnique [] = Unit
IsUnique (p ∷ rest) = (has_service p.port p.protocol rest ≡ false) × IsUnique rest

-- `add_service` keeps one entry at most for each port and protocol.
pub add_service-IsUnique :
    (port protocol name : ℕ) (l : List Service)
    → IsUnique l
    → IsUnique (add_service port protocol name l)
unfolding add_service
add_service-IsUnique port protocol name l u = elim (Bool-cases (has_service port protocol l)) [
  | inl there ↦ rw there u
  | inr new ↦ rw new (new, u)
]

pub get-has :
    (port protocol : ℕ) (l : List Service)
    → has_service port protocol l ≡ false
    → get_service port protocol l ≡ none
unfolding has_service get_service
get-has port protocol [] h = refl
get-has port protocol (p ∷ l) h = ground (arith, get-has port protocol l)

-- `add_service` of a port and protocol that has no name yet is an update of the lookup: it gives them
-- the name, and every other port and protocol keeps what it had.
pub get-add :
    (port protocol name q r : ℕ) (l : List Service)
    → has_service port protocol l ≡ false
    → get_service q r (add_service port protocol name l)
      ≡ (if q == port && r == protocol then some name else get_service q r l)
unfolding add_service get_service
get-add port protocol name q r l new = rw new (ground arith)

-- The first name stays: `add_service` of a port and protocol that has a name changes nothing.
pub add-again :
    (port protocol name name' : ℕ) (l : List Service)
    → add_service port protocol name' (add_service port protocol name l)
      ≡ add_service port protocol name l
unfolding add_service has_service
add-again port protocol name name' l = ground arith
