-- ===== src/Services/Removal.antt =====
-- What `remove_service` takes out: the entry, and every entry in front of it.
use cheops_ng.Prelude.{
  ℕ, ◌≡◌, refl, Bool, true, false, Bool-cases, inl, inr, List, [], ◌∷◌, ◌++◌, none, some,
  if◌then◌else◌, arith,
}
use cheops_ng.Services.Defs.{Service, is_for, has_service, remove_from, remove_service}
use cheops_ng.Services.Lookup.{IsUnique}

remove_from-absent :
    (keeps : Bool) (port protocol : ℕ) (ps services : List Service)
    → has_service port protocol ps ≡ false
    → remove_from keeps port protocol ps services ≡ some services
unfolding remove_from has_service
remove_from-absent keeps port protocol [] services h = refl
remove_from-absent keeps port protocol (p ∷ ps) services h =
    elim (Bool-cases (is_for port protocol p)) [
      | inl found ↦ absurd (ground (arith, h, found))
      | inr other ↦
          rw other (remove_from-absent keeps port protocol ps services (ground (arith, h, other)))
    ]

-- An entry that is not the one of a list that holds it.
has-middle :
    (port protocol : ℕ) (before : List Service) (p : Service) (after : List Service)
    → has_service port protocol (before ++ (p ∷ after)) ≡ false
    → is_for p.port p.protocol (record { port = port; protocol = protocol; name = 0 }) ≡ false
unfolding has_service
has-middle port protocol [] p after h = ground arith
has-middle port protocol (x ∷ before) p after h =
    has-middle port protocol before p after (ground arith)

remove_from-found :
    (keeps : Bool) (before : List Service) (p : Service) (after services : List Service)
    → IsUnique (before ++ (p ∷ after))
    → remove_from keeps p.port p.protocol (before ++ (p ∷ after)) services
      ≡ (if keeps then some after else none)
unfolding remove_from
remove_from-found keeps [] p after services u =
    let itself : is_for p.port p.protocol p ≡ true = ground arith in
    rw (itself, remove_from-absent keeps p.port p.protocol after after u.0)
remove_from-found keeps (x ∷ before) p after services u =
    let other : is_for p.port p.protocol x ≡ false =
      has-middle x.port x.protocol before p after u.0 in
    rw (other, remove_from-found keeps before p after services u.1)

-- `remove_service` of a service that is in the list: where free() leaves the freed entry as it was,
-- the entry goes, and with it every entry in front of it; otherwise the loop faults, reading the
-- link of the entry that it freed.
pub remove-forgets :
    (keeps : Bool) (before : List Service) (p : Service) (after : List Service)
    → IsUnique (before ++ (p ∷ after))
    → remove_service keeps p.port p.protocol (before ++ (p ∷ after))
      ≡ (if keeps then some after else none)
unfolding remove_service
remove-forgets keeps before p after u =
    remove_from-found keeps before p after (before ++ (p ∷ after)) u
