-- ===== src/Services/Tests.antt =====
-- The services on concrete inputs, and the theorems at them.
use cheops_ng.Prelude.{ℕ, ◌+◌, ◌≡◌, refl, true, List, [], ◌∷◌, some}
use cheops_ng.Services.Defs.{Service, has_service, remove_service}
use cheops_ng.Services.Lookup.{IsUnique}
use cheops_ng.Services.Removal.{remove-forgets}

abbrev service : ℕ → Service
service port = record { port = port; protocol = 6; name = port + 1000 }

abbrev three : List Service
three = service 80 ∷ service 22 ∷ service 25 ∷ []

three-IsUnique : IsUnique three
unfolding has_service
three-IsUnique = (refl, (refl, (refl, tt)))

-- To remove port 22 loses port 80 as well.
remove-forgets_example : remove_service true 22 6 three ≡ some (service 25 ∷ [])
remove-forgets_example =
    remove-forgets true (service 80 ∷ []) (service 22) (service 25 ∷ []) three-IsUnique
