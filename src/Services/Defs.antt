-- ===== src/Services/Defs.antt =====
-- The list `services` of cheops-osscan.c and its operations. A name is a number for its text;
-- malloc() is taken to succeed, as the code does.
use cheops_ng.Prelude.{
  ℕ, Bool, true, false, List, [], ◌∷◌, Option, none, some, ◌==◌, ◌&&◌, if◌then◌else◌,
}

-- `service_cache`; the link `next` is the order of the list.
pub record Service : Type 0 where
  pub port : ℕ
  pub protocol : ℕ
  pub name : ℕ

-- The test of every loop.
abbrev pub is_for : ℕ → ℕ → Service → Bool
is_for port protocol p = p.port == port && p.protocol == protocol

-- The loop of `add_service`: whether there is an entry already.
unfoldable pub has_service : ℕ → ℕ → List Service → Bool
has_service port protocol [] = false
has_service port protocol (p ∷ rest) =
    let found = has_service port protocol rest in if is_for port protocol p then true else found

unfoldable pub add_service : ℕ → ℕ → ℕ → List Service → List Service
unfolding has_service
add_service port protocol name services =
    if has_service port protocol services
    then services
    else record { port = port; protocol = protocol; name = name } ∷ services

-- The loop of `remove_service` from the rest `ps` of the list on, with what `services` is then;
-- `prev` is never set, so that an entry found makes `services` the rest behind it. The loop then
-- reads the link of the entry that it has freed: `keeps` tells whether free() leaves it there, and
-- `none` is the fault otherwise.
unfoldable pub remove_from : Bool → ℕ → ℕ → List Service → List Service → Option (List Service)
remove_from keeps port protocol [] services = some services
remove_from keeps port protocol (p ∷ ps) services =
    let found = is_for port protocol p in
    let rest = remove_from keeps port protocol ps (if found then ps else services) in
    if found then (if keeps then rest else none) else rest

unfoldable pub remove_service : Bool → ℕ → ℕ → List Service → Option (List Service)
unfolding remove_from
remove_service keeps port protocol services = remove_from keeps port protocol services services

-- `remove_all_services`: the head is unlinked before it is freed.
unfoldable pub remove_all_services : List Service → List Service
remove_all_services [] = []
remove_all_services (p ∷ services) = remove_all_services services

-- The name, `none` for NULL.
unfoldable pub get_service : ℕ → ℕ → List Service → Option ℕ
get_service port protocol [] = none
get_service port protocol (p ∷ rest) =
    let found = get_service port protocol rest in
    if is_for port protocol p then some p.name else found
