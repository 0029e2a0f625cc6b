-- ===== src/Sched/Removal.antt =====
-- What taking one entry out of the queue keeps.
use cheops_ng.Prelude.{suc, ◌≡◌, refl, List, [], ◌∷◌, ◌++◌, sym, ap, length, All}
use cheops_ng.Sched.Defs.{Entry}
use cheops_ng.Sched.Queue.{IsSorted, IsDistinct, Absent}

pub All-drop_middle {ℓ} :
    (P : Entry → Type ℓ) (before : List Entry) (e : Entry) (after : List Entry)
    → All P (before ++ (e ∷ after))
    → All P (before ++ after)
All-drop_middle P [] e after h = h.1
All-drop_middle P (x ∷ before) e after h = (h.0, All-drop_middle P before e after h.1)

pub All-middle {ℓ} :
    (P : Entry → Type ℓ) (before : List Entry) (e : Entry) (after : List Entry)
    → All P (before ++ (e ∷ after))
    → P e
All-middle P [] e after h = h.0
All-middle P (x ∷ before) e after h = All-middle P before e after h.1

pub length-drop_middle :
    (before : List Entry) (e : Entry) (after : List Entry)
    → length (before ++ (e ∷ after)) ≡ suc (length (before ++ after))
length-drop_middle [] e after = refl
length-drop_middle (x ∷ before) e after = ap suc (length-drop_middle before e after)

pub IsSorted-drop_middle :
    (before : List Entry) (e : Entry) (after : List Entry)
    → IsSorted (before ++ (e ∷ after))
    → IsSorted (before ++ after)
IsSorted-drop_middle [] e after h = h.1
IsSorted-drop_middle (x ∷ before) e after h =
    (All-drop_middle _ before e after h.0, IsSorted-drop_middle before e after h.1)

pub IsDistinct-drop_middle :
    (before : List Entry) (e : Entry) (after : List Entry)
    → IsDistinct (before ++ (e ∷ after))
    → IsDistinct (before ++ after)
IsDistinct-drop_middle [] e after h = h.1
IsDistinct-drop_middle (x ∷ before) e after h =
    (All-drop_middle _ before e after h.0, IsDistinct-drop_middle before e after h.1)

-- In a queue of distinct ids the entry taken out was the only one of its id.
pub Absent-drop_middle :
    (before : List Entry) (e : Entry) (after : List Entry)
    → IsDistinct (before ++ (e ∷ after))
    → Absent e.id (before ++ after)
Absent-drop_middle [] e after h = h.0
Absent-drop_middle (x ∷ before) e after h =
    (λ c. All-middle _ before e after h.0 (sym c), Absent-drop_middle before e after h.1)
