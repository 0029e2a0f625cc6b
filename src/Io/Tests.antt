-- ===== src/Io/Tests.antt =====
-- The table of io.c on concrete inputs, and its theorems at them.
use cheops_ng.Prelude.{
  ℕ, ◌+◌, ◌≤◌, ◌≡◌, refl, true, false, ◌⊎◌, [], ◌∷◌, Option, none, some, arith, ◌==◌, if◌then◌else◌,
}
use cheops_ng.Prelude.Int.{pos, negsuc}
use cheops_ng.Io.Defs.{Io, Memory, io_add, io_remove}
use cheops_ng.Io.Invariant.{Sized, Linked, Untouched, AddedAt, io_add-Linked}
use cheops_ng.Io.Shrink.{Removed, io_remove-Removed}
use cheops_ng.Io.Wait.{add, remove, Callbacks, serve}
use cheops_ng.Io.Serving.{serve-Linked}

abbrev plenty : Memory
plenty n = true

-- Entries 0, 1 and 2 have the ids 11, 12 and 13, and the arrays grew three times.
abbrev three : Io
three = record {
  fds = λ i. record { fd = pos (i + 5); events = 1; revents = 1 };
  ior = λ i. record { callback = 7; arg = 9; id = i + 11 };
  fds_size = 1536;
  ior_size = 1536;
  fdcnt = 3;
  maxfdcnt = 1535;
  current_ioc = negsuc 0;
  remove_current_ioc = false;
  cell = λ p.
      if p == 11 then some 0 else (if p == 12 then some 1 else (if p == 13 then some 2 else none));
  next = 14;
  requests = 9;
}

three-Sized : Sized 3 three
three-Sized = omega arith

three-Linked : Linked three
three-Linked = record {
  linked = λ i h. ground arith;
  owned = λ p i e. ground arith;
  fresh = λ p h. ground arith;
}

io_add-Linked_example :
    (r : Option ℕ × Io) × (io_add plenty (pos 8) 7 1 9 three ≡ some r)
    × (Sized 3 r.1 ⊎ Sized 4 r.1)
    × Linked r.1
    × Untouched three r.1
    × AddedAt (pos 8) 7 1 9 three r
io_add-Linked_example =
    io_add-Linked plenty (pos 8) 7 1 9 3 three (omega arith) three-Sized three-Linked

io_remove-Removed_example :
    (s' : Io) × (io_remove 11 three ≡ some (pos 0, s'))
    × Sized 3 s'
    × Linked s'
    × Removed 0 three s'
io_remove-Removed_example = io_remove-Removed 3 11 0 three three-Sized three-Linked refl refl

-- A callback that watches another descriptor, and ends its own watch.
abbrev moving : Callbacks
moving r fd events s = record { calls = add (pos 8) 7 1 9 ∷ remove r.id ∷ []; again = true }

serve-Linked_example :
    (s' : Io) × (k' : ℕ) × (serve plenty moving 1 three ≡ some s')
    × (k' ≤ 5)
    × Sized k' s'
    × Linked s'
serve-Linked_example =
    serve-Linked plenty moving 3 1 three (omega arith) three-Sized three-Linked (omega arith)
      (tt, (refl, tt))

-- A callback that removes the entry of the id 11, and returns 0.
abbrev hostile : Callbacks
hostile r fd events s = record { calls = remove 11 ∷ []; again = false }
