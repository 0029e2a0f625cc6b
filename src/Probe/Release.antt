-- ===== src/Probe/Release.antt =====
-- A probe of a port uses nothing after its end, ends once, and gives back all that it took.
use cheops_ng.Prelude.{
  ℕ, ◌≤◌, ◌≡◌, Bool, true, false, List, [], ◌∷◌, length, Option, none, some, ◌&&◌, if◌then◌else◌,
}
use cheops_ng.Probe.Life.{Data, Report, timed_out, World, Callbacks}
use cheops_ng.Probe.Callbacks.{holding, gone_but, waiting, asked}

-- The probe goes on, before it has sent or after, and has reported nothing; or it is over: nothing of it
-- is left, and it reported once if it could start and was `given` a callback for the timeout, else once
-- at most.
pub data IsOwned (given : Bool) (tid : Option ℕ) : World → Type 0 where
  waits :
      (d : Data) (n : ℕ)
      → d.tid ≡ tid
      → (given ≡ true → d.has_timeout ≡ true)
      → IsOwned given tid (holding (waiting d) n [])
  asks :
      (d : Data) (n : ℕ)
      → d.tid ≡ tid
      → (given ≡ true → d.has_timeout ≡ true)
      → IsOwned given tid (holding (asked d) n [])
  freed :
      (n : ℕ) (rs : List Report)
      → length rs ≤ 1
      → (given ≡ true → length rs ≡ 1)
      → IsOwned given tid (gone_but none none n rs)

-- The report at the end of the time.
abbrev told : Data → List Report
told d = if d.has_timeout then timed_out d.ip d.port ∷ [] else []

-- What the end of the time does to a probe, by its timer.
abbrev after_timer : Data → ℕ → Option ℕ → World
after_timer d n none = holding d n []
after_timer d n (some i) = gone_but none none n (told d)

-- A probe that reads, for a caller that takes its text; the others may be missing.
abbrev pub both_given : Bool → Bool → Callbacks
both_given send timeout = record { send = send; recieve = true; cb = true; timeout = timeout }

-- Whether `get_version` starts it and will report a timeout.
abbrev pub is_given : Bool → Bool → Bool → Bool → Bool
is_given found memory socket timeout = found && memory && socket && timeout

-- Nothing is left, and there was one report if the probe could start and was `given` a callback for the
-- timeout.
pub record IsReleased (given : Bool) (w : World) : Type 0 where
  pub memory : w.pd ≡ none
  pub closed : w.socket_open ≡ false
  pub unwatched : (w.out_watch ≡ none) × (w.in_watch ≡ none)
  pub untimed : w.timer ≡ none
  pub once : given ≡ true → length w.reports ≡ 1
