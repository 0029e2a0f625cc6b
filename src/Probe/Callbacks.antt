-- ===== src/Probe/Callbacks.antt =====
-- What the callbacks of probe.c leave of a probe that owns its entries.
use cheops_ng.Prelude.{
  ℕ, ◌≡◌, refl, Bool, true, false, List, [], ◌∷◌, Option, none, some, if◌then◌else◌, arith, ap,
}
use cheops_ng.Probe.Life.{
  Data, Report, version, timed_out, World, finish, recieve_cb, timeout_cb, ended,
}

-- The probe goes on: its memory, its socket, and the entries that it knows the ids of.
abbrev pub holding : Data → ℕ → List Report → World
holding d n rs = record {
  pd = some d;
  socket_open = true;
  out_watch = d.soid;
  in_watch = d.siid;
  timer = d.tid;
  moved = false;
  sends = n;
  reports = rs;
}

-- All is given back, but for the watch `siid` and the timer `tid`.
abbrev pub gone_but : Option ℕ → Option ℕ → ℕ → List Report → World
gone_but siid tid n rs = record {
  pd = none;
  socket_open = false;
  out_watch = none;
  in_watch = siid;
  timer = tid;
  moved = false;
  sends = n;
  reports = rs;
}

-- A probe with both callbacks that has not sent yet, and one that has: its watch for writing is over.
abbrev pub waiting : Data → Data
waiting d = record d { has_recieve = true; has_cb = true; sent = false }

abbrev pub asked : Data → Data
asked d = record d { has_recieve = true; has_cb = true; sent = true; soid = none }

finish_lem :
    (d : Data) (n : ℕ) (rs : List Report)
    → finish (asked d) (holding (asked d) n rs) ≡ some (gone_but d.siid none n rs)
unfolding finish
finish_lem d n rs = on d.tid
  where
    on :
        (tid : Option ℕ)
        → finish (asked (record d { tid = tid })) (holding (asked (record d { tid = tid })) n rs)
          ≡ some (gone_but d.siid none n rs)
    on none = refl
    on (some t) = ground arith

pub timeout_cb_lem :
    (d : Data) (n : ℕ)
    → timeout_cb (holding d n [])
      ≡ some
          (false, gone_but none d.tid n (if d.has_timeout then timed_out d.ip d.port ∷ [] else []))
unfolding timeout_cb
timeout_cb_lem d n = on d.soid d.siid d.has_timeout
  where
    picked : Option ℕ → Option ℕ → Bool → Data
    picked soid siid has = record d { soid = soid; siid = siid; has_timeout = has }

    on :
        (soid siid : Option ℕ) (has : Bool)
        → timeout_cb (holding (picked soid siid has) n [])
          ≡ some (false, gone_but none d.tid n (if has then timed_out d.ip d.port ∷ [] else []))
    on none none true = refl
    on none none false = refl
    on none (some i) true = ground arith
    on none (some i) false = ground arith
    on (some o) none true = ground arith
    on (some o) none false = ground arith
    on (some o) (some i) true = ground arith
    on (some o) (some i) false = ground arith

pub recieve_cb-waiting :
    (string : Option (List ℕ)) (d : Data) (n : ℕ)
    → recieve_cb string (holding (waiting d) n []) ≡ some (true, holding (waiting d) n [])
unfolding recieve_cb
recieve_cb-waiting string d n = refl

pub recieve_cb-asked :
    (string : Option (List ℕ)) (d : Data) (n : ℕ)
    → recieve_cb string (holding (asked d) n [])
      ≡ some (false, gone_but d.siid none n (version d.ip d.port string ∷ []))
unfolding recieve_cb
recieve_cb-asked string d n = ap ended (finish_lem d n (version d.ip d.port string ∷ []))
