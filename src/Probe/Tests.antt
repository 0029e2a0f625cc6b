-- ===== src/Probe/Tests.antt =====
-- The probes on concrete inputs, and their theorems at them.
use cheops_ng.Prelude.{
  ◌⊎◌, ℕ, ◌<◌, ◌≡◌, refl, true, false, List, [], ◌∷◌, ◌++◌, All, Option, none, some, arith,
}
use cheops_ng.Probe.Defs.{
  Probe, Probes, get_probe, made, entry, strip_version, after_text, register_all, init_probes,
  probesa, send_text, get_request, server_field,
}
use cheops_ng.Probe.Table.{IsTable}
use cheops_ng.Probe.Refine.{view, update_all, register_all-update_all}
use cheops_ng.Probe.Text
use cheops_ng.Prelude.Bytes.{string_at}
use cheops_ng.Probe.Strip
use cheops_ng.Probe.Text.{IsAbsent, IsAfter, after_text-IsAfter}
use cheops_ng.Probe.Strip.{IsStripped, strip_version-IsStripped}
use cheops_ng.Probe.Life.{
  version, Event, writable, readable, elapsed, run, nothing, Callbacks, get_version,
}
use cheops_ng.Probe.Release.{both_given}

abbrev no_probes : Probes
no_probes = record { list = []; next = 100; freed = [] }

abbrev one_probe : Probes
one_probe = record { list = made 100 21 0 0 strip_version 1 ∷ []; next = 101; freed = [] }

abbrev lookup : ℕ → Option Probes → Option Probe
lookup port none = none
lookup port (some s) = get_probe port s.list

web_probe :
    lookup 80 (init_probes no_probes)
    ≡ some (made 103 80 send_text get_request after_text server_field)
unfolding init_probes get_probe
web_probe = refl

-- The table of the program, from the empty one; port 21 is then given another count.
abbrev later : List Probe
later = probesa ++ (entry 21 0 0 strip_version 2 ∷ [])

no_probes-IsTable : IsTable no_probes
no_probes-IsTable = record { ports = tt; addresses = tt; fresh = tt }

later_ports : All (λ p. 0 < p.port) later
later_ports = grind arith

register_all-update_all_example :
    (s' : Probes) × (register_all later no_probes ≡ some s')
    × IsTable s'
    × ((port : ℕ) → view s' port ≡ update_all later (view no_probes) port)
register_all-update_all_example =
    register_all-update_all later no_probes later_ports no_probes-IsTable

-- A reply of a web server, and the name in it.
abbrev server : List ℕ
server = 83 ∷ 58 ∷ []

abbrev reply : List ℕ
reply = 79 ∷ 75 ∷ 10 ∷ 83 ∷ 58 ∷ 120 ∷ 121 ∷ 10 ∷ 122 ∷ []

server_name : Text.after_text server (some reply) ≡ some (120 ∷ 121 ∷ [])
unfolding Text.after_text
server_name = refl

after_text-IsAfter_example :
    ((Text.after_text server (some reply) ≡ none) × IsAbsent server reply)
    ⊎ ((r : List ℕ) × (Text.after_text server (some reply) ≡ some r) × IsAfter server reply r)
after_text-IsAfter_example = after_text-IsAfter server reply (grind arith) (grind arith)

-- "no answer" is not cut.
no_reply :
    Strip.strip_version 2 (some (110 ∷ 111 ∷ 32 ∷ 97 ∷ 110 ∷ 115 ∷ 119 ∷ 101 ∷ 114 ∷ []))
    ≡ some (110 ∷ 111 ∷ 32 ∷ 97 ∷ 110 ∷ 115 ∷ 119 ∷ 101 ∷ 114 ∷ [])
unfolding Strip.strip_version
no_reply = refl

greeting : Strip.strip_version 1 (some (50 ∷ 32 ∷ 120 ∷ 0 ∷ 9 ∷ [])) ≡ some (120 ∷ [])
unfolding Strip.strip_version
greeting = refl

strip_version-IsStripped_example :
    (r : List ℕ) × (Strip.strip_version 1 (some (50 ∷ 32 ∷ 120 ∷ 0 ∷ 9 ∷ [])) ≡ some r)
    × IsStripped 1 (string_at (50 ∷ 32 ∷ 120 ∷ 0 ∷ 9 ∷ [])) r
strip_version-IsStripped_example = strip_version-IsStripped 1 (50 ∷ 32 ∷ 120 ∷ 0 ∷ 9 ∷ [])

-- The socket can be written, then read; the timeout comes too late.
abbrev answered : List Event
answered = writable ∷ readable true (some (83 ∷ 83 ∷ [])) ∷ elapsed ∷ []

one_answer :
    run answered (get_version true true true (some 1) (some 2) (some 3) (both_given true true) 5 22)
    ≡ some record {
      pd = none;
      socket_open = false;
      out_watch = none;
      in_watch = none;
      timer = none;
      moved = false;
      sends = 1;
      reports = version 5 22 (some (83 ∷ 83 ∷ [])) ∷ [];
    }
unfolding run get_version
one_answer = refl

-- Without a caller that takes the text, the watch for reading, as the last of the table, is called
-- before the socket can be written: io.c then drops another entry. It is dropped well elsewhere.
abbrev untold : Callbacks
untold = record { send = true; recieve = true; cb = false; timeout = true }

dropped_other :
    run
      (readable true none ∷ [])
      (get_version true true true (some 1) (some 2) (some 3) untold 5 22)
    ≡ none
unfolding run get_version
dropped_other = refl

dropped_itself :
    run
      (readable false none ∷ [])
      (get_version true true true (some 1) (some 2) (some 3) untold 5 22)
    ≡ some nothing
unfolding run get_version
dropped_itself = refl
