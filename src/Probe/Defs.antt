-- ===== src/Probe/Defs.antt =====
-- The table of probes of probe.c. Callbacks and their arguments are names; 0 is the null pointer.
use cheops_ng.Prelude.{
  ℕ, ◌+◌, Bool, true, List, [], ◌∷◌, ◌++◌, Option, none, some, ltb, ◌==◌, if◌then◌else◌,
}

-- `struct probe`, with its address.
pub record Probe : Type 0 where
  pub address : ℕ
  pub port : ℕ
  pub send : ℕ
  pub send_arg : ℕ
  pub recieve : ℕ
  pub recieve_arg : ℕ

-- `probes`, with the next pointer that malloc() will give and what was freed.
pub record Probes : Type 0 where
  pub list : List Probe
  pub next : ℕ
  pub freed : List ℕ

-- `get_probe`: the first probe of the port.
unfoldable pub get_probe : ℕ → List Probe → Option Probe
get_probe port [] = none
get_probe port (p ∷ l) = let rest = get_probe port l in if p.port == port then some p else rest

-- g_list_remove() takes out the first element that is the pointer.
unfoldable pub without : ℕ → List Probe → List Probe
without address [] = []
without address (p ∷ l) =
    let rest = without address l in if p.address == address then l else p ∷ rest

unfoldable pub remove_probe : Option Probe → Probes → Probes
unfolding without
remove_probe none s = s
remove_probe (some p) s = record s { list = without p.address s.list; freed = p.address ∷ s.freed }

abbrev pub made : ℕ → ℕ → ℕ → ℕ → ℕ → ℕ → Probe
made address port send send_arg recieve recieve_arg = record {
  address = address;
  port = port;
  send = send;
  send_arg = send_arg;
  recieve = recieve;
  recieve_arg = recieve_arg;
}

-- `register_probe`; `none` is the exit of the program when memory is out.
unfoldable pub register_probe : Bool → ℕ → ℕ → ℕ → ℕ → ℕ → Probes → Option Probes
unfolding get_probe remove_probe
register_probe memory port send send_arg recieve recieve_arg s =
    let s' = remove_probe (get_probe port s.list) s in
    if ltb 0 port
    then (if memory
        then some (record s' {
          list = s'.list ++ (made s'.next port send send_arg recieve recieve_arg ∷ []);
          next = s'.next + 1;
        })
        else none)
    else some s

-- The callbacks of probe.c, and the texts that some of them get.
abbrev pub send_text : ℕ
send_text = 1

abbrev pub strip_version : ℕ
strip_version = 2

abbrev pub after_text : ℕ
after_text = 3

abbrev pub get_request : ℕ
get_request = 4

abbrev pub server_field : ℕ
server_field = 5

-- `probesa`: the port, the two callbacks, and their arguments.
abbrev pub entry : ℕ → ℕ → ℕ → ℕ → ℕ → Probe
entry port send send_arg recieve recieve_arg = made 0 port send send_arg recieve recieve_arg

abbrev pub probesa : List Probe
probesa =
    entry 21 0 0 strip_version 1
    ∷ entry 22 0 0 strip_version 0
    ∷ entry 25 0 0 strip_version 1
    ∷ entry 80 send_text get_request after_text server_field
    ∷ entry 110 0 0 strip_version 2
    ∷ entry 119 0 0 strip_version 1
    ∷ entry 143 0 0 strip_version 2
    ∷ entry 444 0 0 strip_version 0
    ∷ entry 5900 0 0 strip_version 0
    ∷ entry 5901 0 0 strip_version 0
    ∷ entry 5902 0 0 strip_version 0
    ∷ entry 5903 0 0 strip_version 0
    ∷ entry 5904 0 0 strip_version 0
    ∷ entry 5905 0 0 strip_version 0
    ∷ entry 5906 0 0 strip_version 0
    ∷ entry 5907 0 0 strip_version 0
    ∷ []

-- The loop of `init_probes` over a table, while malloc() gives memory.
unfoldable pub register_all : List Probe → Probes → Option Probes
unfolding register_probe
register_all [] s = some s
register_all (p ∷ l) s =
    elim (register_probe true p.port p.send p.send_arg p.recieve p.recieve_arg s) [
      | none ↦ none
      | some s' ↦ register_all l s'
    ]

unfoldable pub init_probes : Probes → Option Probes
unfolding register_all
init_probes s = register_all probesa s
