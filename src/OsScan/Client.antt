-- ===== src/OsScan/Client.antt =====
-- `handle_os_scan_reply` of gui-handlers.c, on the options of a message with any bytes.
use cheops_ng.Prelude.{
  ℕ, zero, suc, ◌%◌, ◌^◌, Bool, List, [], ◌∷◌, length, Option, none, some, ◌==◌, if◌then◌else◌,
}
use cheops_ng.Prelude.Bytes.{skip, string_at, get_word}
use cheops_ng.OsScan.Reply.{Reply, os_scan_option_os, os_scan_option_port, os_scan_option_uptime}

-- `os_port_entry`; its version is NULL.
pub record PortEntry : Type 0 where
  pub port : ℕ
  pub protocol : ℕ
  pub proto : ℕ
  pub state : ℕ
  pub rpcnum : ℕ
  pub rpclowver : ℕ
  pub rpchighver : ℕ
  pub name : List ℕ
  pub owner : List ℕ

-- `os_stats`.
pub record OsStats : Type 0 where
  pub os : Option (List ℕ)
  pub ports : List PortEntry
  pub uptime_seconds : ℕ
  pub uptime_last_boot : Option (List ℕ)

-- The arguments of a call of `add_service`, as they are converted.
pub record Named : Type 0 where
  pub port : ℕ
  pub protocol : ℕ
  pub name : List ℕ

-- What is known of the host, and the calls of `add_service` and `do_probe` so far, the last first.
pub record Client : Type 0 where
  pub os_data : Option OsStats
  pub named : List Named
  pub probed : List ℕ

abbrev pub no_stats : OsStats
no_stats = record { os = none; ports = []; uptime_seconds = 0; uptime_last_boot = none }

-- The words and the two strings of an option of a port.
unfoldable pub read_port : List ℕ → PortEntry
unfolding skip get_word string_at
read_port ptr =
    let name = string_at (skip 36 ptr) in
    record {
      port = get_word (skip 16 ptr);
      protocol = get_word (skip 8 ptr);
      proto = get_word (skip 20 ptr);
      state = get_word (skip 12 ptr);
      rpcnum = get_word (skip 24 ptr);
      rpclowver = get_word (skip 28 ptr);
      rpchighver = get_word (skip 32 ptr);
      name = name;
      owner = string_at (skip (suc (length name)) (skip 36 ptr));
    }

-- The statistics that the loop fills, with the calls that it makes.
pub record Reading : Type 0 where
  pub stats : OsStats
  pub named : List Named
  pub probed : List ℕ

abbrev pub add_port : Bool → PortEntry → Reading → Reading
add_port probing e r = record {
  stats = record r.stats { ports = e ∷ r.stats.ports };
  named = record { port = e.port % 2 ^ 16; protocol = e.protocol % 2 ^ 8; name = e.name } ∷ r.named;
  probed = if probing then e.port ∷ r.probed else r.probed;
}

abbrev pub non_empty : List ℕ → Option (List ℕ) → Option (List ℕ)
non_empty [] old = old
non_empty (x ∷ s) old = some (x ∷ s)

unfoldable pub read_option : Bool → List ℕ → Reading → Reading
unfolding read_port
read_option probing ptr r =
    let type = get_word ptr in
    if type == os_scan_option_os
    then record r { stats = record r.stats { os = some (string_at (skip 8 ptr)) } }
    else (if type == os_scan_option_uptime
        then record r {
          stats = record r.stats {
            uptime_seconds = get_word (skip 8 ptr);
            uptime_last_boot = non_empty (string_at (skip 12 ptr)) r.stats.uptime_last_boot;
          };
        }
        else (if type == os_scan_option_port then add_port probing (read_port ptr) r else r))

-- The loop over the options that remain.
unfoldable pub read_options : Bool → ℕ → List ℕ → Reading → Reading
unfolding read_option
read_options probing zero ptr r = r
read_options probing (suc n) ptr r =
    read_options probing n (skip (get_word (skip 4 ptr)) ptr) (read_option probing ptr r)

abbrev pub client_of : Reading → Client
client_of r = record { os_data = some r.stats; named = r.named; probed = r.probed }

-- The handler; `found` tells whether the page holds an object of the address.
unfoldable pub handle_os_scan_reply : Bool → Bool → Reply → Client → Client
unfolding read_options
handle_os_scan_reply found probing e c =
    let r =
      read_options probing e.num_options e.options
        record { stats = no_stats; named = c.named; probed = c.probed } in
    if found then client_of r else c
