-- ===== src/OsScan/RoundTrip.antt =====
-- What the client reads of a scan is what the agent found.
use cheops_ng.Prelude.{ℕ, ◌^◌, ◌<◌, ◌≡◌, Bool, List, ◌++◌, All, some}
use cheops_ng.OsScan.Reply.{Scan, Reply, port_options, os_options, uptime_options}
use cheops_ng.OsScan.Client.{Client, Reading}
use cheops_ng.OsScan.Options.{IsText, IsPort, receive_ports, receive_os, receive_uptime}

-- A scan whose words fit in 32 bits and whose texts have no NUL.
pub record IsScan (n : Scan) : Type 0 where
  pub ports : All IsPort n.ports
  pub os_name : IsText n.os_name
  pub last_boot : IsText n.uptime_last_boot
  pub seconds : (s : ℕ) → n.uptime_seconds ≡ some s → s < 2 ^ 32

-- What the client should have of a scan.
abbrev pub received : Bool → Scan → Reading → Reading
received probing n r =
    receive_uptime n.uptime_seconds n.uptime_last_boot
      (receive_ports probing n.ports (receive_os n.os_name r))

-- All options of a scan.
abbrev all_options : Scan → List ℕ
all_options n =
    os_options n.os_name
    ++ (port_options n.ports ++ uptime_options n.uptime_seconds n.uptime_last_boot)
