-- ===== src/OsScan/Reply.antt =====
-- `send_osscan_reply` of agent-osscan.c: a scan as the options of a message. The scan is what the
-- reader of nmap's document gives.
use cheops_ng.Prelude.{ℕ, ◌+◌, List, [], ◌∷◌, ◌++◌, length, Option, none, some, leb, if◌then◌else◌}
use cheops_ng.Prelude.Bytes.{put_word, put_string}

-- `nmap_host_port_t`; a text that is NULL is `none`.
pub record Port : Type 0 where
  pub protocol : ℕ
  pub portid : ℕ
  pub state : ℕ
  pub service : Option (List ℕ)
  pub owner : Option (List ℕ)
  pub proto : ℕ
  pub rpcnum : ℕ
  pub rpclowver : ℕ
  pub rpchighver : ℕ

-- `nmap_scan_t`: the address as inet_addr() reads it, and the seconds as atoi() does.
pub record Scan : Type 0 where
  pub addr : ℕ
  pub os_name : Option (List ℕ)
  pub ports : List Port
  pub uptime_seconds : Option ℕ
  pub uptime_last_boot : Option (List ℕ)

-- A message of REPLY_OS_SCAN with the bytes of its options.
pub record Reply : Type 0 where
  pub len : ℕ
  pub num_options : ℕ
  pub ip : ℕ
  pub np : ℕ
  pub options : List ℕ

abbrev pub os_scan_option_os : ℕ
os_scan_option_os = 1

abbrev pub os_scan_option_port : ℕ
os_scan_option_port = 2

abbrev pub os_scan_option_uptime : ℕ
os_scan_option_uptime = 3

-- The headers of the event and of the reply, and the most bytes of a message.
abbrev pub reply_header : ℕ
reply_header = 28

abbrev pub max_event_size : ℕ
max_event_size = 65536

-- The type of an option, its length with these two words, and what follows them.
unfoldable pub put_option : ℕ → List ℕ → List ℕ
put_option type body = put_word type ++ (put_word (8 + length body) ++ body)

-- What strcpy() leaves for a text; one byte where there is none.
abbrev pub text_or_empty : Option (List ℕ) → List ℕ
text_or_empty none = []
text_or_empty (some s) = s

unfoldable pub port_body : Port → List ℕ
port_body p =
    put_word p.protocol
    ++ (put_word p.state
        ++ (put_word p.portid
            ++ (put_word p.proto
                ++ (put_word p.rpcnum
                    ++ (put_word p.rpclowver
                        ++ (put_word p.rpchighver
                            ++ (put_string (text_or_empty p.service)
                                ++ put_string (text_or_empty p.owner))))))))

-- The loop over the ports.
unfoldable pub port_options : List Port → List ℕ
unfolding put_option port_body
port_options [] = []
port_options (p ∷ ps) = put_option os_scan_option_port (port_body p) ++ port_options ps

unfoldable pub os_options : Option (List ℕ) → List ℕ
unfolding put_option
os_options none = []
os_options (some name) = put_option os_scan_option_os (put_string name)

unfoldable pub uptime_options : Option ℕ → Option (List ℕ) → List ℕ
unfolding put_option
uptime_options none last_boot = []
uptime_options (some seconds) last_boot =
    put_option os_scan_option_uptime (put_word seconds ++ put_string (text_or_empty last_boot))

abbrev pub one_if {ℓ} : {A : Type ℓ} → Option A → ℕ
one_if none = 0
one_if (some x) = 1

-- The message; `none` is a message that does not fit in the buffer, behind which the code writes.
unfoldable pub send_osscan_reply : Scan → ℕ → Option Reply
unfolding os_options port_options uptime_options
send_osscan_reply n np =
    let options =
      os_options n.os_name
      ++ (port_options n.ports ++ uptime_options n.uptime_seconds n.uptime_last_boot) in
    if leb (reply_header + length options) max_event_size
    then some record {
      len = reply_header + length options;
      num_options = one_if n.os_name + length n.ports + one_if n.uptime_seconds;
      ip = n.addr;
      np = np;
      options = options;
    }
    else none
