-- ===== src/Shell/Tests.antt =====
-- Commands of the shell at concrete inputs.
use cheops_ng.Prelude.{ℕ, ◌≤◌, ◌≡◌, ◌↔◌, refl, true, false, List, [], ◌∷◌, none, some, arith, All}
use cheops_ng.Prelude.Int.{pos}
use cheops_ng.Prelude.Bytes.{ntohl}
use cheops_ng.Sched.Defs.{Os, initial}
use cheops_ng.Cache.Defs.{empty}
use cheops_ng.Discover.Defs.{Discovery}
use cheops_ng.Discover.Queue.{IsValid}
use cheops_ng.Shell.Bits.{bit_and}
use cheops_ng.Shell.Discover.{Net, Request, netmask, network, at_slash, do_discover}
use cheops_ng.Shell.Network.{network-mask}
use cheops_ng.Shell.Parse.{parse, force_line}
use cheops_ng.Shell.Words.{IsWord, IsParsed, parse-force_line}
use cheops_ng.Shell.Asked.{Takes, do_discover-handle_discover_request}

-- Every host is 192.168.0.254, and a number is read as the last part of an address.
abbrev net : Net
net = record {
  get_host = λ host. some 4261456064;
  inet_aton = λ c. some 402653184;
  event_send = λ r. true;
}

-- "h/24".
abbrev word : List ℕ
word = 104 ∷ 47 ∷ 50 ∷ 52 ∷ []

mask_of_24 : netmask net (50 ∷ 52 ∷ []) ≡ some 4294967040
unfolding netmask
mask_of_24 = refl

whole_network :
    network 3232235774 4294967040 0 ≡ record { first = 3232235520; last = 3232235775; flags = 0 }
unfolding network
whole_network = refl

network-mask_example :
    ((network 3232235774 4294967040 0).first ≤ 3232235521
      × 3232235521 ≤ (network 3232235774 4294967040 0).last)
    ↔ (bit_and 32 3232235521 4294967040 ≡ bit_and 32 3232235774 4294967040)
network-mask_example =
    network-mask 3232235774 4294967040 0 3232235521 (omega arith) (omega arith)
      (8, omega arith, omega arith)

abbrev os : Os
os = record { gettimeofday = λ n. some (record { sec = pos 9; usec = pos 0 }); malloc = λ n. true }

abbrev agent_at_rest : Discovery
agent_at_rest = record {
  ping_q = [];
  socket_open = false;
  ping_retries = 1;
  scheduler = initial;
  cache = empty;
  next = 100;
  sent = [];
  replies = [];
}

at_rest-IsValid : IsValid agent_at_rest
at_rest-IsValid = record { pings = tt; distinct = tt; fresh = tt }

split : at_slash word ≡ some (104 ∷ [], 50 ∷ 52 ∷ [])
unfolding at_slash
split = refl

do_discover-handle_discover_request_example :
    (r : Request) × (do_discover net (word ∷ []) 0 ≡ (0, record { done = pos 0; sent = r ∷ [] }))
    × Takes os 5 501 agent_at_rest at_rest-IsValid r (ntohl 4261456064) 4294967040
do_discover-handle_discover_request_example =
    do_discover-handle_discover_request os 5 501 agent_at_rest at_rest-IsValid net word (104 ∷ [])
      (50 ∷ 52 ∷ []) 4261456064 4294967040 0 split refl mask_of_24 refl

-- "os h" behind the word "force".
abbrev os_command : List (List ℕ)
os_command = (104 ∷ []) ∷ []

plain_words : All IsWord ((111 ∷ 115 ∷ []) ∷ os_command)
plain_words = (
  record {
    plain = ((refl, refl, omega arith), ((refl, refl, omega arith), tt));
    some_byte = λ e. cc;
  },
  (record { plain = ((refl, refl, omega arith), tt); some_byte = λ e. cc }, tt),
)

parse-force_line_example :
    IsParsed 80 ((111 ∷ 115 ∷ []) ∷ os_command) (parse 80 (111 ∷ 115 ∷ 32 ∷ 104 ∷ 32 ∷ []))
unfolding force_line
parse-force_line_example = parse-force_line 80 (111 ∷ 115 ∷ []) os_command plain_words

-- An array of one pointer, and two words.
too_many : parse 1 (111 ∷ 115 ∷ 32 ∷ 104 ∷ 32 ∷ []) ≡ none
unfolding parse
too_many = refl

-- A word in quotes keeps its blank.
quoted :
    parse 80 (34 ∷ 97 ∷ 32 ∷ 98 ∷ 34 ∷ [])
    ≡ some (some (record { line = 34 ∷ 97 ∷ 32 ∷ 98 ∷ 0 ∷ []; argv = 1 ∷ [] }))
unfolding parse
quoted = refl

open_quote : parse 80 (34 ∷ 97 ∷ []) ≡ some none
unfolding parse
open_quote = refl
