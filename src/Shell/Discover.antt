-- ===== src/Shell/Discover.antt =====
-- `do_discover` of cheops-sh-guts.c: the words of a command as requests to discover addresses.
use cheops_ng.Prelude.{
  ℕ, suc, ◌+◌, ◌-◌, ◌*◌, ◌/◌, ◌%◌, ◌^◌, Bool, false, ◌||◌, List, [], ◌∷◌, ◌++◌, Option, none, some,
  ◌==◌, ltb, if◌then◌else◌,
}
use cheops_ng.Prelude.Int.{ℤ, pos, negsuc}
use cheops_ng.Prelude.Bytes.{ntohl, is_equal}
use cheops_ng.Prelude.Decimal.{atoi}
use cheops_ng.IpUtils.Defs.{allones}
use cheops_ng.Shell.Bits.{bit_and, bit_or, bit_not}

-- `discover_ipv4_e` with the flags of its header, as the shell fills them.
pub record Request : Type 0 where
  pub first : ℕ
  pub last : ℕ
  pub flags : ℕ

-- gethostbyname() and inet_aton(), whose addresses are in network byte order, and whether
-- `event_send` sends.
pub record Net : Type 0 where
  pub get_host : List ℕ → Option ℕ
  pub inet_aton : List ℕ → Option ℕ
  pub event_send : Request → Bool

-- strchr() for '/': what is in front of the first one, and what is behind it.
unfoldable pub at_slash : List ℕ → Option (List ℕ × List ℕ)
at_slash [] = none
at_slash (c ∷ l) =
    let later = at_slash l in
    if c == 47
    then some ([], l)
    else (elim later [ none ↦ none | some (host, mask) ↦ some (c ∷ host, mask) ])

-- A mask in dots, of ones that begin at the top.
unfoldable pub dotted_mask : Option ℕ → Option ℕ
unfolding ntohl allones
dotted_mask none = none
dotted_mask (some word) =
    if ltb (ntohl word) (2 ^ 31) then none else (elim (allones 33 (ntohl word)) [
      | none ↦ none
      | some ones ↦ if ones then some (ntohl word) else none
    ])

-- The mask of a number of ones from 1 to 32.
unfoldable pub prefix_mask : ℕ → Option ℕ
prefix_mask n =
    if ltb n 1 || ltb 32 n then none else some ((2 ^ 32 - 1) / 2 ^ (32 - n) * 2 ^ (32 - n) % 2 ^ 32)

unfoldable pub netmask : Net → List ℕ → Option ℕ
unfolding dotted_mask prefix_mask atoi
netmask net c = elim (dotted_mask (net.inet_aton c)) [
  | some mask ↦ some mask
  | none ↦ prefix_mask (atoi c)
]

-- The addresses of a network, in the order of the host.
unfoldable pub network : ℕ → ℕ → ℕ → Request
unfolding bit_and bit_or
network address mask flags =
    let first = bit_and 32 address mask in
    record { first = first; last = bit_or 32 first (bit_not mask); flags = flags }

-- What a word asks for; a host that is not known ends the command where it has a mask, and is passed
-- over where it has none.
pub data Asks : Type 0 where
  ends : Asks
  nothing : Asks
  request : Request → Asks

unfoldable pub asks : Net → ℕ → List ℕ → Asks
unfolding at_slash netmask network ntohl
asks net flags word = elim (at_slash word) [
  | some (host, c) ↦ elim (net.get_host host) [
    | none ↦ ends
    | some start ↦ elim (netmask net c) [
      | none ↦ nothing
      | some mask ↦ request (network (ntohl start) mask flags)
    ]
  ]
  | none ↦ elim (net.get_host word) [
    | none ↦ nothing
    | some start ↦ request (record { first = ntohl start; last = ntohl start; flags = flags })
  ]
]

-- "force".
abbrev pub force_word : List ℕ
force_word = 102 ∷ 111 ∷ 114 ∷ 99 ∷ 101 ∷ []

-- The first loop: the flags, and the place of the last "force", from the place `x` on.
unfoldable pub find_force : ℕ → List (List ℕ) → ℕ × Option ℕ → ℕ × Option ℕ
unfolding is_equal
find_force x [] found = found
find_force x (word ∷ words) (flags, skip) =
    find_force (suc x) words
      (if is_equal force_word word then (flags / 2 * 2 + 1, some x) else (flags, skip))

abbrev pub is_at : ℕ → Option ℕ → Bool
is_at x none = false
is_at x (some skip) = x == skip

-- What the command returns so far, and the requests that it sent.
pub record Discovering : Type 0 where
  pub done : ℤ
  pub sent : List Request

abbrev pub send : Net → Request → Discovering → Discovering
send net r d = if net.event_send r then record { done = pos 0; sent = d.sent ++ (r ∷ []) } else d

-- The second loop.
unfoldable pub discover_words : Net → ℕ → Option ℕ → ℕ → List (List ℕ) → Discovering → Discovering
unfolding asks
discover_words net flags skip x [] d = d
discover_words net flags skip x (word ∷ words) d =
    elim (if is_at x skip then nothing else asks net flags word) [
      | ends ↦ record d { done = pos 0 }
      | nothing ↦ discover_words net flags skip (suc x) words d
      | request r ↦ discover_words net flags skip (suc x) words (send net r d)
    ]

-- The command with the words behind its name; the flags are those of the shell, which keep the force.
unfoldable pub do_discover : Net → List (List ℕ) → ℕ → ℕ × Discovering
unfolding find_force discover_words
do_discover net [] flags = (flags, record { done = pos 0; sent = [] })
do_discover net (word ∷ words) flags =
    let (with_force, skip) = find_force 1 (word ∷ words) (flags, none) in
    (
      with_force,
      discover_words net with_force skip 1 (word ∷ words) (record { done = negsuc 0; sent = [] }),
    )
