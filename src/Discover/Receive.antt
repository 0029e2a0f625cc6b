-- ===== src/Discover/Receive.antt =====
-- `handle_ping_recieve` of agent-discover.c on any bytes. The buffer is its memory beside the
-- number of bytes that were read; what lies behind those is stale.
use cheops_ng.Prelude.{
  ℕ, zero, suc, ◌+◌, ◌*◌, ◌%◌, ◌^◌, Bool, false, Option, none, some, ltb, ◌==◌, if◌then◌else◌,
}
use cheops_ng.Sched.Time.{Timeval}
use cheops_ng.Cache.Defs.{add_to_cache}
use cheops_ng.Discover.Defs.{Discovery, in_range, send_discover_reply}

abbrev pub Buffer : Type 0
Buffer = ℕ → ℕ

-- `ip_hl` in bytes: the low half of the first byte, times four.
abbrev pub header_length : Buffer → ℕ
header_length b = b 0 % 2 ^ 4 * 4

-- The word of `n` bytes from an index on, and the pointer in eight.
unfoldable pub word_at : ℕ → Buffer → ℕ → ℕ
word_at zero b i = 0
word_at (suc n) b i = b i + 2 ^ 8 * word_at n b (i + 1)

unfoldable pub pointer_at : Buffer → ℕ → ℕ
unfolding word_at
pointer_at b i = word_at 8 b i

abbrev pub icmp_minlen : ℕ
icmp_minlen = 8

abbrev pub icmp_echoreply : ℕ
icmp_echoreply = 0

-- The reply is cached and passed on. `none` is the exit of the program when memory is out.
unfoldable pub accept : Bool → Timeval → ℕ → ℕ → Discovery → Option Discovery
unfolding in_range add_to_cache send_discover_reply
accept memory now pp source s = elim (in_range pp source s.ping_q) [
  | none ↦ some s
  | some p ↦ elim (add_to_cache memory now source false s.cache) [
    | none ↦ none
    | some c ↦ some (send_discover_reply source p (record s { cache = c }))
  ]
]

-- A packet of `len` bytes from an address; `mapped` is what `handle_map` returned for it.
unfoldable pub handle_ping_recieve :
    Bool → Timeval → Bool → Buffer → ℕ → ℕ → Discovery → Option Discovery
unfolding accept pointer_at
handle_ping_recieve memory now mapped b len source s =
    let h = header_length b in
    if ltb len (h + icmp_minlen)
    then some s
    else (if mapped
        then some s
        else (if b h == icmp_echoreply
            then accept memory now (pointer_at b (h + 8)) source s
            else some s))
