-- ===== src/Map/Packets.antt =====
-- `handle_map` of agent-map.c on any bytes. The buffer is its memory beside the number of bytes
-- that were read.
use cheops_ng.Prelude.{
  ℕ, ◌+◌, ◌-◌, ◌*◌, ◌%◌, ◌^◌, Bool, true, false, not, List, [], ◌∷◌, ltb, leb, ◌==◌, ◌&&◌,
  if◌then◌else◌,
}
use cheops_ng.Discover.Receive.{Buffer, word_at}
use cheops_ng.Map.Defs.{
  Request, Trace, Mapper, map_max, map_connect, drop_request, probed, probe_trace,
}

abbrev pub empty_port : ℕ
empty_port = 33434

abbrev pub icmp_minlen : ℕ
icmp_minlen = 8

-- An IP header at an offset: its length in bytes, its protocol, and its destination.
abbrev pub header_at : Buffer → ℕ → ℕ
header_at b at = b at % 2 ^ 4 * 4

abbrev pub protocol_at : Buffer → ℕ → ℕ
protocol_at b at = b (at + 9)

unfoldable pub dest_at : Buffer → ℕ → ℕ
unfolding word_at
dest_at b at = word_at 4 b (at + 16)

-- ntohs() of two bytes.
abbrev pub short_at : Buffer → ℕ → ℕ
short_at b i = b i * 2 ^ 8 + b (i + 1)

-- The test of both loops: `ttl = mr->ttl` is an assignment, so that any hop fits.
abbrev pub is_for : ℕ → Request → Bool
is_for ip m = m.dest == ip && not (m.ttl == 0)

abbrev pub next_hop : ℕ → Request → Request
next_hop source m = record m { ttl = m.ttl + 1; retries = 0; last = source }

-- The byte that `ttl` gets: of the sequence number of a ping, or of a UDP port.
unfoldable pub last_ttl : Buffer → ℕ → ℕ
last_ttl b at =
    let transport = at + header_at b at in
    if protocol_at b at == 1
    then short_at b (transport + 6) % 2 ^ 8
    else (short_at b (transport + 2) + 2 ^ 16 - empty_port) % 2 ^ 8

module _ (time : ℕ → ℕ) (source : ℕ) where
  -- The loop over the requests to `dest` when a hop has answered.
  unfoldable pub hop : ℕ → Bool → List Request → Trace → List Request × Trace
  hop dest is_first [] t = ([], t)
  hop dest is_first (m ∷ ms) t =
      let t' = map_connect m m.last source t in
      let m' = next_hop source m in
      let (ahead, u) = hop dest false ms (probe_trace time m' t') in
      let dropped = hop dest is_first ms (drop_request is_first m t) in
      let (others, v) = hop dest false ms t in
      if is_for dest m
      then (if ltb m.ttl map_max then (probed time m' t' ∷ ahead, u) else dropped)
      else (m ∷ others, v)

  -- The loop when the host itself has answered, with whether a request was for it.
  unfoldable pub arrive : Bool → List Request → Trace → Bool × List Request × Trace
  arrive is_first [] t = (false, [], t)
  arrive is_first (m ∷ ms) t =
      let (_, rest, u) =
        arrive is_first ms (drop_request is_first m (map_connect m m.last source t)) in
      let (found, others, v) = arrive false ms t in
      if is_for source m then (true, rest, u) else (found, m ∷ others, v)

  unfoldable pub time_exceeded : Buffer → ℕ → Mapper → Mapper
  unfolding hop dest_at
  time_exceeded b len s =
      let at = header_at b 0 + icmp_minlen in
      let (mrq, t) = hop (dest_at b at) true s.mrq s.trace in
      if ltb len (at + header_at b at + icmp_minlen) then s else record s { mrq = mrq; trace = t }

  -- The answer of the host, with the IP header at an offset: the lengths have to agree exactly.
  unfoldable pub last_hop : Buffer → ℕ → ℕ → Mapper → Bool × Mapper
  unfolding arrive last_ttl
  last_hop b len at s =
      let (found, mrq, t) = arrive true s.mrq s.trace in
      if not (len == at + header_at b at + icmp_minlen)
      then (false, s)
      else (if leb map_max (last_ttl b at)
          then (false, s)
          else (found, record s { mrq = mrq; trace = t }))

  unfoldable pub handle_map : Buffer → ℕ → Mapper → Bool × Mapper
  unfolding time_exceeded last_hop
  handle_map b len s =
      let kind = b (header_at b 0) in
      let inner = header_at b 0 + icmp_minlen in
      if kind == 11
      then (false, time_exceeded b len s)
      else (if kind == 3
          then (if ltb (short_at b (inner + header_at b inner + 2)) empty_port
              then (false, s)
              else last_hop b len inner s)
          else (if kind == 0 then last_hop b len 0 s else (false, s)))
