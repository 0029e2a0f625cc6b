-- ===== src/Discover/Vetting.antt =====
-- `handle_ping_recieve` on any bytes from anybody, and on the reply to a ping.
use cheops_ng.Prelude.{
  ℕ, ◌+◌, ◌^◌, ◌≤◌, ◌<◌, ◌≡◌, refl, subst, List, Bool, true, false, Bool-cases, Option-cases, ◌⊎◌,
  inl, inr, ◌∷◌, Option, none, some, ltb, leb, ◌==◌, ◌&&◌, arith,
}
use cheops_ng.Prelude.Bytes.{ntohl, skip}
use cheops_ng.Sched.Time.{Timeval}
use cheops_ng.Cache.Defs.{in_cache}
use cheops_ng.Cache.Bound.{IsBounded, add_to_cache-IsBounded}
use cheops_ng.Discover.Defs.{
  Ping, Reply, Discovery, find_ping, in_range, ping_packet, send_discover_reply,
}
use cheops_ng.Discover.Receive.{
  Buffer, header_length, icmp_minlen, icmp_echoreply, pointer_at, accept, handle_ping_recieve,
}
use cheops_ng.Discover.Packet.{Holds, pointer_at-bytes_of, skip-ping_packet}

-- A host in the range of a discovery, `source` being in network byte order.
abbrev pub InRange : Ping → ℕ → Type 0
InRange p source = (ntohl p.start_ip ≤ ntohl source) × (ntohl source ≤ ntohl p.end_ip)

-- The reply of a discovery for a host.
abbrev pub reply_for : Ping → ℕ → Reply
reply_for p source = record { agent = p.agent; ipaddr = ntohl source; flags = p.flags; np = p.np }

-- The one effect of an accepted packet: the host is cached, and the agent gets a reply.
pub record Accepted (p : Ping) (source : ℕ) (s s' : Discovery) : Type 0 where
  pub in_range : InRange p source
  pub ping_q : s'.ping_q ≡ s.ping_q
  pub next : s'.next ≡ s.next
  pub ping_retries : s'.ping_retries ≡ s.ping_retries
  pub scheduler : s'.scheduler ≡ s.scheduler
  pub sent : s'.sent ≡ s.sent
  pub bounded : IsBounded s'.cache
  pub cached : in_cache source s'.cache ≡ true
  pub replied : s'.replies ≡ reply_for p source ∷ s.replies

accept-Accepted :
    (now : Timeval) (pp source : ℕ) (p : Ping) (s : Discovery)
    → IsBounded s.cache
    → find_ping pp s.ping_q ≡ some p
    → InRange p source
    → (s' : Discovery) × (accept true now pp source s ≡ some s') × Accepted p source s s'
unfolding accept in_range send_discover_reply
accept-Accepted now pp source p s b found r =
    let (c, added, b', cached) = add_to_cache-IsBounded now source false s.cache b in
    let inside : leb (ntohl source) (ntohl p.end_ip) && leb (ntohl p.start_ip) (ntohl source)
        ≡ true =
      ground arith in
    (
      send_discover_reply source p (record s { cache = c }),
      rw (found, inside, added, accept) refl,
      record {
        in_range = r;
        ping_q = refl;
        next = refl;
        ping_retries = refl;
        scheduler = refl;
        sent = refl;
        bounded = b';
        cached = cached;
        replied = refl;
      },
    )

-- What a packet leads to: nothing, or the acceptance for the discovery that its data points to.
abbrev pub Vetted : Bool → Buffer → ℕ → Discovery → Discovery → Type 0
Vetted mapped b source s s' =
    (s' ≡ s)
    ⊎ ((p : Ping) × (find_ping (pointer_at b (header_length b + 8)) s.ping_q ≡ some p)
        × (mapped ≡ false)
        × (b (header_length b) ≡ icmp_echoreply)
        × Accepted p source s s')

accept-cases :
    (now : Timeval) (pp source : ℕ) (s : Discovery)
    → IsBounded s.cache
    → (accept true now pp source s ≡ some s)
      ⊎ ((p : Ping) × (s' : Discovery) × (find_ping pp s.ping_q ≡ some p)
          × (accept true now pp source s ≡ some s')
          × Accepted p source s s')
unfolding accept in_range
accept-cases now pp source s b = elim (Option-cases (find_ping pp s.ping_q)) [
  | inl lost ↦ inl (out none lost refl)
  | inr (p, found) ↦
      elim (Bool-cases
        (leb (ntohl source) (ntohl p.end_ip) && leb (ntohl p.start_ip) (ntohl source))) [
          | inl inside ↦
              let (s', e, a) = accept-Accepted now pp source p s b found (ground (arith, inside)) in
              inr (p, s', found, e, a)
          | inr outside ↦ inl (out (some p) found outside)
        ]
]
  where
    out :
        (o : Option Ping)
        → find_ping pp s.ping_q ≡ o
        → (elim o [
          | none ↦ false
          | some p ↦ leb (ntohl source) (ntohl p.end_ip) && leb (ntohl p.start_ip) (ntohl source)
        ])
          ≡ false
        → accept true now pp source s ≡ some s
    out none e h = rw (e, in_range, accept)
    out (some p) e h = rw (e, h, in_range, accept)

-- Any bytes from anybody: while malloc() gives memory the callback returns, and either nothing
-- changes, or the data points to a discovery in the queue whose range holds the sender, and the only
-- effect is that the sender is cached and a reply for it goes to the agent of that discovery.
pub handle_ping_recieve-Vetted :
    (now : Timeval) (mapped : Bool) (b : Buffer) (len source : ℕ) (s : Discovery)
    → IsBounded s.cache
    → (s' : Discovery) × (handle_ping_recieve true now mapped b len source s ≡ some s')
      × Vetted mapped b source s s'
unfolding handle_ping_recieve
handle_ping_recieve-Vetted now mapped b len source s k =
    elim (Bool-cases (ltb len (header_length b + icmp_minlen))) [
      | inl short ↦ (s, rw short, inl refl)
      | inr long ↦ elim (Bool-cases mapped) [
        | inl by_map ↦ (s, rw (long, by_map), inl refl)
        | inr not_mapped ↦ elim (Bool-cases (b (header_length b) == icmp_echoreply)) [
          | inr other ↦ (s, rw (long, not_mapped, other), inl refl)
          | inl echo ↦ elim (accept-cases now (pointer_at b (header_length b + 8)) source s k) [
            | inl same ↦ (s, rw (long, not_mapped, echo) same, inl refl)
            | inr (p, s', found, e, a) ↦
                (s', rw (long, not_mapped, echo) e, inr (p, found, not_mapped, ground arith, a))
          ]
        ]
      ]
    ]

-- The reply to a ping of a queued discovery, from a host of its range, which brings back what stood
-- behind the header of the packet that `ping_send` made, and which `handle_map` does not take: while
-- malloc() gives memory it is accepted for that discovery.
pub echo_reply-Accepted :
    (now : Timeval) (b : Buffer) (len source : ℕ) (packet : List ℕ) (p : Ping) (s : Discovery)
    → IsBounded s.cache
    → p.address < 2 ^ 64
    → find_ping p.address s.ping_q ≡ some p
    → InRange p source
    → header_length b + icmp_minlen ≤ len
    → b (header_length b) ≡ icmp_echoreply
    → ping_packet p.address ≡ some packet
    → Holds b (header_length b + 8) (skip 8 packet)
    → (s' : Discovery) × (handle_ping_recieve true now false b len source s ≡ some s')
      × Accepted p source s s'
unfolding handle_ping_recieve
echo_reply-Accepted now b len source packet p s k small found r long echo made data_there =
    let (s', e, a) = accept-Accepted now p.address source p s k found r in
    let enough : ltb len (header_length b + icmp_minlen) ≡ false = ground arith in
    let is_echo : (b (header_length b) == icmp_echoreply) ≡ true = ground arith in
    let carried =
      subst (Holds b (header_length b + 8)) (skip-ping_packet p.address packet made) data_there in
    let pp = pointer_at-bytes_of p.address b (header_length b + 8) small carried in
    (s', rw (enough, is_echo, pp) e, a)
