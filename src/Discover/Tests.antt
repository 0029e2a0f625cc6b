-- ===== src/Discover/Tests.antt =====
-- The discovery on concrete inputs, and its theorems at them.
use cheops_ng.Prelude.{
  ℕ, ◌+◌, ◌≤◌, ◌<◌, ◌≡◌, ◌⊎◌, refl, true, false, List, [], ◌∷◌, some, arith, map, ◌==◌,
  if◌then◌else◌,
}
use cheops_ng.Prelude.Int.{pos, ◌+ℤ◌, scale, quot}
use cheops_ng.Prelude.Bytes.{ntohl, bytes_of, skip}
use cheops_ng.IpUtils.Address.{
  ip_class_a, ip_class_b, ip_class_c, ip_class_a_broadcast, ip_class_b_broadcast,
  ip_class_c_broadcast,
}
use cheops_ng.Sched.Time.{Timeval}
use cheops_ng.Sched.Defs.{initial, sched_add, read_clock}
use cheops_ng.Cache.Defs.{empty, add_to_cache, in_cache, find_ptr}
use cheops_ng.Cache.Bound.{IsBounded}
use cheops_ng.Discover.Defs.{
  Ping, Sent, Discovery, Net, queued, refused_zero, refused_order, handle_discover_request,
  find_ping, in_range, send_discover_reply, remove_ping_q, write_back, ping_send_callback,
  ping_packet,
}
use cheops_ng.Discover.Send.{
  advance, is_broadcast, try_ping, turn, send_loop, reschedule, wrap_ms, Result, done, ping_send,
  last_delay,
}
use cheops_ng.Discover.Receive.{Buffer, accept, pointer_at, handle_ping_recieve}
use cheops_ng.Discover.Range.{remaining}
use cheops_ng.Discover.Queue.{IsValid}
use cheops_ng.Discover.Ends.{Pinged, ping_send-Pinged}
use cheops_ng.Discover.Vetting.{Vetted, Accepted, handle_ping_recieve-Vetted, echo_reply-Accepted}
use cheops_ng.Discover.Requests.{request-cases}
use cheops_ng.Discover.Reach.{here, next, packet, Inv, Reach-Inv}

abbrev at : ℕ → Timeval
at s = record { sec = pos s; usec = pos 0 }

-- A clock that stands at nine seconds, and a sendto() that never fails.
abbrev net : Net
net = record {
  os = record { gettimeofday = λ n. some (at 9); malloc = λ n. true };
  protocol_known = true;
  socket_given = true;
  sendto = λ n. pos 16;
}

-- 192.168.0.254 and 192.168.1.1 as a host reads them.
abbrev first : ℕ
first = 3232235774

abbrev last : ℕ
last = 3232235777

abbrev ping : ℕ → ℕ → ℕ → Ping
ping current retry time = record {
  address = 77;
  start_ip = 4261456064;
  end_ip = 16885952;
  current = current;
  desched = pos 1;
  retry = retry;
  flags = 0;
  np = 5;
  time = time;
  agent = 501;
}

abbrev discovering : Ping → Discovery
discovering p = record {
  ping_q = p ∷ [];
  socket_open = false;
  ping_retries = 1;
  scheduler = initial;
  cache = empty;
  next = 100;
  sent = [];
  replies = [];
}

discovering-IsValid : IsValid (discovering (ping first 0 0))
unfolding ntohl
discovering-IsValid = record {
  pings = (record { low = omega arith; high = omega arith }, tt);
  distinct = (tt, tt);
  fresh = (omega arith, tt);
}

byte_order : ntohl 4261456064 ≡ first
unfolding ntohl
byte_order = refl

-- From 192.168.0.255 on, the broadcast addresses of two networks are passed over.
abbrev targets : Result → List ℕ
targets (done more s) = map (λ (x : Sent). ntohl x.to) s.sent
targets other = []

skips_broadcasts : targets (ping_send net 9 77 (discovering (ping (first + 1) 0 0))) ≡ last ∷ []
unfolding ping_send find_ping send_loop turn try_ping is_broadcast ip_class_a ip_class_b ip_class_c
    ip_class_a_broadcast ip_class_b_broadcast ip_class_c_broadcast advance in_cache find_ptr
    remove_ping_q reschedule write_back ntohl read_clock sched_add wrap_ms last_delay ◌+ℤ◌ scale
    quot
skips_broadcasts = refl

ping_send-Pinged_example :
    Pinged net
      (ping first 0 0)
      (discovering (ping first 0 0))
      (ping_send net 20 77 (discovering (ping first 0 0)))
unfolding find_ping remaining ntohl
ping_send-Pinged_example =
    ping_send-Pinged net 20 77 (ping first 0 0) (discovering (ping first 0 0)) discovering-IsValid
      refl (omega arith) (omega arith)

request-cases_example :
    ((last < first)
      × (handle_discover_request net.os true first last 0 5 501 (discovering (ping first 0 0))
          ≡ refused_order))
    ⊎ ((first ≤ last)
        × ((first ≡ 0) ⊎ (last ≡ 0))
        × (handle_discover_request net.os true first last 0 5 501 (discovering (ping first 0 0))
            ≡ refused_zero))
    ⊎ ((p : Ping) × (s' : Discovery) × (0 < first)
        × (first ≤ last)
        × (handle_discover_request net.os true first last 0 5 501 (discovering (ping first 0 0))
            ≡ queued s')
        × IsValid s'
        × (s'.ping_q ≡ p ∷ ping first 0 0 ∷ [])
        × ((ntohl p.start_ip ≡ first) × (ntohl p.end_ip ≡ last) × (p.current ≡ first))
        × ((p.retry ≡ 0) × (p.flags ≡ 0) × (p.np ≡ 5) × (p.agent ≡ 501))
        × (s'.scheduler ≡ (sched_add net.os (pos 1) ping_send_callback 100 initial).1)
        × ((s'.sent ≡ []) × (s'.replies ≡ []) × (s'.cache ≡ empty) × (s'.ping_retries ≡ 1)))
request-cases_example =
    request-cases net.os first last 0 5 501 (discovering (ping first 0 0)) (omega arith)
      (omega arith) discovering-IsValid

-- The reply to a ping: an IP header of 20 bytes, an ICMP header of 8, and the pointer 77.
abbrev answer : Buffer
answer i = if i == 0 then 0x45 else (if i == 28 then 77 else 0)

empty-IsBounded : IsBounded empty
empty-IsBounded = omega arith

handle_ping_recieve-Vetted_example :
    (s' : Discovery) × (handle_ping_recieve true
        (at 9)
        false
        answer
        36
        16885952
        (discovering (ping first 0 0))
      ≡ some s')
    × Vetted false answer 16885952 (discovering (ping first 0 0)) s'
handle_ping_recieve-Vetted_example =
    handle_ping_recieve-Vetted (at 9) false answer 36 16885952 (discovering (ping first 0 0))
      empty-IsBounded

-- The packet of the discovery at 77.
abbrev ping_bytes : List ℕ
ping_bytes = 8 ∷ 0 ∷ 93 ∷ 255 ∷ 77 ∷ 0 ∷ 0 ∷ 0 ∷ 77 ∷ 0 ∷ 0 ∷ 0 ∷ 0 ∷ 0 ∷ 0 ∷ 0 ∷ []

ping_made : ping_packet 77 ≡ some ping_bytes
unfolding ping_packet
ping_made = refl

echo_reply-Accepted_example :
    (s' : Discovery) × (handle_ping_recieve true
        (at 9)
        false
        answer
        36
        16885952
        (discovering (ping first 0 0))
      ≡ some s')
    × Accepted (ping first 0 0) 16885952 (discovering (ping first 0 0)) s'
unfolding find_ping ntohl bytes_of skip
echo_reply-Accepted_example =
    echo_reply-Accepted (at 9) answer 36 16885952 ping_bytes (ping first 0 0)
      (discovering (ping first 0 0)) empty-IsBounded (omega arith) refl (omega arith, omega arith)
      (omega arith) refl ping_made
      (refl, (refl, (refl, (refl, (refl, (refl, (refl, (refl, tt))))))))

discovering-Inv : Inv net (discovering (ping first 0 0))
discovering-Inv = record {
  valid = discovering-IsValid;
  bounded = empty-IsBounded;
  single = tt;
  retries = omega arith;
}

-- What the packet leaves, which is a step of a history.
Reach-Inv_example : Inv net (
    send_discover_reply 16885952 (ping first 0 0) (record (discovering (ping first 0 0)) {
      cache = record {
        entries = record { data_ptr = 16885952; tv = at 9 } ∷ [];
        count = 1;
        destroyed = [];
      };
    }))
unfolding handle_ping_recieve accept in_range find_ping add_to_cache ntohl pointer_at
Reach-Inv_example =
    Reach-Inv net {start = discovering (ping first 0 0)} discovering-Inv
      (next here (packet (at 9) false answer 36 16885952 refl))
