-- ===== src/Discover/Send.antt =====
-- `ping_send` of agent-discover.c: one ping, or the end of the discovery.
use cheops_ng.Prelude.{
  ℕ, zero, suc, ◌+◌, ◌-◌, ◌%◌, ◌^◌, Bool, true, false, not, ◌∷◌, Option, none, some, ltb, ◌==◌,
  ◌&&◌, ◌||◌, if◌then◌else◌, length,
}
use cheops_ng.Prelude.Int.{pos, ◌+ℤ◌, scale, quot, pos_part, neg_part, ltb_ℤ}
use cheops_ng.Prelude.Bytes.{ntohl}
use cheops_ng.IpUtils.Address.{
  ip_class_a, ip_class_b, ip_class_c, ip_class_a_broadcast, ip_class_b_broadcast,
  ip_class_c_broadcast,
}
use cheops_ng.Sched.Time.{Timeval}
use cheops_ng.Sched.Defs.{Scheduler, Os, read_clock, sched_add}
use cheops_ng.Cache.Defs.{in_cache}
use cheops_ng.Discover.Defs.{
  Ping, Discovery, Net, flag_force, ping_send_callback, remove_ping_q, find_ping, write_back,
  send_discover_reply, ping_packet,
}

-- Whether the address, in network byte order, is the broadcast address of a network of its class.
unfoldable pub is_broadcast : ℕ → Bool
unfolding ip_class_a ip_class_b ip_class_c ip_class_a_broadcast ip_class_b_broadcast
    ip_class_c_broadcast
is_broadcast x =
    if ip_class_a x && ip_class_a_broadcast x
    then true
    else (if ip_class_b x && ip_class_b_broadcast x
        then true
        else ip_class_c x && ip_class_c_broadcast x)

-- The next address, or the first one of the next pass.
unfoldable pub advance : Ping → Ping
advance p =
    if p.current == ntohl p.end_ip
    then record p { current = ntohl p.start_ip; retry = (p.retry + 1) % 2 ^ 32 }
    else record p { current = (p.current + 1) % 2 ^ 32 }

-- The end of a turn of the loop: it goes on, with the failures of sendto() so far, or a ping was
-- sent, or all passes are over, or the program exits.
pub data Turn : Type 0 where
  again : Ping → ℕ → Discovery → Turn
  leave : Ping → Discovery → Turn
  expired : Discovery → Turn
  exit : Turn

-- The socket is opened at the first ping.
abbrev pub open_socket : Net → Discovery → Option Discovery
open_socket net s =
    if s.socket_open
    then some s
    else (if net.protocol_known && net.socket_given
        then some (record s { socket_open = true })
        else none)

abbrev pub send_ping : Net → Ping → Discovery → Discovery
send_ping net p s = record s {
  sent = record { to = ntohl p.current; packet = ping_packet p.address } ∷ s.sent;
}

-- An address that may be pinged. A failing sendto() is tried four times more.
unfoldable pub try_ping : Net → ℕ → Ping → Discovery → Turn
unfolding is_broadcast advance
try_ping net failures p s =
    if is_broadcast (ntohl p.current)
    then again (advance p) failures s
    else (if ltb_ℤ (net.sendto (length s.sent)) (pos 0) && ltb failures 4
        then again p (failures + 1) (send_ping net p s)
        else leave (advance p) (send_ping net p s))

unfoldable pub turn : Net → ℕ → Ping → Discovery → Turn
unfolding try_ping remove_ping_q in_cache send_discover_reply advance
turn net failures p s =
    if ltb s.ping_retries p.retry
    then expired (remove_ping_q p.address s)
    else (if flag_force p.flags || not (in_cache (ntohl p.current) s.cache)
        then (elim (open_socket net s) [ none ↦ exit | some s' ↦ try_ping net failures p s' ])
        else again (advance p) failures
            (if p.retry == 0 then send_discover_reply (ntohl p.current) p s else s))

-- The loop, with fuel for its turns.
pub data Loop : Type 0 where
  left : Ping → Discovery → Loop
  over : Discovery → Loop
  exited : Loop
  no_fuel : Loop

unfoldable pub send_loop : Net → ℕ → ℕ → Ping → Discovery → Loop
unfolding turn
send_loop net zero failures p s = no_fuel
send_loop net (suc fuel) failures p s = elim (turn net failures p s) [
  | again p' failures' s' ↦ send_loop net fuel failures' p' s'
  | leave p' s' ↦ left p' s'
  | expired s' ↦ over s'
  | exit ↦ exited
]

abbrev pub ping_timeout_interval : ℕ
ping_timeout_interval = 3000

abbrev pub ping_interval : ℕ
ping_interval = 78

-- The milliseconds of a time, in an `unsigned int`.
unfoldable pub wrap_ms : Timeval → ℕ
wrap_ms t =
    let ms = scale t.sec 1000 +ℤ quot t.usec 1000 in
    (pos_part ms + (2 ^ 32 - neg_part ms % 2 ^ 32)) % 2 ^ 32

-- The time until the last address of a pass, `ms` being the time now. The differences are unsigned,
-- so that no test for a negative one holds.
unfoldable pub last_delay : ℕ → ℕ → ℕ
last_delay time ms =
    let elapsed = (ms + 2 ^ 32 - time) % 2 ^ 32 in
    if time == 0
    then ping_timeout_interval
    else (if ltb ping_timeout_interval elapsed then 1 else ping_timeout_interval - elapsed)

-- gettimeofday(), whose result is not looked at: where it fails the time is taken for 0.
abbrev pub now_ms : Os → Scheduler → ℕ × Scheduler
now_ms os s = let (tv, s') = read_clock os s in (elim tv [ none ↦ 0 | some t ↦ wrap_ms t ], s')

abbrev pub schedule_ping : Os → ℕ → Ping → Discovery → Scheduler → Discovery
schedule_ping os ms p s scheduler = record s {
  scheduler = (sched_add os (pos ms) ping_send_callback p.address scheduler).1;
  ping_q = write_back p s.ping_q;
}

-- Behind the loop. `true` asks the scheduler to run the entry again, at its old delay.
unfoldable pub reschedule : Os → Ping → Discovery → Bool × Discovery
reschedule os p s =
    let (ms, read) = now_ms os s.scheduler in
    if p.current == ntohl p.end_ip
    then (if ltb s.ping_retries p.retry
        then (false, schedule_ping os ping_timeout_interval p s s.scheduler)
        else (false, schedule_ping os (last_delay p.time ms) p s read))
    else (if p.current == ntohl p.start_ip
        then (false, schedule_ping os ping_interval (record p { time = ms }) s read)
        else (true, record s { ping_q = write_back p s.ping_q }))

-- The callback at a pointer. `dangling` is the use of a pointer that is in the queue no more.
pub data Result : Type 0 where
  done : Bool → Discovery → Result
  exit : Result
  no_fuel : Result
  dangling : Result

unfoldable pub ping_send : Net → ℕ → ℕ → Discovery → Result
unfolding find_ping send_loop reschedule
ping_send net fuel a s = elim (find_ping a s.ping_q) [
  | none ↦ dangling
  | some p ↦ elim (send_loop net fuel 0 p s) [
    | left p' s' ↦ let (more, s'') = reschedule net.os p' s' in done more s''
    | over s' ↦ done false s'
    | exited ↦ exit
    | no_fuel ↦ no_fuel
  ]
]
