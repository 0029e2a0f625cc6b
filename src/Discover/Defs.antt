-- ===== src/Discover/Defs.antt =====
-- The queue of discoveries of agent-discover.c, with what its functions reach: the scheduler, the
-- cache of replies, the socket, and what was sent. Times in milliseconds are `unsigned int`, and
-- the product that computes them is taken to wrap.
use cheops_ng.Prelude.{
  ℕ, ◌+◌, ◌/◌, ◌%◌, ◌^◌, Bool, List, [], ◌∷◌, ◌++◌, Option, none, some, ltb, leb, ◌==◌, ◌&&◌, ◌||◌,
  if◌then◌else◌,
}
use cheops_ng.Prelude.Int.{ℤ, pos}
use cheops_ng.Prelude.Bytes.{ntohl, bytes_of}
use cheops_ng.IpUtils.Defs.{inet_checksum}
use cheops_ng.Sched.Defs.{Scheduler, Os, sched_add}
use cheops_ng.Cache.Defs.{Cache}

-- `struct ping_q`; the link `next` is the order of the queue. The addresses `start_ip` and `end_ip`
-- are in network byte order, `current` in that of the host.
pub record Ping : Type 0 where
  pub address : ℕ
  pub start_ip : ℕ
  pub end_ip : ℕ
  pub current : ℕ
  pub desched : ℤ
  pub retry : ℕ
  pub flags : ℕ
  pub np : ℕ
  pub time : ℕ
  pub agent : ℕ

-- A ping that was handed to sendto(), and a message of REPLY_DISCOVER_IPV4 to an agent.
pub record Sent : Type 0 where
  pub to : ℕ
  pub packet : Option (List ℕ)

pub record Reply : Type 0 where
  pub agent : ℕ
  pub ipaddr : ℕ
  pub flags : ℕ
  pub np : ℕ

-- The static variables, with the next pointer that malloc() will give, what was freed, and what was
-- sent so far, the last first.
pub record Discovery : Type 0 where
  pub ping_q : List Ping
  pub socket_open : Bool
  pub ping_retries : ℕ
  pub scheduler : Scheduler
  pub cache : Cache
  pub next : ℕ
  pub sent : List Sent
  pub replies : List Reply

-- What the system answers: to getprotobyname() and socket(), and to the n-th sendto().
pub record Net : Type 0 where
  pub os : Os
  pub protocol_known : Bool
  pub socket_given : Bool
  pub sendto : ℕ → ℤ

abbrev pub flag_force : ℕ → Bool
flag_force flags = flags % 2 == 1

-- `handle_set_settings` of agent-settings.c; the flag is SET_DISCOVER_RETRIES.
unfoldable pub handle_set_settings : ℕ → ℕ → Discovery → Discovery
handle_set_settings flags discover_retries s =
    if flags % 2 == 1 then record s { ping_retries = discover_retries } else s

abbrev pub ping_send_callback : ℕ
ping_send_callback = 1

-- `remove_ping_q` without its result.
unfoldable pub remove_ping : ℕ → List Ping → List Ping
remove_ping a [] = []
remove_ping a (p ∷ q) = let rest = remove_ping a q in if p.address == a then q else p ∷ rest

unfoldable pub remove_ping_q : ℕ → Discovery → Discovery
unfolding remove_ping
remove_ping_q a s = record s { ping_q = remove_ping a s.ping_q }

-- `in_ping_q`, with what the pointer leads to.
unfoldable pub find_ping : ℕ → List Ping → Option Ping
find_ping a [] = none
find_ping a (p ∷ q) = let rest = find_ping a q in if p.address == a then some p else rest

-- `in_ping_q_range`, likewise; `ip` is in network byte order.
unfoldable pub in_range : ℕ → ℕ → List Ping → Option Ping
unfolding find_ping
in_range a ip q = elim (find_ping a q) [
  | none ↦ none
  | some p ↦
      if leb (ntohl ip) (ntohl p.end_ip) && leb (ntohl p.start_ip) (ntohl ip) then some p else none
]

-- The fields of `*pp` as they are after a change through the pointer.
unfoldable pub write_back : Ping → List Ping → List Ping
write_back p [] = []
write_back p (x ∷ q) =
    let rest = write_back p q in if x.address == p.address then p ∷ q else x ∷ rest

-- `send_discover_reply`; `ip` is in network byte order.
unfoldable pub send_discover_reply : ℕ → Ping → Discovery → Discovery
send_discover_reply ip p s = record s {
  replies = record { agent = p.agent; ipaddr = ntohl ip; flags = p.flags; np = p.np } ∷ s.replies;
}

-- The bytes of the echo request: the checksum is filled in, and the pointer is copied over the
-- identifier, where it covers the sequence number too, and then to the data.
abbrev pub echo : ℕ → ℕ → List ℕ
echo address checksum =
    8 ∷ 0 ∷ checksum % 2 ^ 8 ∷ checksum / 2 ^ 8 ∷ (bytes_of 4 address ++ bytes_of 8 address)

unfoldable pub ping_packet : ℕ → Option (List ℕ)
unfolding inet_checksum bytes_of
ping_packet address = elim (inet_checksum (echo address 0)) [
  | none ↦ none
  | some c ↦ some (echo address c)
]

-- What `handle_discover_request` returns or sends: a refusal with one of its texts and the result of
-- event_send(), or its result -1 with the request queued; or the exit when memory is out.
pub data Answer : Type 0 where
  refused_zero : Answer
  refused_order : Answer
  queued : Discovery → Answer
  out_of_memory : Answer

abbrev pub enqueue_ping : Os → Ping → Discovery → Discovery
enqueue_ping os p s =
    let (id, scheduler) = sched_add os (pos 1) ping_send_callback p.address s.scheduler in
    record s {
      ping_q = record p { desched = id } ∷ s.ping_q;
      scheduler = scheduler;
      next = s.next + 1;
    }

-- The arguments are the fields of the event as they came. The later test wins where both fail.
unfoldable pub handle_discover_request : Os → Bool → ℕ → ℕ → ℕ → ℕ → ℕ → Discovery → Answer
unfolding sched_add
handle_discover_request os memory event_start event_end flags np agent s =
    let start = ntohl event_start in
    let finish = ntohl event_end in
    if ltb (ntohl finish) (ntohl start)
    then refused_order
    else (if start == 0 || finish == 0
        then refused_zero
        else (if memory
            then queued (
                enqueue_ping os
                  (record {
                    address = s.next;
                    start_ip = start;
                    end_ip = finish;
                    current = ntohl start;
                    desched = pos 0;
                    retry = 0;
                    flags = flags;
                    np = np;
                    time = 0;
                    agent = agent;
                  })
                  s)
            else out_of_memory))
