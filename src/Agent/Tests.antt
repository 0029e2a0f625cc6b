-- ===== src/Agent/Tests.antt =====
-- The receiving of packets on concrete inputs.
use cheops_ng.Prelude.{◌⊎◌, ◌≡◌, true, [], ◌∷◌, some, ◌==◌, if◌then◌else◌, arith}
use cheops_ng.Prelude.Int.{pos}
use cheops_ng.Sched.Defs.{initial}
use cheops_ng.Sched.Time.{Timeval}
use cheops_ng.Cache.Defs.{empty}
use cheops_ng.Discover.Defs.{Discovery}
use cheops_ng.Discover.Receive.{Buffer}
use cheops_ng.Map.Defs.{Mapper}
use cheops_ng.Agent.{receive, receive-apart}

abbrev now : Timeval
now = record { sec = pos 9; usec = pos 0 }

-- One discovery of the addresses 4 to 4, and a trace of a host 6.
abbrev discovery : Discovery
discovery = record {
  ping_q =
      record {
        address = 77;
        start_ip = 4;
        end_ip = 4;
        current = 67108864;
        desched = pos 1;
        retry = 0;
        flags = 0;
        np = 5;
        time = 0;
        agent = 7;
      }
      ∷ [];
  socket_open = true;
  ping_retries = 1;
  scheduler = initial;
  cache = empty;
  next = 100;
  sent = [];
  replies = [];
}

abbrev mapper : Mapper
mapper = record {
  mrq =
      record { address = 90; np = 5; dest = 6; last = 1; ttl = 1; retries = 1; sent = 0; agent = 7 }
      ∷ [];
  timeout_installed = pos 1;
  scheduler = initial;
  next = 100;
  trace = record { links = []; probes = []; freed = []; ticks = 0 };
}

-- An echo reply with the pointer 77.
abbrev answer : Buffer
answer i = if i == 0 then 0x45 else (if i == 28 then 77 else 0)

receive-apart_example :
    (m' : Mapper) × (d' : Discovery) × (receive (λ n. n) true now answer 36 4 mapper discovery
      ≡ some (m', d'))
    × ((m' ≡ mapper) ⊎ (d' ≡ discovery))
receive-apart_example = receive-apart (λ n. n) now answer 36 4 mapper discovery (omega arith)
