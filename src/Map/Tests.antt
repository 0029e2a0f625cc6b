-- ===== src/Map/Tests.antt =====
-- The tracing on concrete inputs, and its theorems at them.
use cheops_ng.Prelude.{ℕ, zero, suc, ◌*◌, ◌≡◌, ◌≢◌, refl, true, false, List, [], ◌∷◌, some, All}
use cheops_ng.Prelude.Bytes.{ntohl}
use cheops_ng.Prelude.Int.{pos}
use cheops_ng.Sched.Defs.{initial, Os}
use cheops_ng.Discover.Receive.{Buffer, word_at}
use cheops_ng.Map.Defs.{handle_map_icmp_request, Mapper, start_mapping}
use cheops_ng.Map.Packets.{dest_at, last_ttl, handle_map}
use cheops_ng.Map.Reach.{IsTracing, here, next, request, packet, Reach, Reach-IsTracing}
use cheops_ng.Map.Trail.{IsArrived}
use cheops_ng.Map.Arrival.{handle_map-IsArrived}

abbrev bytes : List ℕ → Buffer
bytes [] i = 0
bytes (x ∷ l) zero = x
bytes (x ∷ l) (suc i) = bytes l i

abbrev ticking : ℕ → ℕ
ticking n = 100 * n

abbrev os : Os
os = record { gettimeofday = λ n. some record { sec = pos 9; usec = pos 0 }; malloc = λ n. true }

-- This host is 1, the router 2, and the host that is traced 4.
abbrev local_ip : ℕ → ℕ
local_ip ip = 1

abbrev expired : Buffer
expired = bytes (
    69 ∷ 0 ∷ 0 ∷ 0 ∷ 0 ∷ 0 ∷ 0 ∷ 0 ∷ 0 ∷ 1 ∷ 0 ∷ 0 ∷ 2 ∷ 0 ∷ 0 ∷ 0 ∷ 1 ∷ 0 ∷ 0 ∷ 0 ∷ 11 ∷ 0 ∷ 0 ∷ 0
    ∷ 0 ∷ 0 ∷ 0 ∷ 0 ∷ 69 ∷ 0 ∷ 0 ∷ 0 ∷ 0 ∷ 0 ∷ 0 ∷ 0 ∷ 0 ∷ 1 ∷ 0 ∷ 0 ∷ 1 ∷ 0 ∷ 0 ∷ 0 ∷ 4 ∷ [])

abbrev echoed : Buffer
echoed = bytes (
    69 ∷ 0 ∷ 0 ∷ 0 ∷ 0 ∷ 0 ∷ 0 ∷ 0 ∷ 0 ∷ 1 ∷ 0 ∷ 0 ∷ 4 ∷ 0 ∷ 0 ∷ 0 ∷ 1 ∷ 0 ∷ 0 ∷ 0 ∷ 0 ∷ 0 ∷ 0 ∷ 0
    ∷ 0 ∷ 0 ∷ 0 ∷ 2 ∷ [])

abbrev idle : Mapper
idle = record {
  mrq = [];
  timeout_installed = pos 0;
  scheduler = initial;
  next = 100;
  trace = record { links = []; probes = []; freed = []; ticks = 0 };
}

abbrev asked : Mapper
asked = start_mapping ticking os local_ip 4 7 5 idle

abbrev one_hop : Mapper
one_hop = (handle_map ticking 2 expired 56 asked).1

abbrev traced : Mapper
traced = (handle_map ticking 4 echoed 28 one_hop).1

two_links :
    traced.trace.links
    ≡ record { owner = 100; agent = 7; np = 5; dest = 4; ip1 = 2; ip2 = 4 }
      ∷ record { owner = 100; agent = 7; np = 5; dest = 4; ip1 = 1; ip2 = 2 }
      ∷ []
unfolding handle_map start_mapping dest_at word_at last_ttl
two_links = refl

two_probes : one_hop.trace.probes ≡ record { dest = 4; ttl = 2 } ∷ record { dest = 4; ttl = 1 } ∷ []
unfolding handle_map start_mapping dest_at word_at last_ttl
two_probes = refl

idle-IsTracing : IsTracing local_ip idle
idle-IsTracing = record {
  traced = tt;
  distinct = tt;
  fresh = tt;
  within = record { owners = tt; probes = tt };
}

tracing : Reach local_ip ticking idle traced
unfolding handle_map_icmp_request ntohl
tracing =
    next (next (next here (request os 67108864 7 5 refl)) (packet 2 expired 56 refl))
      (packet 4 echoed 28 refl)

hopping : Reach local_ip ticking idle one_hop
unfolding handle_map_icmp_request ntohl
hopping = next (next here (request os 67108864 7 5 refl)) (packet 2 expired 56 refl)

one_hop-IsTracing : IsTracing local_ip one_hop
one_hop-IsTracing = Reach-IsTracing local_ip ticking idle one_hop hopping idle-IsTracing

Reach-IsTracing_example : IsTracing local_ip traced
Reach-IsTracing_example = Reach-IsTracing local_ip ticking idle traced tracing idle-IsTracing

arrived : handle_map ticking 4 echoed 28 one_hop ≡ (true, traced)
unfolding handle_map start_mapping dest_at word_at last_ttl
arrived = refl

handle_map-IsArrived_example :
    All (IsArrived local_ip 4 traced.trace.links) one_hop.mrq × All (λ m. m.dest ≢ 4) traced.mrq
handle_map-IsArrived_example =
    handle_map-IsArrived ticking local_ip 4 echoed 28 one_hop traced one_hop-IsTracing arrived

foreign : (handle_map ticking 3 echoed 28 one_hop).0 ≡ false
unfolding handle_map start_mapping dest_at word_at last_ttl
foreign = refl
