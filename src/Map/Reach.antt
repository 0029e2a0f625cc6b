-- ===== src/Map/Reach.antt =====
-- Every history of the tracing: requests, timeouts and packets.
use cheops_ng.Prelude.{
  IsDistinct, ℕ, ◌+◌, ◌<◌, ◌≡◌, refl, true, Bool-cases, inl, inr, List, [], ◌∷◌, ltb, ◌==◌, All,
  All-map, arith, subst, sym,
}
use cheops_ng.Prelude.Bytes.{ntohl}
use cheops_ng.Prelude.Int.{ℤ, pos, eqb_ℤ}
use cheops_ng.Sched.Defs.{Scheduler, Os, sched_add}
use cheops_ng.Discover.Receive.{Buffer}
use cheops_ng.Map.Defs.{
  handle_map_icmp_request, Request, Trace, Mapper, map_timeout_max, map_timeout_callback, probed,
  probe_trace, has_request, new_request, expire, map_timeout, start_mapping,
}
use cheops_ng.Map.Packets.{
  icmp_minlen, header_at, dest_at, arrive, time_exceeded, last_hop, handle_map,
}
use cheops_ng.Map.Trail.{addresses, IsTraced}
use cheops_ng.Map.Kept.{
  All-hop, hop-IsDistinct, All-arrive, arrive-IsDistinct, All-expire, expire-IsDistinct,
}
use cheops_ng.Map.Traced.{hop-IsTraced, arrive-IsTraced, traced-as, expire-links, expire-IsTraced}
use cheops_ng.Map.Within.{
  IsWithin, links_of-fresh, probe_trace-IsWithin, hop-IsWithin, arrive-IsWithin, expire-IsWithin,
}

module _ (local_ip : ℕ → ℕ) where
  -- The requests have distinct pointers that malloc() gave, the links of each are the path from this
  -- host to the last hop, and no probe was sent over more than 60 hops.
  pub record IsTracing (s : Mapper) : Type 0 where
    pub traced : All (IsTraced local_ip s.trace.links) s.mrq
    pub distinct : IsDistinct (addresses s.mrq)
    pub fresh : All (λ a. a < s.next) (addresses s.mrq)
    pub within : IsWithin s.next s.trace

  module _ (time : ℕ → ℕ) where
    time_exceeded-IsTracing :
        (source : ℕ) (b : Buffer) (len : ℕ) (s : Mapper)
        → IsTracing s
        → IsTracing (time_exceeded time source b len s)
    unfolding time_exceeded
    time_exceeded-IsTracing source b len s v =
        let at = header_at b 0 + icmp_minlen in
        let dest = dest_at b at in
        elim (Bool-cases (ltb len (at + header_at b at + icmp_minlen))) [
          | inl short ↦ rw short v
          | inr whole ↦ rw whole record {
            traced = hop-IsTraced local_ip time source dest true s.mrq s.trace v.distinct v.traced;
            distinct = hop-IsDistinct time source dest true s.mrq s.trace v.distinct;
            fresh = All-hop time source _ dest true s.mrq s.trace v.fresh;
            within = hop-IsWithin time source s.next dest true s.mrq s.trace v.fresh v.within;
          }
        ]

    last_hop-IsTracing :
        (source : ℕ) (b : Buffer) (len at : ℕ) (s : Mapper)
        → IsTracing s
        → IsTracing (last_hop time source b len at s).1
    unfolding last_hop
    last_hop-IsTracing source b len at s v =
        let final : IsTracing (record s {
          mrq = (arrive time source true s.mrq s.trace).1;
          trace = (arrive time source true s.mrq s.trace).2;
        }) =
          record {
            traced = arrive-IsTraced local_ip time source true s.mrq s.trace v.distinct v.traced;
            distinct = arrive-IsDistinct time source true s.mrq s.trace v.distinct;
            fresh = All-arrive time source _ true s.mrq s.trace v.fresh;
            within = arrive-IsWithin time source s.next true s.mrq s.trace v.fresh v.within;
          } in
        ground (arith)

    handle_map-IsTracing :
        (source : ℕ) (b : Buffer) (len : ℕ) (s : Mapper)
        → IsTracing s
        → IsTracing (handle_map time source b len s).1
    unfolding handle_map
    handle_map-IsTracing source b len s v =
        let inner = header_at b 0 + icmp_minlen in
        let exceeded = time_exceeded-IsTracing source b len s v in
        let unreachable = last_hop-IsTracing source b len inner s v in
        let echoed = last_hop-IsTracing source b len 0 s v in ground (arith)

    ticked : Trace → Trace
    ticked t = record t { ticks = t.ticks + 1 }

    map_timeout-IsTracing : (s : Mapper) → IsTracing s → IsTracing (map_timeout time s).1
    unfolding map_timeout ticked
    map_timeout-IsTracing s v = on s.mrq refl
      where
        current : ℕ
        current = time s.trace.ticks

        t : Trace
        t = ticked s.trace

        after : Request → List Request → List Request × Trace
        after m ms = expire time current map_timeout_max true (m ∷ ms) t

        owned : IsWithin s.next t
        owned = record { owners = v.within.owners; probes = v.within.probes }

        on : (ms : List Request) → s.mrq ≡ ms → IsTracing (map_timeout time s).1
        on [] e = rw e record { traced = tt; distinct = tt; fresh = tt; within = owned }
        on (m ∷ ms) e = rw e record {
          traced =
              traced-as local_ip time t (after m ms).1 (after m ms).0
                (expire-links local_ip time current map_timeout_max true (m ∷ ms) t)
                (expire-IsTraced local_ip time current t.links map_timeout_max true (m ∷ ms) t
                  (rw e at v.traced));
          distinct =
              expire-IsDistinct time current map_timeout_max true (m ∷ ms) t (rw e at v.distinct);
          fresh = All-expire time current _ map_timeout_max true (m ∷ ms) t (rw e at v.fresh);
          within =
              expire-IsWithin time local_ip t.links s.next current map_timeout_max true (m ∷ ms) t
                (rw e at v.traced) owned;
        }

    start_mapping-IsTracing :
        (os : Os) (ip agent np : ℕ) (s : Mapper)
        → IsTracing s
        → IsTracing (start_mapping time os local_ip ip agent np s)
    unfolding start_mapping
    start_mapping-IsTracing os ip agent np s v = elim (Bool-cases (local_ip ip == ip)) [
      | inl own ↦ rw own v
      | inr other ↦ elim (Bool-cases (has_request ip np s.mrq)) [
        | inl known ↦ rw (other, known) v
        | inr absent ↦ elim (Bool-cases (eqb_ℤ s.timeout_installed (pos 0))) [
          | inl off ↦
              rw (other, absent, off)
                (added (sched_add os (pos 100) map_timeout_callback 0 s.scheduler).0
                  (sched_add os (pos 100) map_timeout_callback 0 s.scheduler).1)
          | inr active ↦ rw (other, absent, active) (added s.timeout_installed s.scheduler)
        ]
      ]
    ]
      where
        m : Request
        m = new_request s.next ip (local_ip ip) agent np

        added :
            (installed : ℤ) (scheduler : Scheduler)
            → IsTracing (record s {
              mrq = probed time m s.trace ∷ s.mrq;
              timeout_installed = installed;
              scheduler = scheduler;
              next = s.next + 1;
              trace = probe_trace time m s.trace;
            })
        added installed scheduler = record {
          traced = (
            record {
              path = rw (links_of-fresh s.next s.trace.links v.within.owners) refl;
              started = omega arith;
              bounded = omega arith;
            },
            v.traced,
          );
          distinct =
              (All-map _ _ (addresses s.mrq) (λ a lt. ground (arith, lt)) v.fresh, v.distinct);
          fresh = (omega arith, All-map _ _ (addresses s.mrq) (λ a lt. omega (arith, lt)) v.fresh);
          within =
              probe_trace-IsWithin time (s.next + 1) m s.trace (omega arith) (omega arith) record {
                owners = All-map _ _ s.trace.links (λ l lt. omega (arith, lt)) v.within.owners;
                probes = v.within.probes;
              };
        }

    -- A step: a request of an agent, the timeout by the scheduler, or a packet.
    pub data Step (s s' : Mapper) : Type 0 where
      request :
          (os : Os) (event_ip agent np : ℕ)
          → s' ≡ handle_map_icmp_request time os local_ip event_ip agent np s
          → Step s s'
      timeout : s' ≡ (map_timeout time s).1 → Step s s'
      packet :
          (source : ℕ) (b : Buffer) (len : ℕ) → s' ≡ (handle_map time source b len s).1 → Step s s'

    pub data Reach (start : Mapper) : Mapper → Type 0 where
      here : Reach start start
      next : {s s' : Mapper} → Reach start s → Step s s' → Reach start s'

    Step-IsTracing : (s s' : Mapper) → Step s s' → IsTracing s → IsTracing s'
    unfolding handle_map_icmp_request
    Step-IsTracing s s' (request os event_ip agent np e) v =
        subst IsTracing (sym e) (start_mapping-IsTracing os (ntohl event_ip) agent np s v)
    Step-IsTracing s s' (timeout e) v = subst IsTracing (sym e) (map_timeout-IsTracing s v)
    Step-IsTracing s s' (packet source b len e) v =
        subst IsTracing (sym e) (handle_map-IsTracing source b len s v)

    -- After any requests, timeouts and packets, whatever their bytes and lengths and the times that
    -- time() gave: the links that were reported for each request in the list are a path from the
    -- address of this host to the last hop, no request or probe is over 60 hops, and the pointers are
    -- distinct ones that malloc() gave, if it was so at the start.
    pub Reach-IsTracing : (start s : Mapper) → Reach start s → IsTracing start → IsTracing s
    Reach-IsTracing start s here v = v
    Reach-IsTracing start s (next r step) v = Step-IsTracing _ s step (Reach-IsTracing start _ r v)
