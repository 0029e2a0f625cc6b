-- ===== src/Map/Arrival.antt =====
-- The end of a tracing: the answer of the host itself, the bound of a timeout, and repeated requests.
use cheops_ng.Prelude.{
  ◌↔◌, ℕ, zero, suc, ◌+◌, ◌≤◌, ◌<◌, ◌≡◌, ◌≢◌, refl, Bool, true, false, Bool-cases, inl, inr, List,
  [], ◌∷◌, length, ltb, leb, ◌==◌, All, All-map, arith, ap, ap₂, subst, sym,
}
use cheops_ng.Sched.Defs.{Os}
use cheops_ng.Discover.Receive.{Buffer}
use cheops_ng.Map.Defs.{
  Request, Trace, Mapper, map_max, map_timeout_max, map_request_timeout, max_map_request_retries,
  map_connect, drop_request, probed, probe_trace, has_request, expire, map_timeout, start_mapping,
}
use cheops_ng.Map.Packets.{icmp_minlen, header_at, last_ttl, is_for, arrive, last_hop, handle_map}
use cheops_ng.Map.Trail.{IsArrived}
use cheops_ng.Map.Traced.{arrive-IsArrived}
use cheops_ng.Map.Reach.{IsTracing}

pub drop-probes :
    (is_first : Bool) (m : Request) (t : Trace) → (drop_request is_first m t).probes ≡ t.probes
drop-probes true m t = refl
drop-probes false m t = refl

module _ (time : ℕ → ℕ) where
  -- No request to the host is left.
  arrive-gone :
      (source : ℕ) (is_first : Bool) (ms : List Request) (t : Trace)
      → All (λ m. 0 < m.ttl) ms
      → All (λ m. m.dest ≢ source) (arrive time source is_first ms t).1
  unfolding arrive
  arrive-gone source is_first [] t h = tt
  arrive-gone source is_first (m ∷ ms) t h = elim (Bool-cases (is_for source m)) [
    | inr other ↦ rw other (ground (arith, other, h.0), arrive-gone source false ms t h.1)
    | inl found ↦ rw found (
        arrive-gone source is_first ms (drop_request is_first m (map_connect m m.last source t))
          h.1)
  ]

  -- Nothing is done when no request is to the host.
  arrive-absent :
      (source : ℕ) (is_first : Bool) (ms : List Request) (t : Trace)
      → (arrive time source is_first ms t).0 ≡ false
      → ((arrive time source is_first ms t).1 ≡ ms) × ((arrive time source is_first ms t).2 ≡ t)
  unfolding arrive
  arrive-absent source is_first [] t e = (refl, refl)
  arrive-absent source is_first (m ∷ ms) t e = elim (Bool-cases (is_for source m)) [
    | inl found ↦ absurd (ground (arith, found))
    | inr other ↦
        let (same, kept) = arrive-absent source false ms t (rw other at e) in
        rw other (ap (λ l. m ∷ l) same, kept)
  ]

  last_hop-absent :
      (source : ℕ) (b : Buffer) (len at : ℕ) (s : Mapper)
      → (last_hop time source b len at s).0 ≡ false
      → (last_hop time source b len at s).1 ≡ s
  unfolding last_hop
  last_hop-absent source b len at s e =
      elim (Bool-cases (len == at + header_at b at + icmp_minlen)) [
        | inr short ↦ rw short refl
        | inl whole ↦ elim (Bool-cases (leb map_max (last_ttl b at))) [
          | inl far ↦ rw (whole, far) refl
          | inr near ↦
              let absent = arrive-absent source true s.mrq s.trace (rw (whole, near) at e) in
              rw (whole, near) (ap₂ (λ mrq t. record s { mrq = mrq; trace = t }) absent.0 absent.1)
        ]
      ]

  -- A packet that is not of an expired TTL, and for which `handle_map` answers 0, leaves the state as
  -- it was: nothing is linked, probed, freed or rescheduled.
  pub handle_map-absent :
      (source : ℕ) (b : Buffer) (len : ℕ) (s : Mapper)
      → b (header_at b 0) ≢ 11
      → (handle_map time source b len s).0 ≡ false
      → (handle_map time source b len s).1 ≡ s
  unfolding handle_map
  handle_map-absent source b len s n e =
      let at = header_at b 0 + icmp_minlen in
      ground (arith, n, e, last_hop-absent source b len at s, last_hop-absent source b len 0 s)

  expire-probes :
      (current budget : ℕ) (is_first : Bool) (ms : List Request) (t : Trace)
      → length (expire time current budget is_first ms t).1.probes ≤ length t.probes + budget
  unfolding expire
  expire-probes current budget is_first [] t = omega arith
  expire-probes current zero is_first (m ∷ ms) t =
      elim (Bool-cases (ltb (m.sent + map_request_timeout) current)) [
        | inl late ↦ rw late (omega arith)
        | inr early ↦ rw early (expire-probes current zero false ms t)
      ]
  expire-probes current (suc budget) is_first (m ∷ ms) t =
      let again =
        expire-probes current budget is_first (probed time m t ∷ ms) (probe_trace time m t) in
      elim (Bool-cases (ltb (m.sent + map_request_timeout) current)) [
        | inr early ↦ rw early (expire-probes current (suc budget) false ms t)
        | inl late ↦ elim (Bool-cases (ltb max_map_request_retries m.retries)) [
          | inl tired ↦
              let fewer = expire-probes current budget is_first ms (drop_request is_first m t) in
              rw (late, tired) (omega (arith, fewer, ap length (drop-probes is_first m t)))
          | inr fresh ↦ rw (late, fresh) (omega (arith, again))
        ]
      ]

  -- A timeout sends five probes at most, however many requests are late, and it asks not to be called
  -- again just when the list was empty.
  pub map_timeout-probes :
      (s : Mapper)
      → length (map_timeout time s).1.trace.probes ≤ length s.trace.probes + map_timeout_max
        × (((map_timeout time s).0 ≡ false) ↔ (s.mrq ≡ []))
  unfolding map_timeout
  map_timeout-probes s = on s.mrq refl
    where
      on :
          (ms : List Request)
          → s.mrq ≡ ms
          → length (map_timeout time s).1.trace.probes ≤ length s.trace.probes + map_timeout_max
            × (((map_timeout time s).0 ≡ false) ↔ (s.mrq ≡ []))
      on [] e = rw e (omega arith, (λ _. refl, λ _. refl))
      on (m ∷ ms) e = rw e (
        expire-probes (time s.trace.ticks) map_timeout_max true (m ∷ ms)
            (record s.trace { ticks = s.trace.ticks + 1 }),
        (λ h. absurd (cc), λ h. absurd (cc)),
      )

  start_mapping-own :
      (os : Os) (local_ip : ℕ → ℕ) (ip agent np : ℕ) (s : Mapper)
      → (local_ip ip == ip) ≡ true
      → start_mapping time os local_ip ip agent np s ≡ s
  unfolding start_mapping
  start_mapping-own os local_ip ip agent np s own = rw own refl

  start_mapping-known :
      (os : Os) (local_ip : ℕ → ℕ) (ip agent np : ℕ) (s : Mapper)
      → has_request ip np s.mrq ≡ true
      → start_mapping time os local_ip ip agent np s ≡ s
  unfolding start_mapping
  start_mapping-known os local_ip ip agent np s known = elim (Bool-cases (local_ip ip == ip)) [
    | inl own ↦ rw own refl
    | inr other ↦ rw (other, known) refl
  ]

  -- A second request of any agent for the same address and object does nothing, whether the first
  -- was added, was there already, or was for the own address of this host.
  pub start_mapping-start_mapping :
      (os os' : Os) (local_ip : ℕ → ℕ) (ip agent agent' np : ℕ) (s : Mapper)
      → start_mapping time os' local_ip ip agent' np (start_mapping time os local_ip ip agent np s)
        ≡ start_mapping time os local_ip ip agent np s
  unfolding start_mapping has_request
  start_mapping-start_mapping os os' local_ip ip agent agent' np s =
      let again = λ (x : Mapper). start_mapping time os' local_ip ip agent' np x ≡ x in
      elim (Bool-cases (local_ip ip == ip)) [
        | inl own ↦
            subst again (sym (start_mapping-own os local_ip ip agent np s own))
              (start_mapping-own os' local_ip ip agent' np s own)
        | inr other ↦ elim (Bool-cases (has_request ip np s.mrq)) [
          | inl known ↦
              subst again (sym (start_mapping-known os local_ip ip agent np s known))
                (start_mapping-known os' local_ip ip agent' np s known)
          | inr absent ↦
              start_mapping-known os' local_ip ip agent' np
                (start_mapping time os local_ip ip agent np s) (ground (arith, other, absent))
        ]
      ]

  module _ (local_ip : ℕ → ℕ) where
    last_hop-IsArrived :
        (source : ℕ) (b : Buffer) (len at : ℕ) (s s' : Mapper)
        → IsTracing local_ip s
        → last_hop time source b len at s ≡ (true, s')
        → All (IsArrived local_ip source s'.trace.links) s.mrq × All (λ m. m.dest ≢ source) s'.mrq
    unfolding last_hop
    last_hop-IsArrived source b len at s s' v e =
        let r = arrive time source true s.mrq s.trace in
        elim (Bool-cases (len == at + header_at b at + icmp_minlen)) [
          | inr short ↦ absurd (ground (arith, short, e))
          | inl whole ↦ elim (Bool-cases (leb map_max (last_ttl b at))) [
            | inl far ↦ absurd (ground (arith, whole, far, e))
            | inr near ↦
                let it : (r.0, record s { mrq = r.1; trace = r.2 }) ≡ (true, s') =
                  rw (whole, near) at e in
                let links : s'.trace.links ≡ r.2.links = sym (ap (λ x. x.1.trace.links) it) in
                let mrq : r.1 ≡ s'.mrq = ap (λ x. x.1.mrq) it in
                (
                  arrive-IsArrived local_ip time source true s.mrq s.trace s'.trace.links links
                      v.distinct v.traced,
                  subst (All (λ m. m.dest ≢ source)) mrq (
                      arrive-gone source true s.mrq s.trace
                        (All-map _ _ s.mrq (λ m h. h.started) v.traced)),
                )
          ]
        ]

    -- When `handle_map` answers 1, each request to the host that the packet came from has a path of
    -- links from the address of this host to it, and no request to it is left. The state is one of
    -- distinct pointers, fresh ones, and paths, as in every history.
    pub handle_map-IsArrived :
        (source : ℕ) (b : Buffer) (len : ℕ) (s s' : Mapper)
        → IsTracing local_ip s
        → handle_map time source b len s ≡ (true, s')
        → All (IsArrived local_ip source s'.trace.links) s.mrq × All (λ m. m.dest ≢ source) s'.mrq
    unfolding handle_map
    handle_map-IsArrived source b len s s' v e =
        let at = header_at b 0 + icmp_minlen in
        ground (
          arith,
          e,
          last_hop-IsArrived source b len at s s' v,
          last_hop-IsArrived source b len 0 s s' v,
        )
