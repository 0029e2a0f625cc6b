-- ===== src/Map/Within.antt =====
-- What agent-map.c sends: links of the requests that were made, and probes of at most 60 hops.
use cheops_ng.Prelude.{
  ℕ, zero, suc, ◌+◌, ◌≤◌, ◌<◌, ◌≡◌, refl, Bool, true, false, Bool-cases, inl, inr, List, [], ◌∷◌,
  ltb, All, arith,
}
use cheops_ng.Map.Defs.{
  Request, Link, Trace, map_max, map_connect, drop_request, probed, probe_trace,
  map_request_timeout, max_map_request_retries, expire,
}
use cheops_ng.Map.Packets.{is_for, next_hop, hop, arrive}
use cheops_ng.Map.Trail.{addresses, links_of, IsTraced}

-- The links are of requests whose pointers are below `bound`, and the probes of 1 to 60 hops.
pub record IsWithin (bound : ℕ) (t : Trace) : Type 0 where
  pub owners : All (λ l. l.owner < bound) t.links
  pub probes : All (λ p. (0 < p.ttl) × (p.ttl ≤ map_max)) t.probes

pub links_of-fresh :
    (bound : ℕ) (ls : List Link) → All (λ l. l.owner < bound) ls → links_of bound ls ≡ []
unfolding links_of
links_of-fresh bound [] h = refl
links_of-fresh bound (l ∷ ls) h = ground (arith, links_of-fresh bound ls h.1)

drop_request-IsWithin :
    (bound : ℕ) (is_first : Bool) (m : Request) (t : Trace)
    → IsWithin bound t
    → IsWithin bound (drop_request is_first m t)
drop_request-IsWithin bound true m t w = w
drop_request-IsWithin bound false m t w = record { owners = w.owners; probes = w.probes }

map_connect-IsWithin :
    (bound : ℕ) (m : Request) (addr1 addr2 : ℕ) (t : Trace)
    → m.address < bound
    → IsWithin bound t
    → IsWithin bound (map_connect m addr1 addr2 t)
map_connect-IsWithin bound m addr1 addr2 t lt w = record {
  owners = (lt, w.owners);
  probes = w.probes;
}

module _ (time : ℕ → ℕ) where
  pub probe_trace-IsWithin :
      (bound : ℕ) (m : Request) (t : Trace)
      → 0 < m.ttl
      → m.ttl ≤ map_max
      → IsWithin bound t
      → IsWithin bound (probe_trace time m t)
  probe_trace-IsWithin bound m t started bounded w = record {
    owners = w.owners;
    probes = ((started, bounded), w.probes);
  }

  pub hop-IsWithin :
      (source bound dest : ℕ) (is_first : Bool) (ms : List Request) (t : Trace)
      → All (λ a. a < bound) (addresses ms)
      → IsWithin bound t
      → IsWithin bound (hop time source dest is_first ms t).1
  unfolding hop
  hop-IsWithin source bound dest is_first [] t h w = w
  hop-IsWithin source bound dest is_first (m ∷ ms) t h w =
      let u = map_connect m m.last source t in
      let linked = map_connect-IsWithin bound m m.last source t h.0 w in
      elim (Bool-cases (is_for dest m)) [
        | inr other ↦ rw other (hop-IsWithin source bound dest false ms t h.1 w)
        | inl found ↦ elim (Bool-cases (ltb m.ttl map_max)) [
          | inl more ↦
              rw (found, more)
                (hop-IsWithin source bound dest false ms (probe_trace time (next_hop source m) u)
                  h.1
                  (probe_trace-IsWithin bound (next_hop source m) u (omega arith)
                    (ground (arith, more)) linked))
          | inr far ↦
              rw (found, far)
                (hop-IsWithin source bound dest is_first ms (drop_request is_first m t) h.1
                  (drop_request-IsWithin bound is_first m t w))
        ]
      ]

  pub arrive-IsWithin :
      (source bound : ℕ) (is_first : Bool) (ms : List Request) (t : Trace)
      → All (λ a. a < bound) (addresses ms)
      → IsWithin bound t
      → IsWithin bound (arrive time source is_first ms t).2
  unfolding arrive
  arrive-IsWithin source bound is_first [] t h w = w
  arrive-IsWithin source bound is_first (m ∷ ms) t h w =
      let u = map_connect m m.last source t in
      let linked = map_connect-IsWithin bound m m.last source t h.0 w in
      elim (Bool-cases (is_for source m)) [
        | inr other ↦ rw other (arrive-IsWithin source bound false ms t h.1 w)
        | inl found ↦ rw found (
            arrive-IsWithin source bound is_first ms (drop_request is_first m u) h.1
              (drop_request-IsWithin bound is_first m u linked))
      ]

  pub expire-IsWithin :
      (local_ip : ℕ → ℕ) (ls : List Link) (bound current budget : ℕ) (is_first : Bool)
      (ms : List Request) (t : Trace)
      → All (IsTraced local_ip ls) ms
      → IsWithin bound t
      → IsWithin bound (expire time current budget is_first ms t).1
  unfolding expire
  expire-IsWithin local_ip ls bound current budget is_first [] t h w = w
  expire-IsWithin local_ip ls bound current zero is_first (m ∷ ms) t h w =
      elim (Bool-cases (ltb (m.sent + map_request_timeout) current)) [
        | inl late ↦ rw late w
        | inr early ↦ rw early (expire-IsWithin local_ip ls bound current zero false ms t h.1 w)
      ]
  expire-IsWithin local_ip ls bound current (suc budget) is_first (m ∷ ms) t h w =
      let same : IsTraced local_ip ls (probed time m t) = record {
        path = h.0.path;
        started = h.0.started;
        bounded = h.0.bounded;
      } in
      let again =
        expire-IsWithin local_ip ls bound current budget is_first (probed time m t ∷ ms)
          (probe_trace time m t) (same, h.1)
          (probe_trace-IsWithin bound m t h.0.started h.0.bounded w) in
      elim (Bool-cases (ltb (m.sent + map_request_timeout) current)) [
        | inr early ↦
            rw early (expire-IsWithin local_ip ls bound current (suc budget) false ms t h.1 w)
        | inl late ↦ elim (Bool-cases (ltb max_map_request_retries m.retries)) [
          | inl tired ↦
              rw (late, tired)
                (expire-IsWithin local_ip ls bound current budget is_first ms
                  (drop_request is_first m t) h.1 (drop_request-IsWithin bound is_first m t w))
          | inr fresh ↦ rw (late, fresh) again
        ]
      ]
