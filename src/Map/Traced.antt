-- ===== src/Map/Traced.antt =====
-- The loops of agent-map.c keep the paths of the requests.
use cheops_ng.Prelude.{
  IsDistinct, ℕ, zero, suc, ◌+◌, ◌<◌, ◌≡◌, refl, Bool, false, Bool-cases, inl, inr, List, [], ◌∷◌,
  ltb, ==_iff, All, arith, ap, subst, ◌∙◌, sym,
}
use cheops_ng.Map.Defs.{
  Request, Link, Trace, map_max, map_connect, drop_request, probed, probe_trace,
  map_request_timeout, max_map_request_retries, expire,
}
use cheops_ng.Map.Packets.{is_for, next_hop, hop, arrive}
use cheops_ng.Map.Trail.{
  IsArrived, addresses, links_of, IsPath, IsTraced, IsTraced-same, connected-others, hop-others,
  arrive-others, drop-links,
}

module _ (local_ip : ℕ → ℕ) (time : ℕ → ℕ) where
  pub traced-as :
      (t t' : Trace) (ms : List Request)
      → t'.links ≡ t.links
      → All (IsTraced local_ip t.links) ms
      → All (IsTraced local_ip t'.links) ms
  traced-as t t' ms e h = rw e h

  -- One more link, to the host that answered.
  connected-IsPath :
      (m : Request) (source : ℕ) (t : Trace)
      → IsTraced local_ip t.links m
      → IsPath (local_ip m.dest) source (links_of m.address (map_connect m m.last source t).links)
  unfolding links_of
  connected-IsPath m source t h = rw ((==_iff m.address m.address).1 refl) (refl, h.path)

  next_hop-IsTraced :
      (m : Request) (source : ℕ) (t u : Trace)
      → IsTraced local_ip t.links m
      → m.ttl < map_max
      → links_of m.address u.links ≡ links_of m.address (map_connect m m.last source t).links
      → IsTraced local_ip u.links (probed time (next_hop source m) t)
  next_hop-IsTraced m source t u h lt e = record {
    path = subst (IsPath (local_ip m.dest) source) (sym e) (connected-IsPath m source t h);
    started = omega arith;
    bounded = omega (arith, lt);
  }

  module _ (source : ℕ) where
    pub hop-IsTraced :
        (dest : ℕ) (is_first : Bool) (ms : List Request) (t : Trace)
        → IsDistinct (addresses ms)
        → All (IsTraced local_ip t.links) ms
        → All
            (IsTraced local_ip (hop time source dest is_first ms t).1.links)
            (hop time source dest is_first ms t).0
    unfolding hop
    hop-IsTraced dest is_first [] t d h = tt
    hop-IsTraced dest is_first (m ∷ ms) t d h =
        let u = probe_trace time (next_hop source m) (map_connect m m.last source t) in
        let others = connected-others local_ip m m.last source t ms d.0 h.1 in
        elim (Bool-cases (is_for dest m)) [
          | inr other ↦ rw other (
            IsTraced-same local_ip m t.links _
                (hop-others time source dest m.address false ms t d.0) h.0,
            hop-IsTraced dest false ms t d.1 h.1,
          )
          | inl found ↦ elim (Bool-cases (ltb m.ttl map_max)) [
            | inl more ↦
                rw (found, more)
                  (
                    next_hop-IsTraced m source t (hop time source dest false ms u).1 h.0
                        (ground (arith, more))
                        (hop-others time source dest m.address false ms u d.0),
                    hop-IsTraced dest false ms u d.1 others,
                  )
            | inr far ↦
                rw (found, far)
                  (hop-IsTraced dest is_first ms (drop_request is_first m t) d.1
                    (traced-as t (drop_request is_first m t) ms (drop-links is_first m t) h.1))
          ]
        ]

    pub arrive-IsTraced :
        (is_first : Bool) (ms : List Request) (t : Trace)
        → IsDistinct (addresses ms)
        → All (IsTraced local_ip t.links) ms
        → All
            (IsTraced local_ip (arrive time source is_first ms t).2.links)
            (arrive time source is_first ms t).1
    unfolding arrive
    arrive-IsTraced is_first [] t d h = tt
    arrive-IsTraced is_first (m ∷ ms) t d h =
        let u = map_connect m m.last source t in
        elim (Bool-cases (is_for source m)) [
          | inr other ↦ rw other (
            IsTraced-same local_ip m t.links _ (arrive-others time source m.address false ms t d.0)
                h.0,
            arrive-IsTraced false ms t d.1 h.1,
          )
          | inl found ↦ rw found (
              arrive-IsTraced is_first ms (drop_request is_first m u) d.1 (
                traced-as u (drop_request is_first m u) ms (drop-links is_first m u)
                  (connected-others local_ip m m.last source t ms d.0 h.1)))
        ]

    pub arrive-IsArrived :
        (is_first : Bool) (ms : List Request) (t : Trace) (ls : List Link)
        → ls ≡ (arrive time source is_first ms t).2.links
        → IsDistinct (addresses ms)
        → All (IsTraced local_ip t.links) ms
        → All (IsArrived local_ip source ls) ms
    unfolding arrive
    arrive-IsArrived is_first [] t ls e d h = tt
    arrive-IsArrived is_first (m ∷ ms) t ls e d h =
        let u = map_connect m m.last source t in
        let u' = drop_request is_first m u in
        elim (Bool-cases (is_for source m)) [
          | inr other ↦ (
            inl (ground (arith, other, h.0.started)),
            arrive-IsArrived false ms t ls (rw other at e) d.1 h.1,
          )
          | inl found ↦
              let e' : ls ≡ (arrive time source is_first ms u').2.links = rw found at e in
              let same : links_of m.address ls ≡ links_of m.address u.links =
                ap (links_of m.address) e'
                ∙ arrive-others time source m.address is_first ms u' d.0
                ∙ ap (links_of m.address) (drop-links is_first m u) in
              (
                inr (
                    subst (IsPath (local_ip m.dest) source) (sym same)
                      (connected-IsPath m source t h.0)),
                arrive-IsArrived is_first ms u' ls e' d.1 (
                    traced-as u u' ms (drop-links is_first m u)
                      (connected-others local_ip m m.last source t ms d.0 h.1)),
              )
        ]

  module _ (current : ℕ) where
    pub expire-links :
        (budget : ℕ) (is_first : Bool) (ms : List Request) (t : Trace)
        → (expire time current budget is_first ms t).1.links ≡ t.links
    unfolding expire
    expire-links budget is_first [] t = refl
    expire-links zero is_first (m ∷ ms) t =
        elim (Bool-cases (ltb (m.sent + map_request_timeout) current)) [
          | inl late ↦ rw late refl
          | inr early ↦ rw early (expire-links zero false ms t)
        ]
    expire-links (suc budget) is_first (m ∷ ms) t =
        let again = expire-links budget is_first (probed time m t ∷ ms) (probe_trace time m t) in
        elim (Bool-cases (ltb (m.sent + map_request_timeout) current)) [
          | inr early ↦ rw early (expire-links (suc budget) false ms t)
          | inl late ↦ elim (Bool-cases (ltb max_map_request_retries m.retries)) [
            | inl tired ↦
                rw (late, tired)
                  (expire-links budget is_first ms (drop_request is_first m t)
                    ∙ drop-links is_first m t)
            | inr fresh ↦ rw (late, fresh) again
          ]
        ]

    pub expire-IsTraced :
        (ls : List Link) (budget : ℕ) (is_first : Bool) (ms : List Request) (t : Trace)
        → All (IsTraced local_ip ls) ms
        → All (IsTraced local_ip ls) (expire time current budget is_first ms t).0
    unfolding expire
    expire-IsTraced ls budget is_first [] t h = tt
    expire-IsTraced ls zero is_first (m ∷ ms) t h =
        elim (Bool-cases (ltb (m.sent + map_request_timeout) current)) [
          | inl late ↦ rw late h
          | inr early ↦ rw early (h.0, expire-IsTraced ls zero false ms t h.1)
        ]
    expire-IsTraced ls (suc budget) is_first (m ∷ ms) t h =
        let same : IsTraced local_ip ls (probed time m t) = record {
          path = h.0.path;
          started = h.0.started;
          bounded = h.0.bounded;
        } in
        let again =
          expire-IsTraced ls budget is_first (probed time m t ∷ ms) (probe_trace time m t)
            (same, h.1) in
        elim (Bool-cases (ltb (m.sent + map_request_timeout) current)) [
          | inr early ↦ rw early (h.0, expire-IsTraced ls (suc budget) false ms t h.1)
          | inl late ↦ elim (Bool-cases (ltb max_map_request_retries m.retries)) [
            | inl tired ↦
                rw (late, tired)
                  (expire-IsTraced ls budget is_first ms (drop_request is_first m t) h.1)
            | inr fresh ↦ rw (late, fresh) again
          ]
        ]
