-- ===== src/Map/Kept.antt =====
-- What the loops of agent-map.c keep of the list: the pointers that stay are distinct ones of the list.
use cheops_ng.Prelude.{
  IsDistinct, ℕ, zero, suc, ◌+◌, Bool, false, Bool-cases, inl, inr, List, [], ◌∷◌, ltb, All,
}
use cheops_ng.Map.Defs.{
  Request, Trace, map_max, map_connect, drop_request, probed, probe_trace, map_request_timeout,
  max_map_request_retries, expire,
}
use cheops_ng.Map.Packets.{is_for, next_hop, hop, arrive}
use cheops_ng.Map.Trail.{addresses}

module _ (time : ℕ → ℕ) (source : ℕ) where
  pub All-hop :
      (P : ℕ → Type 0) (dest : ℕ) (is_first : Bool) (ms : List Request) (t : Trace)
      → All P (addresses ms)
      → All P (addresses (hop time source dest is_first ms t).0)
  unfolding hop
  All-hop P dest is_first [] t h = tt
  All-hop P dest is_first (m ∷ ms) t h = elim (Bool-cases (is_for dest m)) [
    | inr other ↦ rw other (h.0, All-hop P dest false ms t h.1)
    | inl found ↦ elim (Bool-cases (ltb m.ttl map_max)) [
      | inl more ↦
          rw (found, more)
            (
              h.0,
              All-hop P dest false ms
                  (probe_trace time (next_hop source m) (map_connect m m.last source t)) h.1,
            )
      | inr far ↦ rw (found, far) (All-hop P dest is_first ms (drop_request is_first m t) h.1)
    ]
  ]

  pub hop-IsDistinct :
      (dest : ℕ) (is_first : Bool) (ms : List Request) (t : Trace)
      → IsDistinct (addresses ms)
      → IsDistinct (addresses (hop time source dest is_first ms t).0)
  unfolding hop
  hop-IsDistinct dest is_first [] t h = tt
  hop-IsDistinct dest is_first (m ∷ ms) t h =
      let u = probe_trace time (next_hop source m) (map_connect m m.last source t) in
      elim (Bool-cases (is_for dest m)) [
        | inr other ↦ rw other (All-hop _ dest false ms t h.0, hop-IsDistinct dest false ms t h.1)
        | inl found ↦ elim (Bool-cases (ltb m.ttl map_max)) [
          | inl more ↦
              rw (found, more) (All-hop _ dest false ms u h.0, hop-IsDistinct dest false ms u h.1)
          | inr far ↦
              rw (found, far) (hop-IsDistinct dest is_first ms (drop_request is_first m t) h.1)
        ]
      ]

  pub All-arrive :
      (P : ℕ → Type 0) (is_first : Bool) (ms : List Request) (t : Trace)
      → All P (addresses ms)
      → All P (addresses (arrive time source is_first ms t).1)
  unfolding arrive
  All-arrive P is_first [] t h = tt
  All-arrive P is_first (m ∷ ms) t h = elim (Bool-cases (is_for source m)) [
    | inr other ↦ rw other (h.0, All-arrive P false ms t h.1)
    | inl found ↦
        rw found
          (All-arrive P is_first ms (drop_request is_first m (map_connect m m.last source t)) h.1)
  ]

  pub arrive-IsDistinct :
      (is_first : Bool) (ms : List Request) (t : Trace)
      → IsDistinct (addresses ms)
      → IsDistinct (addresses (arrive time source is_first ms t).1)
  unfolding arrive
  arrive-IsDistinct is_first [] t h = tt
  arrive-IsDistinct is_first (m ∷ ms) t h = elim (Bool-cases (is_for source m)) [
    | inr other ↦ rw other (All-arrive _ false ms t h.0, arrive-IsDistinct false ms t h.1)
    | inl found ↦ rw found (
        arrive-IsDistinct is_first ms (drop_request is_first m (map_connect m m.last source t)) h.1)
  ]

module _ (time : ℕ → ℕ) (current : ℕ) where
  pub All-expire :
      (P : ℕ → Type 0) (budget : ℕ) (is_first : Bool) (ms : List Request) (t : Trace)
      → All P (addresses ms)
      → All P (addresses (expire time current budget is_first ms t).0)
  unfolding expire
  All-expire P budget is_first [] t h = tt
  All-expire P zero is_first (m ∷ ms) t h =
      elim (Bool-cases (ltb (m.sent + map_request_timeout) current)) [
        | inl late ↦ rw late h
        | inr early ↦ rw early (h.0, All-expire P zero false ms t h.1)
      ]
  All-expire P (suc budget) is_first (m ∷ ms) t h =
      let again = All-expire P budget is_first (probed time m t ∷ ms) (probe_trace time m t) h in
      elim (Bool-cases (ltb (m.sent + map_request_timeout) current)) [
        | inr early ↦ rw early (h.0, All-expire P (suc budget) false ms t h.1)
        | inl late ↦ elim (Bool-cases (ltb max_map_request_retries m.retries)) [
          | inl tired ↦
              rw (late, tired) (All-expire P budget is_first ms (drop_request is_first m t) h.1)
          | inr fresh ↦ rw (late, fresh) again
        ]
      ]

  pub expire-IsDistinct :
      (budget : ℕ) (is_first : Bool) (ms : List Request) (t : Trace)
      → IsDistinct (addresses ms)
      → IsDistinct (addresses (expire time current budget is_first ms t).0)
  unfolding expire
  expire-IsDistinct budget is_first [] t h = tt
  expire-IsDistinct zero is_first (m ∷ ms) t h =
      elim (Bool-cases (ltb (m.sent + map_request_timeout) current)) [
        | inl late ↦ rw late h
        | inr early ↦
            rw early (All-expire _ zero false ms t h.0, expire-IsDistinct zero false ms t h.1)
      ]
  expire-IsDistinct (suc budget) is_first (m ∷ ms) t h =
      let again =
        expire-IsDistinct budget is_first (probed time m t ∷ ms) (probe_trace time m t) h in
      elim (Bool-cases (ltb (m.sent + map_request_timeout) current)) [
        | inr early ↦ rw early (
          All-expire _ (suc budget) false ms t h.0,
          expire-IsDistinct (suc budget) false ms t h.1,
        )
        | inl late ↦ elim (Bool-cases (ltb max_map_request_retries m.retries)) [
          | inl tired ↦
              rw (late, tired)
                (expire-IsDistinct budget is_first ms (drop_request is_first m t) h.1)
          | inr fresh ↦ rw (late, fresh) again
        ]
      ]
