-- ===== src/Agent.antt =====
-- `handle_ping_recieve` of agent-discover.c with its call of `handle_map` of agent-map.c: each packet
-- goes to the tracing first, and then to the discovery.
mod Tests
use cheops_ng.Prelude.{
  ◌⊎◌, inl, inr, ℕ, ◌+◌, ◌≡◌, ◌≢◌, refl, Bool, true, false, Bool-cases, Option, none, some, some_eq,
  ltb, ◌==◌, ==_iff, if◌then◌else◌, arith, ap, sym, subst, ◌∙◌,
}
use cheops_ng.Sched.Time.{Timeval}
use cheops_ng.Cache.Bound.{IsBounded}
use cheops_ng.Discover.Defs.{Discovery}
use cheops_ng.Discover.Receive.{
  Buffer, header_length, icmp_minlen, icmp_echoreply, handle_ping_recieve,
}
use cheops_ng.Discover.Vetting.{Vetted, handle_ping_recieve-Vetted}
use cheops_ng.Map.Defs.{Mapper}
use cheops_ng.Map.Packets.{handle_map}
use cheops_ng.Map.Arrival.{handle_map-absent}

abbrev with_mapper : Mapper → Option Discovery → Option (Mapper × Discovery)
with_mapper m none = none
with_mapper m (some d) = some (m, d)

-- The state after a packet that was read; `none` is the exit of the program when memory is out.
unfoldable pub receive :
    (ℕ → ℕ) → Bool → Timeval → Buffer → ℕ → ℕ → Mapper → Discovery → Option (Mapper × Discovery)
unfolding handle_map handle_ping_recieve
receive time memory now b len source m d =
    let (mapped, m') = handle_map time source b len m in
    if ltb len (header_length b + icmp_minlen)
    then some (m, d)
    else with_mapper m' (handle_ping_recieve memory now mapped b len source d)

if-false {ℓ} : {A : Type ℓ} (b : Bool) (x y : A) → b ≡ false → (if b then x else y) ≡ y
if-false b x y e = rw e refl

-- Any packet, while malloc() gives memory: it is taken without an exit, and changes the tracing or the
-- discovery, or neither, never both.
pub receive-apart :
    (time : ℕ → ℕ) (now : Timeval) (b : Buffer) (len source : ℕ) (m : Mapper) (d : Discovery)
    → IsBounded d.cache
    → (m' : Mapper) × (d' : Discovery) × (receive time true now b len source m d ≡ some (m', d'))
      × ((m' ≡ m) ⊎ (d' ≡ d))
unfolding receive
receive-apart time now b len source m d v =
    elim (Bool-cases (ltb len (header_length b + icmp_minlen))) [
      | inl short ↦ (m, d, rw short refl, inl refl)
      | inr long ↦
          let r = handle_map time source b len m in
          let (d', e, w) = handle_ping_recieve-Vetted now r.0 b len source d v in
          (
            r.1,
            d',
            if-false (ltb len (header_length b + icmp_minlen)) (some (m, d))
                  (with_mapper r.1 (handle_ping_recieve true now r.0 b len source d)) long
                ∙ ap (with_mapper r.1) e,
            on r.0 refl d' w,
          )
    ]
  where
    on :
        (mapped : Bool)
        → (handle_map time source b len m).0 ≡ mapped
        → (d' : Discovery) → Vetted mapped b source d d'
        → ((handle_map time source b len m).1 ≡ m) ⊎ (d' ≡ d)
    on mapped e d' (inl same) = inr same
    on mapped e d' (inr (p, found, not_mapped, echo, a)) =
        inl (handle_map-absent time source b len m (λ k. ground (arith, k, echo)) (e ∙ not_mapped))
