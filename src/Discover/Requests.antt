-- ===== src/Discover/Requests.antt =====
-- `handle_discover_request`: what it refuses, and the discovery that it queues.
use cheops_ng.Prelude.{
  ℕ, ◌+◌, ◌^◌, ◌≤◌, ◌<◌, ◌≡◌, ◌≢◌, refl, true, Bool-cases, ◌⊎◌, inl, inr, List, ◌∷◌, ltb, ◌==◌,
  ◌||◌, All, All-map, arith,
}
use cheops_ng.Prelude.Int.{pos}
use cheops_ng.Prelude.Bytes.{ntohl, ntohl-ntohl, ntohl-zero, zero-ntohl}
use cheops_ng.Sched.Defs.{Os, sched_add}
use cheops_ng.Discover.Defs.{
  Ping, Discovery, refused_zero, refused_order, queued, handle_discover_request, ping_send_callback,
}
use cheops_ng.Discover.Queue.{IsValid, addresses}

-- The entry that a request makes, and the state with it in the queue.
abbrev new_ping : Os → ℕ → ℕ → ℕ → ℕ → ℕ → Discovery → Ping
new_ping os first last flags np agent s = record {
  address = s.next;
  start_ip = ntohl first;
  end_ip = ntohl last;
  current = ntohl (ntohl first);
  desched = (sched_add os (pos 1) ping_send_callback s.next s.scheduler).0;
  retry = 0;
  flags = flags;
  np = np;
  time = 0;
  agent = agent;
}

abbrev with_ping : Os → Ping → Discovery → Discovery
with_ping os p s = record s {
  ping_q = p ∷ s.ping_q;
  scheduler = (sched_add os (pos 1) ping_send_callback s.next s.scheduler).1;
  next = s.next + 1;
}

below-ne : (n : ℕ) (l : List ℕ) → All (λ a. a < n) l → All (λ a. a ≢ n) l
below-ne n l = All-map _ _ l (λ a h e. absurd (omega (arith, h, e)))

-- A request whose fields hold the addresses `first` and `last` in the order of the host, as
-- `do_discover` of the shell sends them. It is refused when one of them is 0 or the first is behind the
-- last; otherwise it is queued under a new pointer with the range of those addresses, at its first
-- address, with a run of `ping_send` in a millisecond.
pub request-cases :
    (os : Os) (first last flags np agent : ℕ) (s : Discovery)
    → first < 2 ^ 32
    → last < 2 ^ 32
    → IsValid s
    → ((last < first)
        × (handle_discover_request os true first last flags np agent s ≡ refused_order))
      ⊎ ((first ≤ last)
          × ((first ≡ 0) ⊎ (last ≡ 0))
          × (handle_discover_request os true first last flags np agent s ≡ refused_zero))
      ⊎ ((p : Ping) × (s' : Discovery) × (0 < first)
          × (first ≤ last)
          × (handle_discover_request os true first last flags np agent s ≡ queued s')
          × IsValid s'
          × (s'.ping_q ≡ p ∷ s.ping_q)
          × ((ntohl p.start_ip ≡ first) × (ntohl p.end_ip ≡ last) × (p.current ≡ first))
          × ((p.retry ≡ 0) × (p.flags ≡ flags) × (p.np ≡ np) × (p.agent ≡ agent))
          × (s'.scheduler ≡ (sched_add os (pos 1) ping_send_callback s.next s.scheduler).1)
          × ((s'.sent ≡ s.sent)
              × (s'.replies ≡ s.replies)
              × (s'.cache ≡ s.cache)
              × (s'.ping_retries ≡ s.ping_retries)))
unfolding handle_discover_request
request-cases os first last flags np agent s hf hl v =
    let ef = ntohl-ntohl first hf in
    let el = ntohl-ntohl last hl in
    elim (Bool-cases (ltb (ntohl (ntohl last)) (ntohl (ntohl first)))) [
      | inl behind ↦ inl (ground (arith, behind, ef, el), rw behind refl)
      | inr ordered ↦ elim (Bool-cases (ntohl first == 0 || ntohl last == 0)) [
        | inl none_given ↦ inr (
            inl (ground (arith, ordered, ef, el), a_zero none_given, rw (ordered, none_given) refl))
        | inr given ↦ inr (
            inr (
              new_ping os first last flags np agent s,
              with_ping os (new_ping os first last flags np agent s) s,
              ground (arith, given, zero-ntohl first),
              ground (arith, ordered, ef, el),
              rw (ordered, given) refl,
              valid (ground (arith, ordered)),
              refl,
              (ef, el, ef),
              (refl, refl, refl, refl),
              refl,
              (refl, refl, refl, refl),
            ))
      ]
    ]
  where
    a_zero : ntohl first == 0 || ntohl last == 0 ≡ true → (first ≡ 0) ⊎ (last ≡ 0)
    a_zero h = elim (Bool-cases (ntohl first == 0)) [
      | inl e ↦ inl (ntohl-zero first hf (ground arith))
      | inr e ↦ inr (ntohl-zero last hl (ground arith))
    ]

    valid :
        ntohl (ntohl first) ≤ ntohl (ntohl last)
        → IsValid (with_ping os (new_ping os first last flags np agent s) s)
    valid h = record {
      pings = (record { low = omega arith; high = h }, v.pings);
      distinct = (below-ne s.next (addresses s.ping_q) v.fresh, v.distinct);
      fresh = (omega arith, All-map _ _ (addresses s.ping_q) (λ a k. omega (arith, k)) v.fresh);
    }
