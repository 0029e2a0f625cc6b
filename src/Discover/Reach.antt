-- ===== src/Discover/Reach.antt =====
-- Every history of the discovery: requests, calls of `ping_send` by the scheduler, and packets.
use cheops_ng.Prelude.{
  Bool-cases, ◌%◌, ◌==◌, IsDistinct, ℕ, ◌+◌, ◌^◌, ◌<◌, ◌≡◌, Bool, true, false, inl, inr, List, some,
  some_eq, All, All-append, All-map, arith, subst, ◌∙◌, sym,
}
use cheops_ng.Sched.Time.{Timeval}
use cheops_ng.Cache.Bound.{IsBounded}
use cheops_ng.Discover.Defs.{
  handle_set_settings, Ping, Sent, Discovery, Net, queued, handle_discover_request, find_ping,
}
use cheops_ng.Discover.Send.{is_broadcast, Result, done, exit, no_fuel, dangling, ping_send}
use cheops_ng.Discover.Receive.{Buffer, handle_ping_recieve}
use cheops_ng.Discover.Range.{IsPing, remaining}
use cheops_ng.Discover.Loop.{Grown, IsTarget}
use cheops_ng.Discover.Queue.{IsValid, addresses}
use cheops_ng.Discover.Ends.{Pinged, ping_send-Pinged}
use cheops_ng.Discover.Vetting.{Vetted, handle_ping_recieve-Vetted}
use cheops_ng.Discover.Requests.{request-cases}

module _ (net : Net) where
  -- A step: a request that is queued, a run of `ping_send` of a discovery in the queue with fuel for
  -- its addresses, a packet, or settings. A number of retries without a next one would let passes go on
  -- for ever.
  pub data Step (s s' : Discovery) : Type 0 where
    request :
        (first last flags np agent : ℕ)
        → first < 2 ^ 32
        → last < 2 ^ 32
        → handle_discover_request net.os true first last flags np agent s ≡ queued s'
        → Step s s'
    fire :
        (fuel a : ℕ) (p : Ping) (more : Bool)
        → find_ping a s.ping_q ≡ some p
        → remaining s.ping_retries p + 4 < fuel
        → ping_send net fuel a s ≡ done more s'
        → Step s s'
    packet :
        (now : Timeval) (mapped : Bool) (b : Buffer) (len source : ℕ)
        → handle_ping_recieve true now mapped b len source s ≡ some s'
        → Step s s'
    settings :
        (flags retries : ℕ)
        → retries + 1 < 2 ^ 32
        → s' ≡ handle_set_settings flags retries s
        → Step s s'

  pub data Reach (start : Discovery) : Discovery → Type 0 where
    here : Reach start start
    next : {s s' : Discovery} → Reach start s → Step s s' → Reach start s'

  -- The invariant: a valid queue, a bounded cache, and no ping to a broadcast address.
  pub record Inv (s : Discovery) : Type 0 where
    pub valid : IsValid s
    pub bounded : IsBounded s.cache
    pub single : All (λ x. is_broadcast x.to ≡ false) s.sent
    pub retries : s.ping_retries + 1 < 2 ^ 32

  Grown-single :
      (p : Ping) (old new : List Sent)
      → Grown (IsTarget p) old new
      → All (λ x. is_broadcast x.to ≡ false) old
      → All (λ x. is_broadcast x.to ≡ false) new
  Grown-single p old new (more, e, h) k =
      rw e (All-append _ more old (All-map _ _ more (λ x t. t.single) h) k)

  queued_eq : {s t : Discovery} → queued s ≡ queued t → s ≡ t
  queued_eq e = cc

  fired-Inv :
      (p : Ping) (s : Discovery) (r : Result) (more : Bool) (s' : Discovery)
      → Inv s
      → Pinged net p s r
      → r ≡ done more s'
      → Inv s'
  fired-Inv p s (done m t) more s' v (w, grown, replies, (c, r), rest) e =
      subst Inv (done_eq e) (record {
        valid = w;
        bounded = subst IsBounded (sym c) v.bounded;
        single = Grown-single p s.sent t.sent grown v.single;
        retries = omega (arith, r, v.retries);
      })
    where
      done_eq : done m t ≡ done more s' → t ≡ s'
      done_eq e = cc
  fired-Inv p s exit more s' v h e = absurd (cc)
  fired-Inv p s no_fuel more s' v h e = absurd h
  fired-Inv p s dangling more s' v h e = absurd h

  request-Inv :
      (first last flags np agent : ℕ) (s s' : Discovery)
      → first < 2 ^ 32
      → last < 2 ^ 32
      → Inv s
      → handle_discover_request net.os true first last flags np agent s ≡ queued s'
      → Inv s'
  request-Inv first last flags np agent s s' hf hl v e =
      elim (request-cases net.os first last flags np agent s hf hl v.valid) [
        | inl (behind, r) ↦ absurd (cc)
        | inr (inl (ordered, z, r)) ↦ absurd (cc)
        | inr
              (inr (
                p,
                t,
                positive,
                ordered,
                r,
                w,
                q,
                range,
                fields,
                scheduler,
                (sent, replies, cache, retries),
              )) ↦
            subst Inv (queued_eq (sym r ∙ e)) (record {
              valid = w;
              bounded = subst IsBounded (sym cache) v.bounded;
              single = subst (λ l. All (λ x. is_broadcast x.to ≡ false) l) (sym sent) v.single;
              retries = omega (arith, retries, v.retries);
            })
      ]

  packet-Inv :
      (mapped : Bool) (b : Buffer) (source : ℕ) (s s' : Discovery)
      → Inv s
      → Vetted mapped b source s s'
      → Inv s'
  packet-Inv mapped b source s s' v (inl same) = subst Inv (sym same) v
  packet-Inv mapped b source s s' v (inr (p, found, m, echo, a)) = record {
    valid = record {
      pings = subst (All IsPing) (sym a.ping_q) v.valid.pings;
      distinct = subst (λ q. IsDistinct (addresses q)) (sym a.ping_q) v.valid.distinct;
      fresh = rw (a.ping_q, a.next) v.valid.fresh;
    };
    bounded = a.bounded;
    single = subst (λ l. All (λ x. is_broadcast x.to ≡ false) l) (sym a.sent) v.single;
    retries = omega (arith, a.ping_retries, v.retries);
  }

  handle_set_settings-Inv :
      (flags retries : ℕ) (s : Discovery)
      → Inv s
      → retries + 1 < 2 ^ 32
      → Inv (handle_set_settings flags retries s)
  unfolding handle_set_settings
  handle_set_settings-Inv flags retries s v lt = elim (Bool-cases (flags % 2 == 1)) [
    | inr no_flag ↦ rw no_flag v
    | inl flag ↦ rw flag (record {
      valid = record { pings = v.valid.pings; distinct = v.valid.distinct; fresh = v.valid.fresh };
      bounded = v.bounded;
      single = v.single;
      retries = lt;
    })
  ]

  Step-Inv : (s s' : Discovery) → Inv s → Step s s' → Inv s'
  Step-Inv s s' v (request first last flags np agent hf hl e) =
      request-Inv first last flags np agent s s' hf hl v e
  Step-Inv s s' v (fire fuel a p more found enough e) =
      fired-Inv p s (ping_send net fuel a s) more s' v
        (ping_send-Pinged net fuel a p s v.valid found v.retries enough) e
  Step-Inv s s' v (settings flags retries lt e) =
      subst Inv (sym e) (handle_set_settings-Inv flags retries s v lt)
  Step-Inv s s' v (packet now mapped b len source e) =
      let (t, r, w) = handle_ping_recieve-Vetted now mapped b len source s v.bounded in
      packet-Inv mapped b source s s' v (subst (Vetted mapped b source s) (some_eq (sym r ∙ e)) w)

  -- In every history of requests, runs of `ping_send`, packets of any bytes and settings of less than
  -- 2 ^ 32 - 1 retries, from a state that satisfies the same: the discoveries in the queue have distinct pointers and stand at an address of
  -- their range, the cache keeps to its bound, and no ping has gone to a broadcast address.
  pub Reach-Inv : {start s : Discovery} → Inv start → Reach start s → Inv s
  Reach-Inv v here = v
  Reach-Inv v (next {s} {s'} r st) = Step-Inv s s' (Reach-Inv v r) st
