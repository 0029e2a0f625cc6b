-- ===== src/Discover/Loop.antt =====
-- The loop of `ping_send`: it ends, and what it sends.
use cheops_ng.Prelude.{
  ℕ, ◌+◌, ◌-◌, ◌^◌, ◌≤◌, ◌<◌, ◌≡◌, refl, true, false, not, Bool-cases, ◌⊎◌, inl, inr, List, [], ◌∷◌,
  ◌++◌, none, some, ltb, ◌==◌, ◌&&◌, ◌||◌, if◌then◌else◌, length, All, All-append, arith, ap, subst,
  ◌∙◌, sym,
}
use mathlib.Core.List.{append_assoc}
use cheops_ng.Prelude.Int.{pos, ltb_ℤ}
use cheops_ng.Prelude.Bytes.{ntohl, ntohl_bound, ntohl-ntohl}
use cheops_ng.Cache.Defs.{Cache, in_cache}
use cheops_ng.Discover.Defs.{
  Ping, Sent, Reply, Discovery, Net, flag_force, remove_ping_q, ping_packet, send_discover_reply,
}
use cheops_ng.Discover.Send.{
  is_broadcast, advance, Turn, again, leave, expired, exit, open_socket, send_ping, try_ping, turn,
}
use cheops_ng.Discover.Range.{IsPing, remaining, advance-IsPing, remaining-advance}

-- More was put in front of a list, all of it with a property.
abbrev pub Grown : {A : Type 0} → (A → Type 0) → List A → List A → Type 0
Grown {A = A} P old new = (more : List A) × (new ≡ more ++ old) × All P more

pub Grown-refl : {A : Type 0} (P : A → Type 0) (xs : List A) → Grown P xs xs
Grown-refl P xs = ([], refl, tt)

pub Grown-one : {A : Type 0} (P : A → Type 0) (xs : List A) (x : A) → P x → Grown P xs (x ∷ xs)
Grown-one P xs x h = (x ∷ [], refl, (h, tt))

pub Grown-trans :
    {A : Type 0} (P : A → Type 0) (xs ys zs : List A)
    → Grown P xs ys
    → Grown P ys zs
    → Grown P xs zs
Grown-trans P xs ys zs (m, e, h) (n, f, k) =
    (n ++ m, f ∙ ap (λ l. n ++ l) e ∙ sym (append_assoc n m xs), All-append P n m k h)

-- What an entry keeps for its whole life.
pub record IsOf (o p : Ping) : Type 0 where
  pub address : p.address ≡ o.address
  pub start_ip : p.start_ip ≡ o.start_ip
  pub end_ip : p.end_ip ≡ o.end_ip
  pub flags : p.flags ≡ o.flags
  pub np : p.np ≡ o.np
  pub agent : p.agent ≡ o.agent

-- A ping that the discovery `o` may send: to an address of its range that is no broadcast address.
pub record IsTarget (o : Ping) (x : Sent) : Type 0 where
  pub low : ntohl o.start_ip ≤ ntohl x.to
  pub high : ntohl x.to ≤ ntohl o.end_ip
  pub single : is_broadcast x.to ≡ false
  pub packet : x.packet ≡ ping_packet o.address

-- A reply that the discovery `o` may give from a cache.
pub record IsCachedReply (o : Ping) (c : Cache) (x : Reply) : Type 0 where
  pub low : ntohl o.start_ip ≤ x.ipaddr
  pub high : x.ipaddr ≤ ntohl o.end_ip
  pub cached : in_cache (ntohl x.ipaddr) c ≡ true
  pub agent : x.agent ≡ o.agent
  pub np : x.np ≡ o.np

-- There is no socket, and the system gives none.
abbrev pub NoSocket : Net → Discovery → Type 0
NoSocket net s = (s.socket_open ≡ false) × ((net.protocol_known && net.socket_given) ≡ false)

-- What the loop of the discovery `o` may do to the state: it sends to targets, and replies from the
-- cache.
pub record Progress (o : Ping) (s s' : Discovery) : Type 0 where
  pub ping_q : s'.ping_q ≡ s.ping_q
  pub ping_retries : s'.ping_retries ≡ s.ping_retries
  pub scheduler : s'.scheduler ≡ s.scheduler
  pub cache : s'.cache ≡ s.cache
  pub next : s'.next ≡ s.next
  pub closed : s'.socket_open ≡ false → s.socket_open ≡ false
  pub sent : Grown (IsTarget o) s.sent s'.sent
  pub replies : Grown (IsCachedReply o s.cache) s.replies s'.replies

pub Progress-refl : (o : Ping) (s : Discovery) → Progress o s s
Progress-refl o s = record {
  ping_q = refl;
  ping_retries = refl;
  scheduler = refl;
  cache = refl;
  next = refl;
  closed = λ e. e;
  sent = Grown-refl _ s.sent;
  replies = Grown-refl _ s.replies;
}

pub Progress-trans :
    (o : Ping) (s t u : Discovery) → Progress o s t → Progress o t u → Progress o s u
Progress-trans o s t u a b = record {
  ping_q = b.ping_q ∙ a.ping_q;
  ping_retries = b.ping_retries ∙ a.ping_retries;
  scheduler = b.scheduler ∙ a.scheduler;
  cache = b.cache ∙ a.cache;
  next = b.next ∙ a.next;
  closed = λ e. a.closed (b.closed e);
  sent = Grown-trans _ s.sent t.sent u.sent a.sent b.sent;
  replies =
      Grown-trans _ s.replies t.replies u.replies a.replies
        (subst (λ c. Grown (IsCachedReply o c) t.replies u.replies) a.cache b.replies);
}

pub advance-IsOf : (o p : Ping) → IsOf o p → IsOf o (advance p)
unfolding advance
advance-IsOf o p h = ground (arith, h)

current-mid :
    (o p : Ping)
    → IsOf o p
    → IsPing p
    → (ntohl o.start_ip ≤ p.current)
      × (p.current ≤ ntohl o.end_ip)
      × (ntohl (ntohl p.current) ≡ p.current)
current-mid o p h v = (
  omega (arith, v.low, ap ntohl h.start_ip),
  omega (arith, v.high, ap ntohl h.end_ip),
  ntohl-ntohl p.current (omega (arith, v.high, ntohl_bound p.end_ip)),
)

module _ (o : Ping) (net : Net) where
  send_ping-Progress :
      (p : Ping) (s : Discovery)
      → IsOf o p
      → IsPing p
      → is_broadcast (ntohl p.current) ≡ false
      → Progress o s (send_ping net p s)
  send_ping-Progress p s h v single =
      let m = current-mid o p h v in
      record {
        ping_q = refl;
        ping_retries = refl;
        scheduler = refl;
        cache = refl;
        next = refl;
        closed = λ e. e;
        sent = Grown-one _ s.sent _ (record {
          low = omega (arith, m);
          high = omega (arith, m);
          single = single;
          packet = ap ping_packet h.address;
        });
        replies = Grown-refl _ s.replies;
      }

  reply-Progress :
      (p : Ping) (s : Discovery)
      → IsOf o p
      → IsPing p
      → in_cache (ntohl p.current) s.cache ≡ true
      → Progress o s (send_discover_reply (ntohl p.current) p s)
  unfolding send_discover_reply
  reply-Progress p s h v cached =
      let m = current-mid o p h v in
      record {
        ping_q = refl;
        ping_retries = refl;
        scheduler = refl;
        cache = refl;
        next = refl;
        closed = λ e. e;
        sent = Grown-refl _ s.sent;
        replies = Grown-one _ s.replies _ (record {
          low = omega (arith, m);
          high = omega (arith, m);
          cached = ap (λ x. in_cache (ntohl x) s.cache) m.2 ∙ cached;
          agent = h.agent;
          np = h.np;
        });
      }

  -- The end of a turn, with a measure that falls when the loop goes on.
  abbrev pub TurnPost : ℕ → Ping → Discovery → Turn → Type 0
  TurnPost failures p s (again p' failures' s') =
      IsOf o p'
      × IsPing p'
      × Progress o s s'
      × (remaining s.ping_retries p' + (4 - failures')
          < remaining s.ping_retries p + (4 - failures))
  TurnPost failures p s (leave p' s') = IsOf o p' × IsPing p' × Progress o s s'
  TurnPost failures p s (expired s') = s' ≡ remove_ping_q o.address s
  TurnPost failures p s exit = NoSocket net s

  -- The same for a ping that is tried, which neither ends the discovery nor the program.
  abbrev TryPost : ℕ → Ping → Discovery → Turn → Type 0
  TryPost failures p s (again p' failures' s') =
      IsOf o p'
      × IsPing p'
      × Progress o s s'
      × (remaining s.ping_retries p' + (4 - failures')
          < remaining s.ping_retries p + (4 - failures))
  TryPost failures p s (leave p' s') = IsOf o p' × IsPing p' × Progress o s s'
  TryPost failures p s (expired s') = ⊥
  TryPost failures p s exit = ⊥

  opened :
      (s : Discovery)
      → ((open_socket net s ≡ none) × NoSocket net s)
        ⊎ ((s' : Discovery) × (open_socket net s ≡ some s') × Progress o s s')
  opened s = elim (Bool-cases s.socket_open) [
    | inl open_now ↦ inr (s, ground arith, Progress-refl o s)
    | inr closed ↦ elim (Bool-cases (net.protocol_known && net.socket_given)) [
      | inl given ↦ inr (record s { socket_open = true }, ground arith, opened-Progress s)
      | inr refused ↦ inl (ground arith, (closed, refused))
    ]
  ]
    where
      opened-Progress : (s : Discovery) → Progress o s (record s { socket_open = true })
      opened-Progress s = record {
        ping_q = refl;
        ping_retries = refl;
        scheduler = refl;
        cache = refl;
        next = refl;
        closed = λ e. absurd (cc);
        sent = Grown-refl _ s.sent;
        replies = Grown-refl _ s.replies;
      }

  try_ping-TryPost :
      (failures : ℕ) (p : Ping) (s : Discovery)
      → IsOf o p
      → IsPing p
      → p.retry ≤ s.ping_retries
      → s.ping_retries + 1 < 2 ^ 32
      → TryPost failures p s (try_ping net failures p s)
  unfolding try_ping
  try_ping-TryPost failures p s h v r small =
      let less = remaining-advance s.ping_retries p v r small in
      elim (Bool-cases (is_broadcast (ntohl p.current))) [
        | inl broadcast ↦
            rw broadcast
              (advance-IsOf o p h, advance-IsPing p v, Progress-refl o s, omega (arith, less))
        | inr single ↦
            let sent = send_ping-Progress p s h v single in
            elim (Bool-cases (ltb_ℤ (net.sendto (length s.sent)) (pos 0) && ltb failures 4)) [
              | inl failed ↦ rw (single, failed) (h, v, sent, ground arith)
              | inr fine ↦ rw (single, fine) (advance-IsOf o p h, advance-IsPing p v, sent)
            ]
      ]

  TryPost-TurnPost :
      (failures : ℕ) (p : Ping) (s s' : Discovery) (t : Turn)
      → Progress o s s'
      → TryPost failures p s' t
      → TurnPost failures p s t
  TryPost-TurnPost failures p s s' (again q f u) a (h, v, b, less) = (
    h,
    v,
    Progress-trans o s s' u a b,
    subst (λ r. remaining r q + (4 - f) < remaining r p + (4 - failures)) a.ping_retries less,
  )
  TryPost-TurnPost failures p s s' (leave q u) a (h, v, b) = (h, v, Progress-trans o s s' u a b)
  TryPost-TurnPost failures p s s' (expired u) a b = absurd b
  TryPost-TurnPost failures p s s' exit a b = absurd b

  cached-TurnPost :
      (failures : ℕ) (p : Ping) (s : Discovery)
      → IsOf o p
      → IsPing p
      → p.retry ≤ s.ping_retries
      → s.ping_retries + 1 < 2 ^ 32
      → in_cache (ntohl p.current) s.cache ≡ true
      → TurnPost failures p s (
          again
            (advance p)
            failures
            (if p.retry == 0 then send_discover_reply (ntohl p.current) p s else s))
  cached-TurnPost failures p s h v r small cached =
      let less = remaining-advance s.ping_retries p v r small in
      elim (Bool-cases (p.retry == 0)) [
        | inl first ↦ rw first (
          advance-IsOf o p h,
          advance-IsPing p v,
          reply-Progress p s h v cached,
          omega (arith, less),
        )
        | inr later ↦
            rw later
              (advance-IsOf o p h, advance-IsPing p v, Progress-refl o s, omega (arith, less))
      ]

  pub turn-TurnPost :
      (failures : ℕ) (p : Ping) (s : Discovery)
      → IsOf o p
      → IsPing p
      → s.ping_retries + 1 < 2 ^ 32
      → TurnPost failures p s (turn net failures p s)
  unfolding turn
  turn-TurnPost failures p s h v small = elim (Bool-cases (ltb s.ping_retries p.retry)) [
    | inl late ↦ rw late (ap (λ a. remove_ping_q a s) h.address)
    | inr early ↦
        elim (Bool-cases (flag_force p.flags || not (in_cache (ntohl p.current) s.cache))) [
          | inl needed ↦ elim (opened s) [
            | inl (refused, closed) ↦ rw (early, needed, refused) closed
            | inr (s', given, a) ↦
                rw (early, needed, given)
                  (TryPost-TurnPost failures p s s' (try_ping net failures p s') a (
                    try_ping-TryPost failures p s' h v (ground (arith, a.ping_retries))
                      (omega (arith, a.ping_retries, small))))
          ]
          | inr known ↦
              rw (early, known)
                (cached-TurnPost failures p s h v (ground arith) small (ground arith))
        ]
  ]
