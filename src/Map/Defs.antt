-- ===== src/Map/Defs.antt =====
-- The requests of agent-map.c, their timeouts and the new ones. `init_map_socket`, which ends the
-- program when it gets no socket, is left out, as are the contents of the probes.
use cheops_ng.Prelude.{
  ℕ, zero, suc, ◌+◌, Bool, true, false, List, [], ◌∷◌, ltb, ◌==◌, ◌&&◌, if◌then◌else◌,
}
use cheops_ng.Prelude.Bytes.{ntohl}
use cheops_ng.Prelude.Int.{ℤ, pos, eqb_ℤ}
use cheops_ng.Sched.Defs.{Scheduler, Os, sched_add}

-- `struct map_request`, with its address; the link `next` is the order of the list.
pub record Request : Type 0 where
  pub address : ℕ
  pub np : ℕ
  pub dest : ℕ
  pub last : ℕ
  pub ttl : ℕ
  pub retries : ℕ
  pub sent : ℕ
  pub agent : ℕ

-- A message of REPLY_MAP_ICMP, with the request that it is sent for, which it does not carry.
pub record Link : Type 0 where
  pub owner : ℕ
  pub agent : ℕ
  pub np : ℕ
  pub dest : ℕ
  pub ip1 : ℕ
  pub ip2 : ℕ

-- A packet that `sendicmp` was called for.
pub record Probe : Type 0 where
  pub dest : ℕ
  pub ttl : ℕ

-- What was done so far, the last first, and the calls of time() so far.
pub record Trace : Type 0 where
  pub links : List Link
  pub probes : List Probe
  pub freed : List ℕ
  pub ticks : ℕ

-- The static variables, and the next pointer that malloc() will give.
pub record Mapper : Type 0 where
  pub mrq : List Request
  pub timeout_installed : ℤ
  pub scheduler : Scheduler
  pub next : ℕ
  pub trace : Trace

abbrev pub map_max : ℕ
map_max = 60

abbrev pub map_timeout_max : ℕ
map_timeout_max = 5

abbrev pub map_request_timeout : ℕ
map_request_timeout = 10

abbrev pub max_map_request_retries : ℕ
max_map_request_retries = 3

abbrev pub map_timeout_callback : ℕ
map_timeout_callback = 2

-- `map_connect`; the addresses are those of the arguments.
abbrev pub map_connect : Request → ℕ → ℕ → Trace → Trace
map_connect m addr1 addr2 t = record t {
  links =
      record {
        owner = m.address;
        agent = m.agent;
        np = m.np;
        dest = m.dest;
        ip1 = addr1;
        ip2 = addr2;
      }
      ∷ t.links;
}

-- Out of the list: the first request is unlinked and not freed.
abbrev pub drop_request : Bool → Request → Trace → Trace
drop_request is_first m t = if is_first then t else record t { freed = m.address ∷ t.freed }

unfoldable pub has_request : ℕ → ℕ → List Request → Bool
has_request ip np [] = false
has_request ip np (m ∷ ms) =
    let rest = has_request ip np ms in if m.dest == ip && np == m.np then true else rest

abbrev pub new_request : ℕ → ℕ → ℕ → ℕ → ℕ → Request
new_request address ip local agent np = record {
  address = address;
  np = np;
  dest = ip;
  last = local;
  ttl = 1;
  retries = 0;
  sent = 0;
  agent = agent;
}

module _ (time : ℕ → ℕ) where
  abbrev pub probed : Request → Trace → Request
  probed m t = record m { retries = m.retries + 1; sent = time t.ticks }

  abbrev pub probe_trace : Request → Trace → Trace
  probe_trace m t = record t {
    probes = record { dest = m.dest; ttl = m.ttl } ∷ t.probes;
    ticks = t.ticks + 1;
  }

  -- The loop of `map_timeout` from a request on: `budget` timeouts more are dealt with, and
  -- `is_first` tells that no request in front was kept. A request that is probed is looked at again.
  unfoldable pub expire : ℕ → ℕ → Bool → List Request → Trace → List Request × Trace
  expire current budget is_first [] t = ([], t)
  expire current zero is_first (m ∷ ms) t =
      let (rest, t') = expire current zero false ms t in
      if ltb (m.sent + map_request_timeout) current then (m ∷ ms, t) else (m ∷ rest, t')
  expire current (suc budget) is_first (m ∷ ms) t =
      let (rest, t') = expire current (suc budget) false ms t in
      let dropped = expire current budget is_first ms (drop_request is_first m t) in
      let again = expire current budget is_first (probed m t ∷ ms) (probe_trace m t) in
      if ltb (m.sent + map_request_timeout) current
      then (if ltb max_map_request_retries m.retries then dropped else again)
      else (m ∷ rest, t')

  unfoldable pub map_timeout : Mapper → Bool × Mapper
  unfolding expire
  map_timeout s =
      let t = record s.trace { ticks = s.trace.ticks + 1 } in
      let (mrq, t') = expire (time s.trace.ticks) map_timeout_max true s.mrq t in
      elim s.mrq [
        | [] ↦ (false, record s { timeout_installed = pos 0; trace = t })
        | _ ∷ _ ↦ (true, record s { mrq = mrq; trace = t' })
      ]

  -- `start_mapping`; `local_ip` is what `getlocalip` returns for an address.
  unfoldable pub start_mapping : Os → (ℕ → ℕ) → ℕ → ℕ → ℕ → Mapper → Mapper
  unfolding has_request sched_add
  start_mapping os local_ip ip agent np s =
      let m = new_request s.next ip (local_ip ip) agent np in
      let (id, scheduler) = sched_add os (pos 100) map_timeout_callback 0 s.scheduler in
      let added = record s {
        mrq = probed m s.trace ∷ s.mrq;
        next = s.next + 1;
        trace = probe_trace m s.trace;
      } in
      if local_ip ip == ip
      then s
      else (if has_request ip np s.mrq
          then s
          else (if eqb_ℤ s.timeout_installed (pos 0)
              then record added { timeout_installed = id; scheduler = scheduler }
              else added))

  -- The address of the event, as it came.
  unfoldable pub handle_map_icmp_request : Os → (ℕ → ℕ) → ℕ → ℕ → ℕ → Mapper → Mapper
  unfolding start_mapping
  handle_map_icmp_request os local_ip event_ip agent np s =
      start_mapping os local_ip (ntohl event_ip) agent np s
