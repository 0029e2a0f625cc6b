-- ===== src/Map/Trail.antt =====
-- The links that are reported for a request make a path.
use cheops_ng.Prelude.{
  ℕ, ◌≤◌, ◌<◌, ◌≡◌, ◌≢◌, refl, Bool, true, false, Bool-cases, ◌⊎◌, inl, inr, List, [], ◌∷◌, ltb,
  ◌==◌, if◌then◌else◌, All, arith, ap, subst, ◌∙◌, sym,
}
use cheops_ng.Map.Defs.{Request, Link, Trace, map_max, map_connect, drop_request, probe_trace}
use cheops_ng.Map.Packets.{is_for, next_hop, hop, arrive}

abbrev pub addresses : List Request → List ℕ
addresses [] = []
addresses (m ∷ ms) = m.address ∷ addresses ms

-- The links of a request, the last first.
unfoldable pub links_of : ℕ → List Link → List Link
links_of o [] = []
links_of o (l ∷ ls) = let rest = links_of o ls in if l.owner == o then l ∷ rest else rest

-- Each link begins where the one before it ended, from an origin to an end.
abbrev pub IsPath : ℕ → ℕ → List Link → Type 0
IsPath origin last [] = last ≡ origin
IsPath origin last (l ∷ ls) = (last ≡ l.ip2) × IsPath origin l.ip1 ls

pub drop-links :
    (is_first : Bool) (m : Request) (t : Trace) → (drop_request is_first m t).links ≡ t.links
drop-links true m t = refl
drop-links false m t = refl

module _ (local_ip : ℕ → ℕ) where
  -- The links of a request lead from the address of this host to the last hop that answered, of
  -- which there are 60 at most.
  pub record IsTraced (ls : List Link) (m : Request) : Type 0 where
    pub path : IsPath (local_ip m.dest) m.last (links_of m.address ls)
    pub started : 0 < m.ttl
    pub bounded : m.ttl ≤ map_max

  -- A request for another host than the one that answered, or one with the whole path to it.
  abbrev pub IsArrived : ℕ → List Link → Request → Type 0
  IsArrived source ls m =
      (m.dest ≢ source) ⊎ IsPath (local_ip m.dest) source (links_of m.address ls)

  pub IsTraced-same :
      (m : Request) (ls ls' : List Link)
      → links_of m.address ls' ≡ links_of m.address ls
      → IsTraced ls m
      → IsTraced ls' m
  IsTraced-same m ls ls' e h = record {
    path = subst (IsPath (local_ip m.dest) m.last) (sym e) h.path;
    started = h.started;
    bounded = h.bounded;
  }

  -- A link of one request leaves the others alone.
  pub connected-others :
      (m : Request) (addr1 addr2 : ℕ) (t : Trace) (ms : List Request)
      → All (λ a. a ≢ m.address) (addresses ms)
      → All (IsTraced t.links) ms
      → All (IsTraced (map_connect m addr1 addr2 t).links) ms
  unfolding links_of
  connected-others m addr1 addr2 t [] d h = tt
  connected-others m addr1 addr2 t (x ∷ ms) d h = (
    IsTraced-same x t.links (map_connect m addr1 addr2 t).links (ground (arith, d.0)) h.0,
    connected-others m addr1 addr2 t ms d.1 h.1,
  )

module _ (time : ℕ → ℕ) (source : ℕ) where
  pub hop-others :
      (dest o : ℕ) (is_first : Bool) (ms : List Request) (t : Trace)
      → All (λ a. a ≢ o) (addresses ms)
      → links_of o (hop time source dest is_first ms t).1.links ≡ links_of o t.links
  unfolding hop links_of
  hop-others dest o is_first [] t d = refl
  hop-others dest o is_first (m ∷ ms) t d = elim (Bool-cases (is_for dest m)) [
    | inr other ↦ rw other (hop-others dest o false ms t d.1)
    | inl found ↦ elim (Bool-cases (ltb m.ttl map_max)) [
      | inl more ↦
          rw (found, more)
            (hop-others dest o false ms
                (probe_trace time (next_hop source m) (map_connect m m.last source t)) d.1
              ∙ ground (arith, d.0))
      | inr far ↦
          rw (found, far)
            (hop-others dest o is_first ms (drop_request is_first m t) d.1
              ∙ ap (links_of o) (drop-links is_first m t))
    ]
  ]

  pub arrive-others :
      (o : ℕ) (is_first : Bool) (ms : List Request) (t : Trace)
      → All (λ a. a ≢ o) (addresses ms)
      → links_of o (arrive time source is_first ms t).2.links ≡ links_of o t.links
  unfolding arrive links_of
  arrive-others o is_first [] t d = refl
  arrive-others o is_first (m ∷ ms) t d =
      let u = map_connect m m.last source t in
      elim (Bool-cases (is_for source m)) [
        | inr other ↦ rw other (arrive-others o false ms t d.1)
        | inl found ↦ rw found (
            arrive-others o is_first ms (drop_request is_first m u) d.1
            ∙ ap (links_of o) (drop-links is_first m u)
            ∙ ground (arith, d.0))
      ]
