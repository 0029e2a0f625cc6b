-- ===== src/Probe/Table.antt =====
-- The table of probes holds one probe for a port, and a registration is an update of the lookup.
use cheops_ng.Prelude.{
  IsDistinct, ◌≢◌, ℕ, ◌+◌, ◌<◌, ◌≡◌, refl, true, false, Bool-cases, inl, inr, List, [], ◌∷◌, ◌++◌,
  All, All-map, Option, none, some, some_eq, ◌==◌, ==_iff, arith, ap, sym, subst, ◌∙◌,
}
use cheops_ng.Probe.Defs.{Probe, Probes, get_probe, without, remove_probe, made, register_probe}

abbrev pub keys : (Probe → ℕ) → List Probe → List ℕ
keys f [] = []
keys f (p ∷ l) = f p ∷ keys f l

abbrev pub port_of : Probe → ℕ
port_of p = p.port

abbrev pub address_of : Probe → ℕ
address_of p = p.address

-- Distinct ports, and distinct pointers that malloc() gave.
pub record IsTable (s : Probes) : Type 0 where
  pub ports : IsDistinct (keys port_of s.list)
  pub addresses : IsDistinct (keys address_of s.list)
  pub fresh : All (λ a. a < s.next) (keys address_of s.list)

All-without :
    (f : Probe → ℕ) (P : ℕ → Type 0) (a : ℕ) (l : List Probe)
    → All P (keys f l)
    → All P (keys f (without a l))
unfolding without
All-without f P a [] h = tt
All-without f P a (x ∷ l) h = elim (Bool-cases (x.address == a)) [
  | inl same ↦ rw same h.1
  | inr other ↦ rw other (h.0, All-without f P a l h.1)
]

without-IsDistinct :
    (f : Probe → ℕ) (a : ℕ) (l : List Probe)
    → IsDistinct (keys f l)
    → IsDistinct (keys f (without a l))
unfolding without
without-IsDistinct f a [] h = tt
without-IsDistinct f a (x ∷ l) h = elim (Bool-cases (x.address == a)) [
  | inl same ↦ rw same h.1
  | inr other ↦ rw other (All-without f _ a l h.0, without-IsDistinct f a l h.1)
]

All-snoc :
    (f : Probe → ℕ) (P : ℕ → Type 0) (l : List Probe) (x : Probe)
    → All P (keys f l)
    → P (f x)
    → All P (keys f (l ++ (x ∷ [])))
All-snoc f P [] x h p = (p, tt)
All-snoc f P (y ∷ l) x h p = (h.0, All-snoc f P l x h.1 p)

snoc-IsDistinct :
    (f : Probe → ℕ) (l : List Probe) (x : Probe)
    → IsDistinct (keys f l)
    → All (λ b. b ≢ f x) (keys f l)
    → IsDistinct (keys f (l ++ (x ∷ [])))
snoc-IsDistinct f [] x d n = (tt, tt)
snoc-IsDistinct f (y ∷ l) x d n =
    (All-snoc f _ l x d.0 (λ e. n.0 (sym e)), snoc-IsDistinct f l x d.1 n.1)

get_probe-absent :
    (port : ℕ) (l : List Probe) → get_probe port l ≡ none → All (λ q. q ≢ port) (keys port_of l)
unfolding get_probe
get_probe-absent port [] e = tt
get_probe-absent port (x ∷ l) e = elim (Bool-cases (x.port == port)) [
  | inl same ↦ absurd (ground (arith, same, e))
  | inr other ↦ (ground (arith, other), get_probe-absent port l (rw other at e))
]

absent-get_probe :
    (port : ℕ) (l : List Probe) → All (λ q. q ≢ port) (keys port_of l) → get_probe port l ≡ none
unfolding get_probe
absent-get_probe port [] h = refl
absent-get_probe port (x ∷ l) h = ground (arith, h.0, absent-get_probe port l h.1)

-- What is found is of the port, and has every property that all pointers have.
get_probe-found :
    (P : ℕ → Type 0) (port : ℕ) (l : List Probe) (p : Probe)
    → All P (keys address_of l)
    → get_probe port l ≡ some p
    → (p.port ≡ port) × P p.address
unfolding get_probe
get_probe-found P port [] p h e = absurd (cc)
get_probe-found P port (x ∷ l) p h e = elim (Bool-cases (x.port == port)) [
  | inl same ↦
      let it : some x ≡ some p = rw same at e in
      subst (λ y. (y.port ≡ port) × P y.address) (some_eq it) ((==_iff x.port port).0 same, h.0)
  | inr other ↦ get_probe-found P port l p h.1 (rw other at e)
]

get_probe-without :
    (port : ℕ) (l : List Probe) (p : Probe)
    → IsDistinct (keys port_of l)
    → IsDistinct (keys address_of l)
    → get_probe port l ≡ some p
    → (get_probe port (without p.address l) ≡ none)
      × ((other : ℕ) → other ≢ port → get_probe other (without p.address l) ≡ get_probe other l)
unfolding get_probe without
get_probe-without port [] p d a e = absurd (cc)
get_probe-without port (x ∷ l) p d a e = elim (Bool-cases (x.port == port)) [
  | inl same ↦
      let it : x ≡ p = some_eq (rw same at e) in
      let at_port : x.port ≡ port = (==_iff x.port port).0 same in
      let own : (x.address == p.address) ≡ true =
        (==_iff x.address p.address).1 (ap address_of it) in
      let later = subst (λ q. All (λ r. r ≢ q) (keys port_of l)) at_port d.0 in
      rw own (absent-get_probe port l later, λ o n. ground (arith, at_port, n))
  | inr other ↦
      let rest : get_probe port l ≡ some p = rw other at e in
      let (gone, others) = get_probe-without port l p d.1 a.1 rest in
      let apart = (get_probe-found (λ b. b ≢ x.address) port l p a.0 rest).1 in
      let not_it : (x.address == p.address) ≡ false = ground (arith, apart) in
      rw not_it (ground (arith, other, gone), λ o n. ground (arith, others o n))
]

-- At the end of a list that has no probe of the port.
get_probe-snoc :
    (port : ℕ) (l : List Probe) (x : Probe)
    → x.port ≡ port
    → get_probe port l ≡ none
    → (get_probe port (l ++ (x ∷ [])) ≡ some x)
      × ((other : ℕ) → other ≢ port → get_probe other (l ++ (x ∷ [])) ≡ get_probe other l)
unfolding get_probe
get_probe-snoc port [] x e h = (ground (arith, e), λ o n. ground (arith, e, n))
get_probe-snoc port (y ∷ l) x e h = elim (Bool-cases (y.port == port)) [
  | inl same ↦ absurd (ground (arith, same, h))
  | inr other ↦
      let (found, others) = get_probe-snoc port l x e (rw other at h) in
      (ground (arith, other, found), λ o n. ground (arith, others o n))
]

-- The table without the probes of a port, and the lookup of the other ports in it.
record Cleared (port : ℕ) (s s' : Probes) : Type 0 where
  pub table : IsTable s'
  pub gone : get_probe port s'.list ≡ none
  pub others : (other : ℕ) → other ≢ port → get_probe other s'.list ≡ get_probe other s.list
  pub next : s'.next ≡ s.next

cleared :
    (port : ℕ) (s : Probes) → IsTable s → Cleared port s (remove_probe (get_probe port s.list) s)
unfolding remove_probe
cleared port s v = on (get_probe port s.list) refl
  where
    on : (o : Option Probe) → get_probe port s.list ≡ o → Cleared port s (remove_probe o s)
    on none e = record { table = v; gone = e; others = λ o n. refl; next = refl }
    on (some p) e = record {
      table = record {
        ports = without-IsDistinct port_of p.address s.list v.ports;
        addresses = without-IsDistinct address_of p.address s.list v.addresses;
        fresh = All-without address_of _ p.address s.list v.fresh;
      };
      gone = (get_probe-without port s.list p v.ports v.addresses e).0;
      others = (get_probe-without port s.list p v.ports v.addresses e).1;
      next = refl;
    }

-- `register_probe` of a port, while malloc() gives memory: the port has the new probe and no other,
-- every other port has what it had, and the table keeps distinct ports and distinct pointers.
pub register_probe-IsTable :
    (port send send_arg recieve recieve_arg : ℕ) (s : Probes)
    → 0 < port
    → IsTable s
    → (s' : Probes) × (register_probe true port send send_arg recieve recieve_arg s ≡ some s')
      × IsTable s'
      × (get_probe port s'.list ≡ some (made s.next port send send_arg recieve recieve_arg))
      × ((other : ℕ) → other ≢ port → get_probe other s'.list ≡ get_probe other s.list)
unfolding register_probe
register_probe-IsTable port send send_arg recieve recieve_arg s lt v =
    let s1 = remove_probe (get_probe port s.list) s in
    let c = cleared port s v in
    let x = made s1.next port send send_arg recieve recieve_arg in
    let snoc = get_probe-snoc port s1.list x refl c.gone in
    let table : IsTable (record s1 { list = s1.list ++ (x ∷ []); next = s1.next + 1 }) = record {
      ports =
          snoc-IsDistinct port_of s1.list x c.table.ports (get_probe-absent port s1.list c.gone);
      addresses =
          snoc-IsDistinct address_of s1.list x c.table.addresses
            (All-map _ _ _ (λ a h e. absurd (omega (arith, h, e))) c.table.fresh);
      fresh =
          All-snoc address_of _ s1.list x (All-map _ _ _ (λ a h. omega (arith, h)) c.table.fresh)
            (omega arith);
    } in
    (
      _,
      ground (arith, lt),
      table,
      snoc.0 ∙ ap (λ n. some (made n port send send_arg recieve recieve_arg)) c.next,
      λ o n. snoc.1 o n ∙ c.others o n,
    )
