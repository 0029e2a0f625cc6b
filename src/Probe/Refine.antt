-- ===== src/Probe/Refine.antt =====
-- The table of probes implements a map from ports to callbacks, in which the last registration wins.
use cheops_ng.Prelude.{
  ℕ, ◌<◌, ◌≡◌, refl, true, Bool-cases, inl, inr, List, [], ◌∷◌, All, Option, none, some, ◌==◌,
  ==_iff, if◌then◌else◌, arith, ap, sym, ◌∙◌,
}
use cheops_ng.Probe.Defs.{Probe, Probes, get_probe, register_probe, register_all}
use cheops_ng.Probe.Table.{IsTable, register_probe-IsTable}

-- What a port is probed with.
pub record Handlers : Type 0 where
  pub send : ℕ
  pub send_arg : ℕ
  pub recieve : ℕ
  pub recieve_arg : ℕ

abbrev pub handlers : Probe → Handlers
handlers p = record {
  send = p.send;
  send_arg = p.send_arg;
  recieve = p.recieve;
  recieve_arg = p.recieve_arg;
}

abbrev pub handlers_of : Option Probe → Option Handlers
handlers_of none = none
handlers_of (some p) = some (handlers p)

-- The map that a table stands for: the pointers and the order are forgotten.
abbrev pub view : Probes → ℕ → Option Handlers
view s port = handlers_of (get_probe port s.list)

-- The specification: each registration sets the value of its port.
abbrev pub update : Probe → (ℕ → Option Handlers) → ℕ → Option Handlers
update p f port = if p.port == port then some (handlers p) else f port

abbrev pub update_all : List Probe → (ℕ → Option Handlers) → ℕ → Option Handlers
update_all [] f = f
update_all (p ∷ l) f = update_all l (update p f)

update_all-same :
    (l : List Probe) (f g : ℕ → Option Handlers)
    → ((port : ℕ) → f port ≡ g port)
    → (port : ℕ) → update_all l f port ≡ update_all l g port
update_all-same [] f g e port = e port
update_all-same (p ∷ l) f g e port = update_all-same l (update p f) (update p g) same port
  where
    same : (q : ℕ) → update p f q ≡ update p g q
    same q = elim (Bool-cases (p.port == q)) [ inl own ↦ rw own refl | inr other ↦ rw other (e q) ]

-- One registration.
register_probe-update :
    (p : Probe) (s : Probes)
    → 0 < p.port
    → IsTable s
    → (s' : Probes) × (register_probe true p.port p.send p.send_arg p.recieve p.recieve_arg s
        ≡ some s')
      × IsTable s'
      × ((port : ℕ) → view s' port ≡ update p (view s) port)
register_probe-update p s lt v =
    let (s', e, v', own, others) =
      register_probe-IsTable p.port p.send p.send_arg p.recieve p.recieve_arg s lt v in
    (
      s',
      e,
      v',
      λ port. elim (Bool-cases (p.port == port)) [
        | inl same ↦
            let at_port =
              ap (λ (q : ℕ). handlers_of (get_probe q s'.list))
                (sym ((==_iff p.port port).0 same)) in
            rw same (at_port ∙ ap handlers_of own)
        | inr other ↦ rw other (ap handlers_of (others port (ground (arith, other))))
      ],
    )

-- Any registrations of ports that are not 0, as those of `init_probes`, while malloc() gives memory:
-- they succeed, the table keeps distinct ports and pointers, and each port is looked up as in the map
-- that the same registrations make of what was there.
pub register_all-update_all :
    (l : List Probe) (s : Probes)
    → All (λ p. 0 < p.port) l
    → IsTable s
    → (s' : Probes) × (register_all l s ≡ some s')
      × IsTable s'
      × ((port : ℕ) → view s' port ≡ update_all l (view s) port)
unfolding register_all
register_all-update_all [] s h v = (s, refl, v, λ port. refl)
register_all-update_all (p ∷ l) s h v =
    let (s1, e, v1, w1) = register_probe-update p s h.0 v in
    let (s2, e2, v2, w2) = register_all-update_all l s1 h.1 v1 in
    (
      s2,
      ap continue e ∙ e2,
      v2,
      λ port. w2 port ∙ update_all-same l (view s1) (update p (view s)) w1 port,
    )
  where
    continue : Option Probes → Option Probes
    continue none = none
    continue (some x) = register_all l x
