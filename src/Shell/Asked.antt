-- ===== src/Shell/Asked.antt =====
-- What the agent makes of the requests of the shell.
use cheops_ng.Prelude.{
  ℕ, ◌^◌, ◌≤◌, ◌<◌, ◌≡◌, ◌↔◌, refl, sym, ◌∙◌, ap, subst, ◌==◌, ◌⊎◌, true, false, Bool-cases, some,
  none-some, inl, inr, List, [], ◌∷◌, arith,
}
use cheops_ng.Prelude.Int.{pos}
use mathlib.Core.Bool.{false≢true}
use cheops_ng.Prelude.Bytes.{is_equal, ntohl, ntohl_bound}
use cheops_ng.Sched.Defs.{Os}
use cheops_ng.Discover.Defs.{Ping, Discovery, refused_zero, queued, handle_discover_request}
use cheops_ng.Discover.Queue.{IsValid}
use cheops_ng.Discover.Requests.{request-cases}
use cheops_ng.Shell.Bits.{bit_and}
use cheops_ng.Shell.Discover.{
  Net, Request, netmask, network, at_slash, asks, force_word, find_force, discover_words,
  do_discover,
}
use cheops_ng.Shell.Network.{netmask-IsTaken, network-mask, network-IsRange}

-- The discovery covers exactly the addresses that agree with the given one under the mask.
abbrev pub Covers : Ping → ℕ → ℕ → Type 0
Covers p address mask =
    (x : ℕ)
    → x < 2 ^ 32
    → ((ntohl p.start_ip ≤ x) × (x ≤ ntohl p.end_ip))
      ↔ (bit_and 32 x mask ≡ bit_and 32 address mask)

is_equal-same : (k l : List ℕ) → is_equal k l ≡ true → k ≡ l
unfolding is_equal
is_equal-same [] [] e = refl
is_equal-same [] (y ∷ l) e = absurd (false≢true e)
is_equal-same (x ∷ k) [] e = absurd (false≢true e)
is_equal-same (x ∷ k) (y ∷ l) e = elim (Bool-cases (x == y)) [
  | inl same ↦
      let head : x ≡ y = ground (arith, same) in
      let tail = is_equal-same k l (rw same at e) in λ i. head i ∷ tail i
  | inr other ↦ absurd (false≢true (rw other at e))
]

-- A word with a slash is not "force".
not_force :
    (word host c : List ℕ) → at_slash word ≡ some (host, c) → is_equal force_word word ≡ false
unfolding at_slash
not_force word host c e = elim (Bool-cases (is_equal force_word word)) [
  | inl same ↦ absurd (none-some (ap at_slash (is_equal-same force_word word same) ∙ e))
  | inr other ↦ other
]

-- A command with one word, of a host and a mask that are known, that event_send() sends.
pub do_discover-network :
    (net : Net) (word host c : List ℕ) (start mask flags : ℕ)
    → at_slash word ≡ some (host, c)
    → net.get_host host ≡ some start
    → netmask net c ≡ some mask
    → net.event_send (network (ntohl start) mask flags) ≡ true
    → do_discover net (word ∷ []) flags
      ≡ (flags, record { done = pos 0; sent = network (ntohl start) mask flags ∷ [] })
unfolding do_discover find_force discover_words asks
do_discover-network net word host c start mask flags split known masked sent =
    rw (not_force word host c split, split, known, masked, sent) refl

module _ (os : Os) (np agent : ℕ) (s : Discovery) (v : IsValid s) where
  -- What the agent does with a request for the addresses that agree with the given one under the mask: it
  -- refuses it where the first of them is 0, or queues a discovery that covers them.
  abbrev pub Takes : Request → ℕ → ℕ → Type 0
  Takes r address mask =
      ((r.first ≡ 0)
        × (handle_discover_request os true r.first r.last r.flags np agent s ≡ refused_zero))
      ⊎ ((p : Ping) × (s' : Discovery) × (handle_discover_request os true r.first r.last r.flags np
              agent s
            ≡ queued s')
          × (s'.ping_q ≡ p ∷ s.ping_q)
          × (p.current ≡ r.first)
          × Covers p address mask)

  handle_discover_request-network :
      (net : Net) (c : List ℕ) (address mask flags : ℕ)
      → address < 2 ^ 32
      → netmask net c ≡ some mask
      → Takes (network address mask flags) address mask
  handle_discover_request-network net c address mask flags h e =
      let r = network address mask flags in
      let m = netmask-IsTaken net c mask e in
      let range = network-IsRange address mask flags h m.ones in
      elim (request-cases os r.first r.last r.flags np agent s range.first_word range.last_word v) [
        | inl (behind, refused) ↦ let o = range.ordered in absurd (omega (arith, behind, o))
        | inr (inl (ordered, inl zero, refused)) ↦ inl (zero, refused)
        | inr (inl (ordered, inr zero, refused)) ↦ inl (omega (arith, ordered, zero), refused)
        | inr
              (inr (
                p, s', some_address, ordered, taken, valid, joined, range_of, others, scheduled,
                kept,
              )) ↦
            inr (
              p,
              s',
              taken,
              joined,
              range_of.2,
              λ x hx.
                  let n = network-mask address mask flags x h hx m.ones in
                  let sp : ntohl p.start_ip ≡ r.first = range_of.0 in
                  let ep : ntohl p.end_ip ≡ r.last = range_of.1 in
                  (
                    λ w. n.0 (subst (λ (y : ℕ). y ≤ x) sp w.0, subst (λ (y : ℕ). x ≤ y) ep w.1),
                    λ w.
                        let k = n.1 w in
                        (
                          subst (λ (y : ℕ). y ≤ x) (sym sp) k.0,
                          subst (λ (y : ℕ). x ≤ y) (sym ep) k.1,
                        ),
                  ),
            )
      ]

  -- The command "discover host/mask" of the shell, where the host and the mask are known and the event is
  -- sent: it returns 0 and sends one request. The agent refuses that request only as one with the address
  -- 0, where its first address is 0; otherwise it queues a discovery that begins at the first address and
  -- covers exactly the addresses that agree with the host's under the mask.
  pub do_discover-handle_discover_request :
      (net : Net) (word host c : List ℕ) (start mask flags : ℕ)
      → at_slash word ≡ some (host, c)
      → net.get_host host ≡ some start
      → netmask net c ≡ some mask
      → net.event_send (network (ntohl start) mask flags) ≡ true
      → (r : Request) × (do_discover net (word ∷ []) flags
          ≡ (flags, record { done = pos 0; sent = r ∷ [] }))
        × Takes r (ntohl start) mask
  do_discover-handle_discover_request net word host c start mask flags split known masked sent = (
    network (ntohl start) mask flags,
    do_discover-network net word host c start mask flags split known masked sent,
    handle_discover_request-network net c (ntohl start) mask flags (ntohl_bound start) masked,
  )
