-- ===== src/Discover/Range.antt =====
-- The addresses of a discovery: `current` stays between the first and the last one, and the passes
-- over them come to an end.
use cheops_ng.Prelude.{
  ℕ, suc, ◌+◌, ◌-◌, ◌*◌, ◌%◌, ◌^◌, ◌≤◌, ◌<◌, ◌≡◌, Bool-cases, inl, inr, ◌==◌, arith, ap, ◌∙◌,
  ==_iff,
}
use cheops_ng.Prelude.Bytes.{ntohl, ntohl_bound}
use cheops_ng.Discover.Defs.{Ping}
use cheops_ng.Discover.Send.{advance}

pub record IsPing (p : Ping) : Type 0 where
  pub low : ntohl p.start_ip ≤ p.current
  pub high : p.current ≤ ntohl p.end_ip

-- The addresses that a pass visits.
abbrev pub span : Ping → ℕ
span p = ntohl p.end_ip + 1 - ntohl p.start_ip

-- How often the loop can advance before the passes are over.
unfoldable pub remaining : ℕ → Ping → ℕ
remaining retries p = (retries + 1 - p.retry) * span p + (ntohl p.end_ip - p.current)

pub advance-IsPing : (p : Ping) → IsPing p → IsPing (advance p)
unfolding advance
advance-IsPing p v = ground (arith, ntohl_bound p.end_ip)

-- The product falls by a whole pass.
pass_less : (a b n : ℕ) → a ≡ suc b → a * n ≡ b * n + n
pass_less a b n e = ap (λ k. k * n) e ∙ grind arith

remaining-last :
    (retries : ℕ) (p : Ping)
    → IsPing p
    → p.retry ≤ retries
    → retries + 1 < 2 ^ 32
    → p.current ≡ ntohl p.end_ip
    → remaining retries (record p { current = ntohl p.start_ip; retry = (p.retry + 1) % 2 ^ 32 })
        + 1
      ≡ remaining retries p
unfolding remaining
remaining-last retries p v h small last =
    let less : retries + 1 - p.retry ≡ suc (retries + 1 - (p.retry + 1) % 2 ^ 32) = omega arith in
    omega (
      arith,
      v.low,
      last,
      pass_less (retries + 1 - p.retry) (retries + 1 - (p.retry + 1) % 2 ^ 32) (span p) less,
    )

remaining-more :
    (retries : ℕ) (p : Ping)
    → p.current + 1 ≤ ntohl p.end_ip
    → remaining retries (record p { current = (p.current + 1) % 2 ^ 32 }) + 1 ≡ remaining retries p
unfolding remaining
remaining-more retries p h = omega (arith, ntohl_bound p.end_ip)

-- Each advance takes one step off what remains.
pub remaining-advance :
    (retries : ℕ) (p : Ping)
    → IsPing p
    → p.retry ≤ retries
    → retries + 1 < 2 ^ 32
    → remaining retries (advance p) + 1 ≡ remaining retries p
unfolding advance
remaining-advance retries p v h small = elim (Bool-cases (p.current == ntohl p.end_ip)) [
  | inl last ↦
      rw last (remaining-last retries p v h small ((==_iff p.current (ntohl p.end_ip)).0 last))
  | inr more ↦ rw more (remaining-more retries p (ground (arith, v.high, ntohl_bound p.end_ip)))
]
