-- ===== src/Shell/Bits.antt =====
-- The operators & and | on words, and a mask of leading ones.
use cheops_ng.Prelude.{
  true, false, ℕ, zero, suc, ◌+◌, ◌-◌, ◌*◌, ◌/◌, ◌%◌, ◌^◌, ◌≤◌, ◌<◌, ◌≡◌, ◌∙◌, ap, ◌==◌,
  if◌then◌else◌, arith,
}
use native.Mathlib.Nat.{two-pow-succ}
use cheops_ng.IpUtils.Mask.{double_mul}

-- Of the `n` low bits.
unfoldable pub bit_and : ℕ → ℕ → ℕ → ℕ
bit_and zero a b = 0
bit_and (suc n) a b = (if b % 2 == 1 then a % 2 else 0) + 2 * bit_and n (a / 2) (b / 2)

unfoldable pub bit_or : ℕ → ℕ → ℕ → ℕ
bit_or zero a b = 0
bit_or (suc n) a b = (if b % 2 == 1 then 1 else a % 2) + 2 * bit_or n (a / 2) (b / 2)

-- ~ of 32 bits.
abbrev pub bit_not : ℕ → ℕ
bit_not a = 2 ^ 32 - 1 - a

-- The part of a number that a mask with `k` zeros at its end keeps, and the part that it drops.
pub record IsMasked (k a r : ℕ) : Type 0 where
  pub net : ℕ
  pub host : ℕ
  pub small : host < 2 ^ k
  pub whole : r + host ≡ a
  pub multiple : r ≡ net * 2 ^ k

pub bit_and-IsMasked :
    (n k a mask : ℕ) → k ≤ n → a < 2 ^ n → mask + 2 ^ k ≡ 2 ^ n → IsMasked k a (bit_and n a mask)
unfolding bit_and
bit_and-IsMasked zero zero a mask below h m = record {
  net = 0;
  host = 0;
  small = omega arith;
  whole = omega (arith, h);
  multiple = omega arith;
}
bit_and-IsMasked zero (suc k) a mask below h m = absurd (omega (arith, below))
bit_and-IsMasked (suc n) zero a mask below h m =
    let t = two-pow-succ n in
    let i =
      bit_and-IsMasked n zero (a / 2) (mask / 2) (omega arith) (omega (arith, h, t))
        (omega (arith, m, t)) in
    let w = i.whole in
    let s = i.small in
    let odd : (mask % 2 == 1) ≡ true = ground (arith, m, t) in
    record {
      net = a;
      host = 0;
      small = omega arith;
      whole = rw odd (omega (arith, w, s));
      multiple = rw odd (omega (arith, w, s));
    }
bit_and-IsMasked (suc n) (suc k) a mask below h m =
    let t = two-pow-succ n in
    let u = two-pow-succ k in
    let i =
      bit_and-IsMasked n k (a / 2) (mask / 2) (omega (arith, below)) (omega (arith, h, t))
        (omega (arith, m, t, u)) in
    let w = i.whole in
    let s = i.small in
    let even : (mask % 2 == 1) ≡ false = ground (arith, m, t, u) in
    let e = i.multiple in
    let d = double_mul i.net k in
    let c : 2 * i.net * 2 ^ k ≡ 2 * (i.net * 2 ^ k) = omega arith in
    record {
      net = i.net;
      host = 2 * i.host + a % 2;
      small = omega (arith, u, s);
      whole = rw even (omega (arith, w));
      multiple = rw even (omega (arith, e, d, c));
    }

-- Or with the ones of the places that the mask drops.
pub bit_or-ones :
    (n k net r ones : ℕ)
    → k ≤ n
    → r < 2 ^ n
    → r ≡ net * 2 ^ k
    → ones + 1 ≡ 2 ^ k
    → bit_or n r ones ≡ r + ones
unfolding bit_or
bit_or-ones zero zero net r ones below h m o = omega (arith, h, o)
bit_or-ones zero (suc k) net r ones below h m o = absurd (omega (arith, below))
bit_or-ones (suc n) zero net r ones below h m o =
    let t = two-pow-succ n in
    let i =
      bit_or-ones n zero (r / 2) (r / 2) 0 (omega arith) (omega (arith, h, t)) (omega arith)
        (omega arith) in
    let z : ones ≡ 0 = omega (arith, o) in
    let even : (ones % 2 == 1) ≡ false = ground (arith, z) in
    let half : ones / 2 ≡ 0 = omega (arith, z) in
    rw even (ap (λ (x : ℕ). r % 2 + 2 * bit_or n (r / 2) x) half ∙ omega (arith, i, z))
bit_or-ones (suc n) (suc k) net r ones below h m o =
    let t = two-pow-succ n in
    let u = two-pow-succ k in
    let d = double_mul net k in
    let c : 2 * net * 2 ^ k ≡ 2 * (net * 2 ^ k) = omega arith in
    let i =
      bit_or-ones n k net (r / 2) (ones / 2) (omega (arith, below)) (omega (arith, h, t))
        (omega (arith, m, d, c)) (omega (arith, o, u)) in
    let odd : (ones % 2 == 1) ≡ true = ground (arith, o, u) in
    rw odd (omega (arith, i, m, d, c, o, u))
