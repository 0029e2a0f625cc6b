-- ===== src/Shell/Network.antt =====
-- The addresses that a mask of the shell asks for.
use cheops_ng.Prelude.{
  ℕ, zero, suc, ◌+◌, ◌-◌, ◌*◌, ◌/◌, ◌%◌, ◌^◌, ◌≤◌, ◌<◌, ◌≡◌, ◌↔◌, refl, sym, ◌∙◌, ap, subst, ◌||◌,
  ◌&&◌, leb, ◌==◌, ltb, Bool, true, Bool-cases, Option-cases, Option, none, some, some_eq,
  none-some, inl, inr, List, arith, dec_lt,
}
use native.Mathlib.Nat.{two-pow-succ, mul_assoc}
use mathlib.Core.Bool.{false≢true}
use cheops_ng.Prelude.Decimal.{atoi}
use cheops_ng.Prelude.Bytes.{ntohl, ntohl_bound}
use cheops_ng.IpUtils.Mask.{IsMask, allones-IsMask}
use cheops_ng.Shell.Bits.{bit_and, bit_or, bit_not, bit_and-IsMasked, bit_or-ones}
use cheops_ng.Shell.Discover.{Net, dotted_mask, prefix_mask, netmask, network}

pow_lem : (j k : ℕ) → 2 ^ (j + k) ≡ 2 ^ j * 2 ^ k
pow_lem zero k =
    let a : 2 ^ (0 + k) ≡ 2 ^ k = ap (λ (i : ℕ). 2 ^ i) (omega arith) in a ∙ omega arith
pow_lem (suc j) k =
    let a : 2 ^ (suc j + k) ≡ 2 ^ suc (j + k) = ap (λ (i : ℕ). 2 ^ i) (omega arith) in
    let c : 2 * (2 ^ (j + k)) ≡ 2 * (2 ^ j * 2 ^ k) = ap (λ (i : ℕ). 2 * i) (pow_lem j k) in
    let t = two-pow-succ j in
    let u : 2 ^ suc j ≡ 2 * 2 ^ j = omega (arith, t) in
    let v = two-pow-succ (j + k) in
    let b : 2 ^ suc (j + k) ≡ 2 * 2 ^ (j + k) = omega (arith, v) in
    let d : 2 ^ suc j * 2 ^ k ≡ 2 * 2 ^ j * 2 ^ k = ap (λ (i : ℕ). i * 2 ^ k) u in
    let e : 2 * 2 ^ j * 2 ^ k ≡ 2 * (2 ^ j * 2 ^ k) = mul_assoc 2 (2 ^ j) (2 ^ k) in
    a ∙ b ∙ c ∙ sym (d ∙ e)

below_step : (q r p : ℕ) → q < r → q * p + p ≤ r * p
below_step q zero p h = absurd (omega arith)
below_step q (suc r) p h = elim (dec_lt q r) [
  | yes less ↦ let i = below_step q r p less in omega (arith, i)
  | no same ↦
      let e : q ≡ r = omega (arith, h) in subst (λ x. x * p + p ≤ suc r * p) (sym e) (omega arith)
]

-- Two multiples of a number that are nearer than it are the same.
same_multiple : (q r p : ℕ) → q * p < r * p + p → r * p < q * p + p → q * p ≡ r * p
same_multiple q r p h k = elim (dec_lt q r) [
  | yes less ↦ let i = below_step q r p less in absurd (omega (arith, i, k))
  | no up ↦ elim (dec_lt r q) [
    | yes less ↦ let i = below_step r q p less in absurd (omega (arith, i, h))
    | no down ↦ let e : q ≡ r = omega arith in ap (λ (x : ℕ). x * p) e
  ]
]

-- Behind a multiple of 2 ^ k below 2 ^ 32 there is room for the rest of its 2 ^ k numbers.
multiple_room :
    (q j k r : ℕ)
    → j + k ≡ 32
    → r < 2 ^ 32
    → r ≡ q * 2 ^ k
    → (ones : ℕ) → ones + 1 ≡ 2 ^ k
    → r + ones < 2 ^ 32
multiple_room q j k r split h m ones o =
    let all : 2 ^ 32 ≡ 2 ^ j * 2 ^ k = ap (λ (i : ℕ). 2 ^ i) (sym split) ∙ pow_lem j k in
    elim (dec_lt q (2 ^ j)) [
      | yes less ↦ let i = below_step q (2 ^ j) (2 ^ k) less in omega (arith, i, all, m, o)
      | no up ↦ elim (dec_lt (2 ^ j) q) [
        | yes less ↦
            let i = below_step (2 ^ j) q (2 ^ k) less in absurd (omega (arith, i, all, m, h))
        | no down ↦
            let e : q ≡ 2 ^ j = omega arith in
            let f : q * 2 ^ k ≡ 2 ^ j * 2 ^ k = ap (λ (x : ℕ). x * 2 ^ k) e in
            absurd (omega (arith, f, all, m, h))
      ]
    ]

-- With a mask of leading ones, the request of a network has exactly the addresses that agree with the
-- given one under the mask.
pub network-mask :
    (address mask flags x : ℕ)
    → address < 2 ^ 32
    → x < 2 ^ 32
    → IsMask mask
    → ((network address mask flags).first ≤ x × x ≤ (network address mask flags).last)
      ↔ (bit_and 32 x mask ≡ bit_and 32 address mask)
unfolding network
network-mask address mask flags x ha hx (k, below, e) =
    let a = bit_and-IsMasked 32 k address mask below ha e in
    let b = bit_and-IsMasked 32 k x mask below hx e in
    let r = bit_and 32 address mask in
    let s = bit_and 32 x mask in
    let wa : r + a.host ≡ address = a.whole in
    let wb : s + b.host ≡ x = b.whole in
    let sa : a.host < 2 ^ k = a.small in
    let sb : b.host < 2 ^ k = b.small in
    let ma : r ≡ a.net * 2 ^ k = a.multiple in
    let mb : s ≡ b.net * 2 ^ k = b.multiple in
    let last : bit_or 32 r (bit_not mask) ≡ r + bit_not mask =
      bit_or-ones 32 k a.net r (bit_not mask) below (omega arith) ma (omega (arith, e)) in
    (
      λ within.
          let low = within.0 in
          let high = subst (λ (y : ℕ). x ≤ y) last within.1 in
          mb
          ∙ same_multiple b.net a.net (2 ^ k) (omega (arith, low, high, e))
              (omega (arith, low, high, e))
          ∙ sym ma,
      λ same. (omega (arith, same), subst (λ (y : ℕ). x ≤ y) (sym last) (omega (arith, same, e))),
    )

pub record IsRange (first last : ℕ) : Type 0 where
  pub ordered : first ≤ last
  pub first_word : first < 2 ^ 32
  pub last_word : last < 2 ^ 32

pub network-IsRange :
    (address mask flags : ℕ)
    → address < 2 ^ 32
    → IsMask mask
    → IsRange (network address mask flags).first (network address mask flags).last
unfolding network
network-IsRange address mask flags ha (k, below, e) =
    let a = bit_and-IsMasked 32 k address mask below ha e in
    let r = bit_and 32 address mask in
    let whole : r + a.host ≡ address = a.whole in
    let small : a.host < 2 ^ k = a.small in
    let ones : bit_not mask + 1 ≡ 2 ^ k = omega (arith, e) in
    let last : bit_or 32 r (bit_not mask) ≡ r + bit_not mask =
      bit_or-ones 32 k a.net r (bit_not mask) below (omega (arith, whole, ha)) a.multiple ones in
    record {
      ordered = subst (λ (y : ℕ). r ≤ y) (sym last) (omega arith);
      first_word = omega (arith, whole, ha);
      last_word =
          subst (λ (y : ℕ). y < 2 ^ 32) (sym last)
            (multiple_room a.net (32 - k) k r (omega (arith, below)) (omega (arith, whole, ha))
              a.multiple (bit_not mask) ones);
    }

-- Ones from the top, at least one of them.
pub record IsTaken (mask : ℕ) : Type 0 where
  pub ones : IsMask mask
  pub top : 2 ^ 31 ≤ mask
  pub word : mask < 2 ^ 32

dotted_mask-IsTaken : (o : Option ℕ) (mask : ℕ) → dotted_mask o ≡ some mask → IsTaken mask
unfolding dotted_mask
dotted_mask-IsTaken none mask e = absurd (none-some e)
dotted_mask-IsTaken (some w) mask e = elim (Bool-cases (ltb (ntohl w) (2 ^ 31))) [
  | inl low ↦ absurd (none-some (rw low at e))
  | inr high ↦
      let (b, ran, exact) = allones-IsMask (ntohl w) (ntohl_bound w) in
      elim (Bool-cases b) [
        | inl ones ↦
            let same : ntohl w ≡ mask = some_eq (rw (high, ran, ones) at e) in
            subst IsTaken same
              (record { ones = exact.0 ones; top = ground (arith, high); word = ntohl_bound w })
        | inr mixed ↦ absurd (none-some (rw (high, ran, mixed) at e))
      ]
]

all_below : ℕ → (ℕ → Bool) → Bool
all_below zero f = true
all_below (suc n) f = let rest = all_below n f in f n && rest

all_below_lem : (n : ℕ) (f : ℕ → Bool) (k : ℕ) → all_below n f ≡ true → k < n → f k ≡ true
unfolding all_below
all_below_lem zero f k e h = absurd (omega arith)
all_below_lem (suc n) f k e h = elim (Bool-cases (f n)) [
  | inr no_here ↦ absurd (false≢true (rw no_here at e))
  | inl here ↦ elim (dec_lt k n) [
    | yes less ↦ all_below_lem n f k (rw here at e) less
    | no same ↦ let i : n ≡ k = omega arith in subst (λ j. f j ≡ true) i here
  ]
]

-- With `k` zeros.
abbrev is_shifted : ℕ → Bool
is_shifted k =
    let mask = (2 ^ 32 - 1) / 2 ^ k * 2 ^ k % 2 ^ 32 in
    (mask + 2 ^ k == 2 ^ 32) && (leb (2 ^ 31) mask && ltb mask (2 ^ 32))

shifted : (k : ℕ) → k < 32 → is_shifted k ≡ true
unfolding all_below
shifted k h = all_below_lem 32 is_shifted k refl h

prefix_mask-IsTaken : (n mask : ℕ) → prefix_mask n ≡ some mask → IsTaken mask
unfolding prefix_mask
prefix_mask-IsTaken n mask e = elim (Bool-cases (ltb n 1 || ltb 32 n)) [
  | inl out ↦ absurd (none-some (rw out at e))
  | inr within ↦
      let k = 32 - n in
      let f = shifted k (ground (arith, within)) in
      subst IsTaken (some_eq (rw within at e)) (record {
        ones = (k, omega arith, ground (arith, f));
        top = ground (arith, f);
        word = ground (arith, f);
      })
]

-- A mask that the shell takes, in dots or as a number, is one of leading ones, at least one of them.
pub netmask-IsTaken : (net : Net) (c : List ℕ) (mask : ℕ) → netmask net c ≡ some mask → IsTaken mask
unfolding netmask
netmask-IsTaken net c mask e = elim (Option-cases (dotted_mask (net.inet_aton c))) [
  | inl other ↦ prefix_mask-IsTaken (atoi c) mask (rw (netmask, other) at e)
  | inr (m, dotted) ↦
      subst IsTaken (some_eq (rw (netmask, dotted) at e))
        (dotted_mask-IsTaken (net.inet_aton c) m dotted)
]
