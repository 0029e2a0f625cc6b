-- ===== src/IpUtils/Mask.antt =====
-- `allones` accepts exactly the network masks.
use native.Mathlib.Nat.{mul_assoc, pow-succ', two-pow-succ, pow-le-pow_right}
use cheops_ng.Prelude.{
  ℕ, zero, suc, ◌+◌, ◌-◌, ◌*◌, ◌%◌, ◌^◌, ◌≤◌, ◌<◌, ◌≡◌, ◌↔◌, Bool, true, Bool-cases, inl, inr, some,
  leb, ◌==◌, arith, ap, ◌∙◌, sym, subst, dec_lt,
}
use cheops_ng.IpUtils.Defs.{allones}

-- `k` zeros behind ones in 32 bits.
abbrev pub IsMask : ℕ → Type 0
IsMask mask = (k : ℕ) × (k ≤ 32) × (mask + 2 ^ k ≡ 2 ^ 32)

pub double_mul : (r n : ℕ) → r * 2 ^ suc n ≡ 2 * r * 2 ^ n
double_mul r n =
    let comm : r * 2 ≡ 2 * r = omega arith in
    ap (λ k. r * k) (pow-succ' 2 n) ∙ sym (mul_assoc r 2 (2 ^ n)) ∙ ap (λ k. k * 2 ^ n) comm

pow_small : (k : ℕ) → k ≤ 31 → 2 ^ k ≤ 2 ^ 31
pow_small k h = pow-le-pow_right (omega arith) h

-- A mask below 2 ^ 31 is none but 0.
small_mask : (mask : ℕ) → mask < 2 ^ 31 → IsMask mask → mask ≡ 0
small_mask mask h (k, below, e) = elim (dec_lt k 32) [
  | yes less ↦ absurd (omega (arith, pow_small k (omega arith), e))
  | no top ↦ let same : k ≡ 32 = omega arith in omega (arith, e, ap (λ j. 2 ^ j) same)
]

-- The shift keeps masks, and makes none.
shift-IsMask : (mask : ℕ) → 2 ^ 31 ≤ mask → mask < 2 ^ 32 → IsMask mask → IsMask (mask * 2 % 2 ^ 32)
shift-IsMask mask h s (k, below, e) = elim (dec_lt k 32) [
  | yes less ↦ (suc k, less, omega (arith, e, two-pow-succ k))
  | no top ↦ let same : k ≡ 32 = omega arith in absurd (omega (arith, e, ap (λ j. 2 ^ j) same))
]

unshift-IsMask :
    (mask : ℕ) → 2 ^ 31 ≤ mask → mask < 2 ^ 32 → IsMask (mask * 2 % 2 ^ 32) → IsMask mask
unshift-IsMask mask h s (zero, below, e) = absurd (omega (arith, e))
unshift-IsMask mask h s (suc k, below, e) = (k, omega arith, omega (arith, e, two-pow-succ k))

-- What `allones` decides, when it has fuel.
abbrev Decides : ℕ → ℕ → Type 0
Decides fuel mask = (b : Bool) × (allones fuel mask ≡ some b) × ((b ≡ true) ↔ IsMask mask)

allones_steps :
    (fuel mask : ℕ) → mask < 2 ^ 32 → 2 ^ 32 < (2 ^ 32 - mask) * 2 ^ fuel → Decides fuel mask
unfolding allones
allones_steps zero mask s h = absurd (omega arith)
allones_steps (suc fuel) mask s h = elim (Bool-cases (leb (2 ^ 31) mask)) [
  | inl top ↦
      let high : 2 ^ 31 ≤ mask = ground arith in
      let doubled : 2 * (2 ^ 32 - mask) ≡ 2 ^ 32 - mask * 2 % 2 ^ 32 = omega arith in
      let enough : 2 ^ 32 < 2 * (2 ^ 32 - mask) * 2 ^ fuel =
        subst (λ n. 2 ^ 32 < n) (double_mul (2 ^ 32 - mask) fuel) h in
      let (b, r, iff) =
        allones_steps fuel (mask * 2 % 2 ^ 32) (omega arith)
          (subst (λ n. 2 ^ 32 < n * 2 ^ fuel) doubled enough) in
      (
        b,
        rw (top, allones) r,
        ((λ e. unshift-IsMask mask high s (iff.0 e)), (λ m. iff.1 (shift-IsMask mask high s m))),
      )
  | inr low ↦
      let small : mask < 2 ^ 31 = ground arith in
      (
        mask == 0,
        rw (low, allones),
        (
          (λ e. (32, omega arith, ground arith)),
          (λ m. let zero_mask = small_mask mask small m in ground arith),
        ),
      )
]

-- `allones` of 32 bits ends within 33 turns of its loop, and is true exactly for the masks: ones
-- followed by `k` zeros, from no zero to 32 of them.
pub allones-IsMask :
    (mask : ℕ)
    → mask < 2 ^ 32
    → (b : Bool) × (allones 33 mask ≡ some b) × ((b ≡ true) ↔ IsMask mask)
allones-IsMask mask s = allones_steps 33 mask s (omega arith)
