-- ===== src/IpUtils/Defs.antt =====
-- `inet_checksum` and `allones` of ip_utils.c, on a machine that stores the low byte first.
use cheops_ng.Prelude.{
  ℕ, zero, suc, ◌+◌, ◌-◌, ◌*◌, ◌/◌, ◌%◌, ◌^◌, Bool, List, [], ◌∷◌, Option, none, some, ltb, leb,
  ◌==◌, if◌then◌else◌,
}

-- An addition in an `int` that holds no negative number; `none` is the signed overflow.
unfoldable pub add_int : ℕ → ℕ → Option ℕ
add_int a b = if ltb (a + b) (2 ^ 31) then some (a + b) else none

-- The loop over the words, and the odd byte at the end.
unfoldable pub sum_words : List ℕ → ℕ → Option ℕ
unfolding add_int
sum_words [] sum = some sum
sum_words (b ∷ []) sum = add_int sum b
sum_words (b ∷ c ∷ rest) sum = elim (add_int sum (b + 2 ^ 8 * c)) [
  | none ↦ none
  | some sum' ↦ sum_words rest sum'
]

-- `~sum` truncated to 16 bits.
unfoldable pub complement : ℕ → ℕ
complement sum = 2 ^ 16 - 1 - sum % 2 ^ 16

-- The high half is added to the low half, and then the carry.
unfoldable pub fold : ℕ → ℕ
fold sum = sum / 2 ^ 16 + sum % 2 ^ 16 + (sum / 2 ^ 16 + sum % 2 ^ 16) / 2 ^ 16

unfoldable pub inet_checksum : List ℕ → Option ℕ
unfolding sum_words complement fold
inet_checksum bytes = elim (sum_words bytes 0) [
  | none ↦ none
  | some sum ↦ some (complement (fold sum))
]

-- `allones`, with fuel for its loop: `none` if the fuel runs out.
unfoldable pub allones : ℕ → ℕ → Option Bool
allones zero mask = none
allones (suc fuel) mask =
    let shifted = allones fuel (mask * 2 % 2 ^ 32) in
    if leb (2 ^ 31) mask then shifted else some (mask == 0)
