-- ===== src/IpUtils/Tests.antt =====
-- Checksums and masks of concrete values, and the theorems at them.
use cheops_ng.Prelude.{ℕ, ◌/◌, ◌%◌, ◌^◌, ◌<◌, ◌≡◌, ◌↔◌, refl, Bool, true, [], ◌∷◌, some, arith}
use cheops_ng.IpUtils.Defs.{inet_checksum, sum_words, complement, fold, add_int, allones}
use cheops_ng.IpUtils.Checksum.{checksum_verifies}
use cheops_ng.IpUtils.Mask.{IsMask, allones-IsMask}

-- An echo request without data.
echo : inet_checksum (8 ∷ 0 ∷ 0 ∷ 0 ∷ 1 ∷ 2 ∷ 3 ∷ []) ≡ some 65011
unfolding inet_checksum sum_words complement fold add_int
echo = refl

class_c : allones 33 4294967040 ≡ some true
unfolding allones
class_c = refl

checksum_verifies_example :
    (c : ℕ) × (inet_checksum (8 ∷ 0 ∷ 0 ∷ 0 ∷ 1 ∷ 2 ∷ 3 ∷ []) ≡ some c)
    × (c < 2 ^ 16)
    × (inet_checksum (8 ∷ 0 ∷ c % 2 ^ 8 ∷ c / 2 ^ 8 ∷ 1 ∷ 2 ∷ 3 ∷ []) ≡ some 0)
checksum_verifies_example =
    checksum_verifies 1 (8 ∷ 0 ∷ []) (1 ∷ 2 ∷ 3 ∷ []) refl (omega arith) (omega arith) (omega arith)

allones-IsMask_example :
    (b : Bool) × (allones 33 4294967040 ≡ some b) × ((b ≡ true) ↔ IsMask 4294967040)
allones-IsMask_example = allones-IsMask 4294967040 (omega arith)
