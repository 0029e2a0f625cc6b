-- ===== src/IpUtils/Checksum.antt =====
-- `inet_checksum` computes, and a packet that carries its checksum verifies.
use cheops_ng.Prelude.{
  ℕ, ◌+◌, ◌-◌, ◌*◌, ◌/◌, ◌%◌, ◌^◌, ◌≤◌, ◌<◌, ◌≡◌, true, List, [], ◌∷◌, ◌++◌, some, ltb, arith,
  length, All, ap, ◌∙◌,
}
use cheops_ng.IpUtils.Defs.{add_int, sum_words, complement, fold, inet_checksum}

abbrev pub IsByte : ℕ → Type 0
IsByte b = b < 2 ^ 8

-- The plain sum of the words.
unfoldable pub total : List ℕ → ℕ
total [] = 0
total (b ∷ []) = b
total (b ∷ c ∷ rest) = b + 2 ^ 8 * c + total rest

total_bound : (bytes : List ℕ) → All IsByte bytes → 2 * total bytes ≤ 65535 * (length bytes + 1)
unfolding total
total_bound [] h = omega arith
total_bound (b ∷ []) h = omega (arith, h.0)
total_bound (b ∷ c ∷ rest) h = omega (arith, h.0, h.1.0, total_bound rest h.1.1)

sum_words-total :
    (bytes : List ℕ) (sum : ℕ)
    → sum + total bytes < 2 ^ 31
    → sum_words bytes sum ≡ some (sum + total bytes)
unfolding sum_words total add_int
sum_words-total [] sum h = ap some (omega arith)
sum_words-total (b ∷ []) sum h = ground arith
sum_words-total (b ∷ c ∷ rest) sum h =
    let fits : ltb (sum + (b + 2 ^ 8 * c)) (2 ^ 31) ≡ true = ground arith in
    rw (fits, sum_words)
      (sum_words-total rest (sum + (b + 2 ^ 8 * c)) (omega arith) ∙ ap some (omega arith))

complement-fold : (s : ℕ) → s < 2 ^ 31 → complement (fold (s + complement (fold s))) ≡ 0
unfolding complement fold
complement-fold s h = omega arith

-- A word in front of which an even number of bytes stands.
total-append :
    (k : ℕ) (before rest : List ℕ) (b c : ℕ)
    → length before ≡ 2 * k
    → total (before ++ (b ∷ c ∷ rest)) ≡ total before + b + 2 ^ 8 * c + total rest
unfolding total
total-append k [] rest b c h = omega arith
total-append k (x ∷ []) rest b c h = absurd (omega arith)
total-append k (x ∷ y ∷ before) rest b c h =
    omega (arith, total-append (k - 1) before rest b c (omega arith))

inet_checksum-total :
    (bytes : List ℕ)
    → total bytes < 2 ^ 31
    → inet_checksum bytes ≡ some (complement (fold (total bytes)))
unfolding inet_checksum
inet_checksum-total bytes h =
    rw (sum_words-total bytes 0 (omega (arith, h)), inet_checksum)
      (ap (λ n. some (complement (fold n))) (omega arith))

complement_bound : (s : ℕ) → complement s < 2 ^ 16
unfolding complement
complement_bound s = omega arith

-- For a packet of at most 65535 bytes, whose checksum field, a word of its own, holds 0: no `int`
-- overflows, the checksum fits in the field, and the packet with the checksum in its field has the
-- checksum 0.
pub checksum_verifies :
    (k : ℕ) (before rest : List ℕ)
    → length before ≡ 2 * k
    → All IsByte before
    → All IsByte rest
    → length before + length rest + 2 < 2 ^ 16
    → (c : ℕ) × (inet_checksum (before ++ (0 ∷ 0 ∷ rest)) ≡ some c)
      × (c < 2 ^ 16)
      × (inet_checksum (before ++ (c % 2 ^ 8 ∷ c / 2 ^ 8 ∷ rest)) ≡ some 0)
checksum_verifies k before rest even hb hr small =
    let s = total before + total rest in
    let c = complement (fold s) in
    let c_small = complement_bound (fold s) in
    let low = total_bound before hb in
    let high = total_bound rest hr in
    let zeros : total (before ++ (0 ∷ 0 ∷ rest)) ≡ s =
      omega (arith, total-append k before rest 0 0 even) in
    let filled : total (before ++ (c % 2 ^ 8 ∷ c / 2 ^ 8 ∷ rest)) ≡ s + c =
      omega (arith, total-append k before rest (c % 2 ^ 8) (c / 2 ^ 8) even) in
    let fits : s + c < 2 ^ 31 = omega (arith, low, high, c_small) in
    (
      c,
      inet_checksum-total (before ++ (0 ∷ 0 ∷ rest)) (omega (arith, zeros, fits))
          ∙ ap (λ n. some (complement (fold n))) zeros,
      c_small,
      inet_checksum-total (before ++ (c % 2 ^ 8 ∷ c / 2 ^ 8 ∷ rest)) (omega (arith, filled, fits))
          ∙ ap (λ n. some (complement (fold n))) filled
          ∙ ap some (complement-fold s (omega (arith, fits))),
    )
