-- ===== src/Discover/Packet.antt =====
-- The echo request: its checksum, and the pointer that comes back in the reply.
use cheops_ng.Prelude.{
  ℕ, zero, suc, ◌+◌, ◌/◌, ◌^◌, ◌<◌, ◌≡◌, refl, List, [], ◌∷◌, ◌++◌, some, some_eq, sym, ap, ◌∙◌,
  arith,
}
use cheops_ng.Prelude.Bytes.{bytes_of, skip}
use cheops_ng.IpUtils.Defs.{inet_checksum}
use cheops_ng.IpUtils.Checksum.{checksum_verifies}
use cheops_ng.Discover.Defs.{echo, ping_packet}
use cheops_ng.Discover.Receive.{Buffer, word_at, pointer_at}

-- The bytes of a list stand in a buffer from an index on.
abbrev pub Holds : Buffer → ℕ → List ℕ → Type 0
Holds b i [] = Unit
Holds b i (x ∷ xs) = (b i ≡ x) × Holds b (i + 1) xs

-- A number of `n` bytes.
abbrev FitsIn : ℕ → ℕ → Type 0
FitsIn zero x = x ≡ 0
FitsIn (suc n) x = FitsIn n (x / 2 ^ 8)

word_at-bytes_of :
    (n x : ℕ) (b : Buffer) (i : ℕ) → FitsIn n x → Holds b i (bytes_of n x) → word_at n b i ≡ x
unfolding word_at bytes_of
word_at-bytes_of zero x b i f h = omega arith
word_at-bytes_of (suc n) x b i f h =
    omega (arith, h.0, word_at-bytes_of n (x / 2 ^ 8) b (i + 1) f h.1)

-- The data of the packet is read back as the pointer.
pub pointer_at-bytes_of :
    (x : ℕ) (b : Buffer) (i : ℕ) → x < 2 ^ 64 → Holds b i (bytes_of 8 x) → pointer_at b i ≡ x
unfolding pointer_at
pointer_at-bytes_of x b i h k = word_at-bytes_of 8 x b i (omega arith) k

-- A packet is always made: the checksum of no pointer overflows, and the packet with its checksum has
-- the checksum 0, as a receiver tests it.
pub ping_packet-verifies :
    (address : ℕ)
    → (c : ℕ) × (ping_packet address ≡ some (echo address c))
      × (inet_checksum (echo address c) ≡ some 0)
unfolding ping_packet bytes_of
ping_packet-verifies address =
    let (c, made, small, verified) =
      checksum_verifies 1 (8 ∷ 0 ∷ []) (bytes_of 4 address ++ bytes_of 8 address) refl (omega arith)
        (omega arith) (omega arith) in
    (c, rw (made, ping_packet), verified)

echo-skip : (address c : ℕ) → skip 8 (echo address c) ≡ bytes_of 8 address
unfolding skip bytes_of
echo-skip address c = refl

-- What stands behind the header of the packet is the pointer.
pub skip-ping_packet :
    (address : ℕ) (packet : List ℕ)
    → ping_packet address ≡ some packet
    → skip 8 packet ≡ bytes_of 8 address
skip-ping_packet address packet e =
    let (c, made, verified) = ping_packet-verifies address in
    ap (skip 8) (some_eq (sym e ∙ made)) ∙ echo-skip address c
