-- ===== src/IpUtils/Address.antt =====
-- The macros of ip_utils.h on an address in network byte order.
use cheops_ng.Prelude.{ℕ, ◌*◌, ◌/◌, ◌%◌, ◌^◌, Bool, ltb, ◌==◌, ◌&&◌, ◌||◌}

-- The bytes of the address, the first one of its dotted form first.
abbrev byte_at : ℕ → ℕ → ℕ
byte_at i x = x / 2 ^ (8 * i) % 2 ^ 8

unfoldable pub ip_class_a : ℕ → Bool
ip_class_a x = ltb (x % 2 ^ 8) 0x80

unfoldable pub ip_class_b : ℕ → Bool
ip_class_b x = x % 2 ^ 8 / 0x40 == 2

unfoldable pub ip_class_c : ℕ → Bool
ip_class_c x = x % 2 ^ 8 / 0x20 == 6

unfoldable pub ip_class_a_broadcast : ℕ → Bool
ip_class_a_broadcast x =
    (byte_at 3 x == 0xff && byte_at 2 x == 0xff && byte_at 1 x == 0xff)
    || (byte_at 3 x == 0 && byte_at 2 x == 0 && byte_at 1 x == 0)

unfoldable pub ip_class_b_broadcast : ℕ → Bool
ip_class_b_broadcast x =
    (byte_at 3 x == 0xff && byte_at 2 x == 0xff) || (byte_at 3 x == 0 && byte_at 2 x == 0)

unfoldable pub ip_class_c_broadcast : ℕ → Bool
ip_class_c_broadcast x = byte_at 3 x == 0xff || byte_at 3 x == 0
