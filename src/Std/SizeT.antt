-- ===== src/Std/SizeT.antt =====
-- `std::size_t` arithmetic, and the `std::atomic<std::size_t>` increments and decrements: modulo
-- 2 ^ 64.
use s3cpp.Prelude.{ℕ, suc, ◌+◌, ◌-◌, ◌%◌, ◌<◌, ◌≡◌, arith}
use s3cpp.Std.Decimal.{size_max}

unfoldable pub plus : ℕ → ℕ → ℕ
plus a b = (a + b) % size_max

unfoldable pub minus : ℕ → ℕ → ℕ
minus a b = (a + size_max - b % size_max) % size_max

abbrev pub incr : ℕ → ℕ
incr a = plus a 1

abbrev pub decr : ℕ → ℕ
decr a = minus a 1

-- A counter that stands for a number: the number's residue.
abbrev pub Counts : ℕ → ℕ → Type 0
Counts c n = c ≡ n % size_max

pub Counts-plus : (c n k : ℕ) → Counts c n → Counts (plus c k) (n + k)
unfolding plus
Counts-plus c n k h = omega arith

pub Counts-decr : (c n : ℕ) → Counts c (suc n) → Counts (decr c) n
unfolding minus
Counts-decr c n h = omega arith

-- A counter below the wrap is the number itself.
pub Counts-zero : (c n : ℕ) → n < size_max → Counts c n → c ≡ 0 → n ≡ 0
Counts-zero c n h e z = omega arith
