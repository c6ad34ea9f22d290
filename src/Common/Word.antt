-- ===== src/Common/Word.antt =====
-- 32-bit words: a C `unsigned` is a number below 2^32, and an `int` the number that its bits stand for.
use magic_lantern.Common.{ℕ, ◌+◌, ◌-◌, ◌%◌, ◌^◌, ◌<◌, ◌≡◌, arith, ltb, if◌then◌else◌}
use magic_lantern.Common.Int.{ℤ, pos, pos_part, neg_part, sub_ℕ, magnitude}

abbrev pub u32 : ℕ → ℕ
u32 n = n % 2 ^ 32

-- The bits of an `int`.
abbrev pub of_int : ℤ → ℕ
of_int a = (pos_part a + 2 ^ 32 - neg_part a) % 2 ^ 32

-- The `int` of some bits, in two's complement.
abbrev pub to_int : ℕ → ℤ
to_int n = if ltb n (2 ^ 31) then pos n else sub_ℕ n (2 ^ 32)

-- An `int` after an operation whose result may not fit it.
abbrev pub wrapped : ℤ → ℤ
wrapped a = to_int (of_int a)

pub to_int-of_int : (a : ℤ) → magnitude a < 2 ^ 31 → to_int (of_int a) ≡ a
to_int-of_int a h = ground arith
