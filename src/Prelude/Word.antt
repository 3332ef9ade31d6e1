-- ===== src/Prelude/Word.antt =====
-- Go's int64 (and int, which has 64 bits here): a number below 2^64 stands for its two's complement
-- bit pattern, and every operation wraps.
use Prim.Native.Nat.{ℕ, ◌+◌, ◌-◌, ◌/◌, ◌%◌, ◌≤◌, ◌<◌}
use mathlib.Core.Path.{◌≡◌}
use mathlib.Core.Bool.{Bool}
use native.Mathlib.Omega.{arith}
use torrent_web_seeder.Prelude.Tests.{ltb, leb, if◌then◌else◌}

abbrev pub Int64 : Type 0
Int64 = ℕ

abbrev pub two_63 : ℕ
two_63 = 9223372036854775808

abbrev pub two_64 : ℕ
two_64 = 18446744073709551616

unfoldable pub add64 : Int64 → Int64 → Int64
add64 a b = (a + b) % two_64

unfoldable pub sub64 : Int64 → Int64 → Int64
sub64 a b = (a + two_64 - b % two_64) % two_64

-- The signed order: adding 2^63 turns it into the order of the patterns.
unfoldable pub lt64 : Int64 → Int64 → Bool
lt64 a b = ltb ((a + two_63) % two_64) ((b + two_63) % two_64)

unfoldable pub le64 : Int64 → Int64 → Bool
le64 a b = leb ((a + two_63) % two_64) ((b + two_63) % two_64)

unfoldable pub min64 : Int64 → Int64 → Int64
unfolding lt64
min64 a b = if lt64 b a then b else a

unfoldable pub max64 : Int64 → Int64 → Int64
unfolding lt64
max64 a b = if lt64 a b then b else a

-- |a|, and the quotient that Go truncates towards zero; the divisor is not 0 (Go panics there).
abs64 : Int64 → ℕ
abs64 a = if ltb a two_63 then a else two_64 - a

unfoldable pub quot64 : Int64 → Int64 → Int64
unfolding abs64
quot64 a b =
    let q = abs64 a / abs64 b in
    let differ = (if ltb a two_63 then ltb b two_63 else leb two_63 b) in
    if differ then q % two_64 else (two_64 - q) % two_64

-- Between 0 and 2^63 the operations are those of the natural numbers.
pub add64_exact : (a b : ℕ) → a + b < two_64 → add64 a b ≡ a + b
unfolding add64
add64_exact a b h = omega arith

pub sub64_exact : (a b : ℕ) → b ≤ a → a < two_64 → sub64 a b ≡ a - b
unfolding sub64
sub64_exact a b h k = omega arith

pub lt64_exact : (a b : ℕ) → a < two_63 → b < two_63 → lt64 a b ≡ ltb a b
unfolding lt64
lt64_exact a b h k = ground arith

pub le64_exact : (a b : ℕ) → a < two_63 → b < two_63 → le64 a b ≡ leb a b
unfolding le64
le64_exact a b h k = ground arith

pub quot64_exact : (a b : ℕ) → a < two_63 → b < two_63 → quot64 a b ≡ a / b
unfolding quot64
quot64_exact a b h k = ground arith

pub min64_exact : (a b : ℕ) → a < two_63 → b < two_63 → min64 a b ≡ (if ltb b a then b else a)
unfolding min64
min64_exact a b h k = ground arith

pub max64_exact : (a b : ℕ) → a < two_63 → b < two_63 → max64 a b ≡ (if ltb a b then b else a)
unfolding max64
max64_exact a b h k = ground arith
