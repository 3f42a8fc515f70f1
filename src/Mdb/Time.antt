-- ===== src/Mdb/Time.antt =====
-- `std::time::Duration`, as far as the driver uses it, and `duration_as_micros32`.
use vender.Prelude.{
  ℕ, ◌+◌, ◌-◌, ◌*◌, ◌/◌, ◌%◌, ◌^◌, ◌≡◌, Option, none, some, arith, ltb, leb, if◌then◌else◌,
}
use vender.Error.{Error, msg}
use vender.Exec.{Exec, ok, err, pure, fail, ◌>>=◌}

abbrev pub u64_mod : ℕ
u64_mod = 2 ^ 64

-- Whole seconds, a `u64`, and nanoseconds below 10 ^ 9.
pub record Duration : Type 0 where
  pub secs : ℕ
  pub nanos : ℕ

unfoldable pub from_millis : ℕ → Duration
from_millis millis = record { secs = millis / 1000; nanos = millis % 1000 * 1_000_000 }

abbrev pub subsec_micros : Duration → ℕ
subsec_micros d = d.nanos / 1000

-- `checked_mul` and `checked_add` on `u64`.
abbrev pub checked_u64 : ℕ → Option ℕ
checked_u64 n = if ltb n u64_mod then some n else none

abbrev pub overflow : Error
overflow = msg "duration_as_micros32 overflow"

-- `Option::ok_or` and `?`
abbrev pub ok_or : {S : Type 0} → Option ℕ → Error → Exec S ℕ
ok_or none e = fail e
ok_or (some n) e = pure n

unfoldable pub duration_as_micros32 : {S : Type 0} → Duration → Exec S ℕ
duration_as_micros32 d = do
  m ← ok_or (checked_u64 (d.secs * 1_000_000)) overflow
  x ← ok_or (checked_u64 (m + subsec_micros d)) overflow
  if leb (2 ^ 32 - 1) x then fail overflow else pure x

-- The time that a duration stands for, in microseconds and rounded down.
abbrev pub micros : Duration → ℕ
micros d = d.secs * 1_000_000 + subsec_micros d

-- The conversion gives the exact number of microseconds if that is below the greatest u32, and
-- the overflow error otherwise. It changes no state, and neither step on u64 can wrap.
pub duration_as_micros32_exact :
    {S : Type 0} (d : Duration) (s : S)
    → duration_as_micros32 d s
      ≡ (if ltb (micros d) (2 ^ 32 - 1) then ok (micros d) else err overflow, s)
unfolding duration_as_micros32 ◌>>=◌
duration_as_micros32_exact d s = ground arith

pub micros-from_millis : (n : ℕ) → micros (from_millis n) ≡ n * 1000
unfolding from_millis
micros-from_millis n = omega arith
