-- ===== src/Pigpio/Status.antt =====
-- What `check` makes of the status that a function of the C library returns.
use vender.Prelude.{
  ℕ, ℤ, pos, negsuc, ◌+◌, ◌-◌, ◌^◌, ◌<◌, ◌≡◌, refl, ap, ◌<>◌, drop, show_ℤ, show_ℕ, arith,
}
use vender.Prelude.Show.Decimal.{bytes, bytes-append, read_decimal, read_decimal-show_ℕ}
use vender.Error.{Error, IoKind, io_error}
use vender.Exec.{Outcome, ok, err}
use vender.Pigpio.{check}

-- The values of an `i32`.
abbrev pub IsI32 : ℤ → Type 0
IsI32 (pos n) = n < 2 ^ 31
IsI32 (negsuc n) = n < 2 ^ 31

-- The digits of the message, behind "pigpio err=-".
abbrev number_in : Error → ℕ
number_in (io_error kind text) = read_decimal 0 (drop 12 (bytes text))
number_in _ = 0

-- The status that a reader finds in a result of `check`.
abbrev pub status_in : Outcome ℕ → ℤ
status_in (ok n) = pos n
status_in (err e) = negsuc (number_in e - 1)
status_in _ = pos 0

number_in-text :
    (n : ℕ)
    → n < 2 ^ 31
    → number_in (io_error IoKind.other ("pigpio err=" <> show_ℤ (negsuc n))) ≡ n + 1
unfolding show_ℤ bytes
number_in-text n h =
    rw (bytes-append "pigpio err=" ("-" <> show_ℕ (n + 1)), bytes-append "-" (show_ℕ (n + 1)))
      (read_decimal-show_ℕ (n + 1) (omega arith))

-- `check` loses nothing: the status of each call, a count or an error, can be read from the value
-- or from the text of the error that it gives.
pub status_in-check : {S : Type 0} (z : ℤ) (s : S) → IsI32 z → status_in (check z s).0 ≡ z
unfolding check
status_in-check (pos n) s h = refl
status_in-check (negsuc n) s h = let e = number_in-text n h in ap negsuc (omega arith)
