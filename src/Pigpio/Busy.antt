-- ===== src/Pigpio/Busy.antt =====
-- How long `wave_busy_wait` waits, by the times that `gpioDelay` gives back.
use vender.Prelude.{
  ℕ, zero, suc, ℤ, pos, negsuc, ◌+◌, ◌^◌, ◌≤◌, ◌<◌, ◌≡◌, ◌≢◌, refl, ◌∙◌, ◌⊎◌, inl, inr, Bool, true,
  false, String, [], ◌∷◌, arith, ltb, ltb→le, ltb→lt, lt→ltb, ◌==◌, if◌then◌else◌,
}
use vender.Error.{IoKind, io_error}
use vender.Exec.{Outcome, ok, err, panicked, out_of_fuel, continue, Exec, pure, fail, ◌>>=◌}
use vender.Ffi.{delay, wave_tx_busy, History, Hardware}
use vender.Pigpio.{u32_mod, check, add_u32, tx_busy, busy_wait_loop, wave_busy_wait}

-- What pigpio documents of `gpioDelay`: it gives back how long it has waited, at least the time it
-- was given; beyond that it waits for at most `slack` microseconds.
pub record Delays (H : Hardware) : Type 0 where
  pub slack : ℕ
  pub at_least : (micros : ℕ) (h : History) → micros ≤ H.word (delay micros ∷ h)
  pub at_most : (micros : ℕ) (h : History) → H.word (delay micros ∷ h) ≤ micros + slack

module _ (H : Hardware) where
  -- All that the delays have waited.
  unfoldable pub slept : History → ℕ
  slept [] = 0
  slept (delay micros ∷ h) = slept h + H.word (delay micros ∷ h)
  slept (_ ∷ h) = slept h

  -- The wait is over: the wave is out, after this time; or the latest call failed; or the time is
  -- past the timeout, and the wave is still busy.
  abbrev pub Passed : (timeout begin : ℕ) → Outcome ℕ → History → Type 0
  Passed timeout begin (ok total) h = (slept h ≡ begin + total) × (H.code h ≢ pos 1)
  Passed timeout begin (err e) h =
      ((k : ℕ) × (H.code h ≡ negsuc k)) ⊎ (begin + timeout < slept h) × (H.code h ≡ pos 1)
  Passed timeout begin panicked h = ⊥
  Passed timeout begin out_of_fuel h = ⊥

module _ (H : Hardware) (D : Delays H) (step timeout begin : ℕ) (e : String) (positive : 0 < step)
    (small : timeout + step + D.slack < 2 ^ 32) where
  -- The wait is over, within a delay of the timeout.
  abbrev pub PassedBy : Outcome ℕ → History → Type 0
  PassedBy r h = Passed H timeout begin r h × (slept H h ≤ begin + timeout + step + D.slack)

  abbrev IsWaiting : (fuel total : ℕ) → History → Type 0
  IsWaiting fuel total h =
      (slept H h ≡ begin + total) × (total ≤ timeout) × (timeout < total + fuel)

  abbrev go_on : (fuel total : ℕ) → Bool → Exec History ℕ
  go_on fuel total busy =
      if busy
      then (if ltb timeout total
          then fail (io_error IoKind.timed_out e)
          else busy_wait_loop H fuel step timeout e total)
      else pure total

  module _ (fuel total : ℕ) (h : History) (since : slept H h ≡ begin + total)
      (soon : total ≤ timeout + step + D.slack) (enough : timeout < total + fuel)
      (again : (h' : History)
        → IsWaiting fuel total h'
        → let (r, q) = busy_wait_loop H fuel step timeout e total h' in PassedBy r q) where
    late-PassedBy :
        (b : Bool)
        → ltb timeout total ≡ b
        → H.code h ≡ pos 1
        → let (r, q) = go_on fuel total true h in PassedBy r q
    late-PassedBy true x busy =
        rw x (inr (omega (arith, ltb→lt timeout total x), busy), omega arith)
    late-PassedBy false x busy = rw x (again h (since, ltb→le timeout total x, enough))

    busy-PassedBy :
        (z : ℤ)
        → H.code h ≡ z
        → let n = check z h in
          let busy = continue n.0 (λ n. pure (n == 1)) n.1 in
          let (r, q) = continue busy.0 (go_on fuel total) busy.1 in PassedBy r q
    unfolding check
    busy-PassedBy (negsuc k) x = (inl (k, x), omega arith)
    busy-PassedBy (pos n) x = by_status (n == 1) refl
      where
        by_status :
            (b : Bool) → (n == 1) ≡ b → let (r, q) = go_on fuel total (n == 1) h in PassedBy r q
        by_status true one =
            let is_one : pos n ≡ pos 1 = ground arith in rw one (late-PassedBy _ refl (x ∙ is_one))
        by_status false other = rw other ((since, λ y. ground arith), omega arith)

  loop-PassedBy :
      (fuel total : ℕ) (h : History)
      → IsWaiting fuel total h
      → let (r, q) = busy_wait_loop H fuel step timeout e total h in PassedBy r q
  unfolding busy_wait_loop tx_busy add_u32 slept ◌>>=◌
  loop-PassedBy zero total h (since, soon, enough) = absurd (omega arith)
  loop-PassedBy (suc fuel) total h (since, soon, enough) =
      let d = H.word (delay step ∷ h) in
      let least = D.at_least step h in
      let most = D.at_most step h in
      let fits = lt→ltb (total + d) u32_mod (omega arith) in
      rw fits (
        busy-PassedBy fuel (total + d) (wave_tx_busy ∷ delay step ∷ h) (omega arith) (omega arith)
          (omega arith) (loop-PassedBy fuel (total + d)) (H.code (wave_tx_busy ∷ delay step ∷ h))
          refl)

  -- Where delays are as documented, the pause is positive, the timeout and one delay stay below
  -- the range of u32, and there is a round for each microsecond of the timeout and one more,
  -- `wave_busy_wait` ends without a panic: with the wave out, and then with exactly the time that
  -- its delays have waited; or by a failed call; or once they have waited for more than the timeout
  -- while the wave is still busy. All its delays together are at most one longer than the timeout.
  pub wave_busy_wait-PassedBy :
      (fuel : ℕ) (h : History)
      → slept H h ≡ begin
      → timeout < fuel
      → let (r, q) = wave_busy_wait H fuel step timeout e h in PassedBy r q
  unfolding wave_busy_wait
  wave_busy_wait-PassedBy fuel h start enough =
      loop-PassedBy fuel 0 h (omega arith, omega arith, omega arith)
