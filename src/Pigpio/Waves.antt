-- ===== src/Pigpio/Waves.antt =====
-- What the wrappers do to the waves that a program owns.
use vender.Prelude.{ℕ, ◌+◌, ◌≡◌, List, ◌∷◌, arith}
use vender.Exec.{pure, ◌>>=◌}
use vender.Exec.Keeps.{Triple, Triple-after}
use vender.Ffi.{Call, wave_create, wave_delete, serial_read, History, Hardware, invoke}
use vender.Ffi.Waves.{one_if, created, deleted}
use vender.Pigpio.{Wave, from_id, check, new_serial, drop_wave}
use vender.Pigpio.Quiet.{Quiet, IsQuiet, quiet, Keeps-check, Keeps-invoke}

-- The program owns the wave `k` times: it has created that id so much more often than deleted it.
abbrev pub Owns : Hardware → ℕ → ℕ → History → Type 0
Owns H wave k h = created H wave h ≡ deleted wave h + k

module _ (H : Hardware) (wave k : ℕ) where
  Owns-keeps : (c : Call) (h : History) → IsQuiet c → Owns H wave k h → Owns H wave k (c ∷ h)
  unfolding created deleted
  Owns-keeps wave_create h n p = elim n [ ]
  Owns-keeps (wave_delete id) h n p = elim n [ ]
  Owns-keeps (serial_read gpio size) h n p = elim n [ ]
  Owns-keeps _ h n p = omega arith

  pub Owns-Quiet : Quiet (Owns H wave k)
  Owns-Quiet = record { keeps = Owns-keeps }

  pub Owns-serial_read :
      (gpio size : ℕ) (h : History) → Owns H wave k h → Owns H wave k (serial_read gpio size ∷ h)
  unfolding created deleted
  Owns-serial_read gpio size h p = omega arith

  Triple-create :
      Triple
        (Owns H wave k)
        (do wid ← check (← invoke H wave_create); pure (from_id wid))
        (λ w. Owns H wave (k + one_if wave w.id))
        (Owns H wave k)
  unfolding created deleted check from_id ◌>>=◌
  Triple-create = record { at = λ h p. ground arith }

  -- A new wave is owned once more than before, and a failed creation changes nothing.
  pub Triple-new_serial :
      (tx baud data_bits stop_bits offset : ℕ) (s : List ℕ)
      → Triple
          (Owns H wave k)
          (new_serial H tx baud data_bits stop_bits offset s)
          (λ w. Owns H wave (k + one_if wave w.id))
          (Owns H wave k)
  unfolding new_serial
  Triple-new_serial tx baud data_bits stop_bits offset s =
      search (Triple-after, Triple-create, Keeps-invoke, Owns-Quiet, Keeps-check, quiet)

  pub drop_wave-Owns :
      (w : Wave) (h : History)
      → Owns H wave (k + one_if wave w.id) h
      → Owns H wave k (drop_wave H w h).1
  unfolding drop_wave created deleted
  drop_wave-Owns w h p = omega arith
