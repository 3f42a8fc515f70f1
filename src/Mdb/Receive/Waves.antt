-- ===== src/Mdb/Receive/Waves.antt =====
-- Who owns which waves, over `wait_receive` and the loop `'receive`.
use vender.Prelude.{ℕ, arith, ◌≡◌, ◌∷◌, replicate, length}
use vender.Ffi.{Call, serial_read, tick, delay, History, Hardware}
use vender.Ffi.Waves.{created, deleted}
use vender.Pigpio.Waves.{Owns}
use vender.Mdb.{GpioMdb}
use vender.Mdb.Receive.{Port}
use vender.Mdb.Receive.Quiet.{AtPort, Listens, Listening, Unread}

-- All of a driver but what its buffer holds.
abbrev pub without_buf : GpioMdb → GpioMdb
without_buf m = record m { buf = replicate (length m.buf) 0 }

abbrev pub SameBut : GpioMdb → GpioMdb → Type 0
SameBut fixed m = without_buf m ≡ fixed

pub SameBut-Unread : (fixed : GpioMdb) → Unread (SameBut fixed)
SameBut-Unread fixed = record { keeps = λ m buf same h. rw same h }

module _ (H : Hardware) (wave k : ℕ) where
  Owns-Listens : (c : Call) (h : History) → Listens c → Owns H wave k h → Owns H wave k (c ∷ h)
  unfolding created deleted
  Owns-Listens (serial_read gpio size) h n p = omega arith
  Owns-Listens tick h n p = omega arith
  Owns-Listens (delay micros) h n p = omega arith
  Owns-Listens _ h n p = elim n [ ]

  pub Owns-Listening : Listening (Owns H wave k)
  Owns-Listening = record { keeps = Owns-Listens }

module _ (fixed : GpioMdb) (H : Hardware) (wave k : ℕ) where
  abbrev pub PortOwns : Port → Type 0
  PortOwns = AtPort (SameBut fixed) (Owns H wave k)
