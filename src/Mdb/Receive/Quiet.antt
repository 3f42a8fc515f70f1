-- ===== src/Mdb/Receive/Quiet.antt =====
-- Rules for the methods of the driver, from rules for the calls that they make.
use vender.Prelude.{
  ℕ, zero, suc, ℤ, pos, negsuc, ◌+◌, ◌++◌, ◌∷◌, ◌≡◌, [], List, arith, ◌==◌, ltb, length,
}
use vender.Error.{msg}
use vender.Exec.{Outcome, Exec, ok, err, panicked, out_of_fuel, ◌>>=◌}
use vender.Exec.Keeps.{
  Post, Triple, Keeps, Keeps-bind, Keeps-if, Keeps-pure, Keeps-gets, Keeps-fail, Keeps-stuck,
}
use vender.Ffi.{Call, serial_read, tick, delay, History, Hardware, invoke, invoke_word}
use vender.Pigpio.{check, tick_since}
use vender.Mdb.{GpioMdb}
use vender.Mdb.Receive.{
  Port, hw, get, Scan, ended, more, scan_words, resume, read_serial, wait_receive, receive,
}
use vender.Mdb.Receive.Words.{length-overlay}

-- `P` of the calls so far, and `I` of the driver.
abbrev pub AtPort : (GpioMdb → Type 0) → (History → Type 0) → Port → Type 0
AtPort I P p = P p.history × I p.mdb

-- What a call does to the history, it does to the port's.
module _ (I : GpioMdb → Type 0) {A : Type 0} (P R : History → Type 0)
    (Q : A → History → Type 0) where
  Post-hw :
      (p : Port) (r : Outcome A) (h : History)
      → Post Q R r h
      → I p.mdb
      → Post (λ a. AtPort I (Q a)) (AtPort I R) r (record p { history = h })
  Post-hw p (ok a) h q i = (q, i)
  Post-hw p (err _) h q i = (q, i)
  Post-hw p panicked h q i = (q, i)
  Post-hw p out_of_fuel h q i = tt

  pub Triple-hw :
      (m : Exec History A)
      → Triple P m Q R
      → Triple (AtPort I P) (hw m) (λ a. AtPort I (Q a)) (AtPort I R)
  Triple-hw m km = record {
    at = λ p h. Post-hw p (m p.history).0 (m p.history).1 (km.at p.history h.0) h.1;
  }

module _ (I : GpioMdb → Type 0) (P : History → Type 0) where
  pub Keeps-hw : {A : Type 0} (m : Exec History A) → Keeps P m → Keeps (AtPort I P) (hw m)
  Keeps-hw m km = Triple-hw I P P (λ _. P) m km

  Keeps-get : (i : ℕ) → Keeps (AtPort I P) (get i)
  unfolding get
  Keeps-get i = record { at = λ p h. ground arith }

  pub Keeps-scan_words :
      (rounds i : ℕ) (response : List ℕ) → Keeps (AtPort I P) (scan_words rounds i response)
  unfolding scan_words
  Keeps-scan_words zero i response = Keeps-pure _ _
  Keeps-scan_words (suc rounds) i response = Keeps-bind _ _ _ (Keeps-get i) λ bvalue.
      Keeps-bind _ _ _ (Keeps-get (i + 1)) λ bflag.
        Keeps-if _ (bflag == 1) _ _ (Keeps-pure _ (ended bvalue response))
          (Keeps-scan_words rounds (i + 2) (response ++ (bvalue ∷ [])))

  pub Keeps-resume :
      (s : Scan) (again : List ℕ → Exec Port (ℕ × List ℕ))
      → ((bytes : List ℕ) → Keeps (AtPort I P) (again bytes))
      → Keeps (AtPort I P) (resume s again)
  Keeps-resume (ended end_byte bytes) again ka = Keeps-pure _ (end_byte, bytes)
  Keeps-resume (more bytes) again ka = ka bytes

-- The calls of the receive loop.
abbrev pub Listens : Call → Type 0
Listens (serial_read gpio size) = Unit
Listens tick = Unit
Listens (delay micros) = Unit
Listens _ = ⊥

-- An invariant of the calls so far that listening keeps.
pub record Listening (P : History → Type 0) : Type 0 where
  pub keeps : (c : Call) (h : History) → Listens c → P h → P (c ∷ h)

-- An invariant of the driver that looks at no byte of the buffer.
pub record Unread (I : GpioMdb → Type 0) : Type 0 where
  pub keeps :
      (m : GpioMdb) (buf : List ℕ) → length buf ≡ length m.buf → I m → I (record m { buf = buf })

module _ (I : GpioMdb → Type 0) (P : History → Type 0) (u : Unread I) (l : Listening P)
    (H : Hardware) where
  Keeps-read : (gpio size : ℕ) → Keeps P (invoke H (serial_read gpio size))
  Keeps-read gpio size = record { at = λ h p. l.keeps (serial_read gpio size) h tt p }

  Keeps-delay : (micros : ℕ) → Keeps P (invoke_word H (delay micros))
  Keeps-delay micros = record { at = λ h p. l.keeps (delay micros) h tt p }

  Keeps-now : (start : ℕ) → Keeps P (tick_since H start)
  unfolding tick_since ◌>>=◌
  Keeps-now start = record { at = λ h p. l.keeps tick h tt p }

  Keeps-check : (rc : ℤ) → Keeps (AtPort I P) (check rc)
  unfolding check
  Keeps-check (pos n) = Keeps-pure _ n
  Keeps-check (negsuc n) = record { at = λ s h. h }

  Keeps-read_serial : Keeps (AtPort I P) (read_serial H)
  unfolding read_serial
  Keeps-read_serial = Keeps-bind _ _ _ (Keeps-gets _ _) λ size.
      Keeps-bind _ _ _ (Keeps-gets _ _) λ pin.
        Keeps-bind _ _ _ (Keeps-hw _ _ _ (Keeps-read pin size)) λ rc.
          Keeps-bind _ _ _
            (record {
              at =
                  λ p h. (h.0, u.keeps p.mdb _ (length-overlay (H.stored p.history) p.mdb.buf) h.1);
            })
            λ _. Keeps-check rc

  pub Keeps-wait_receive : (fuel deadline : ℕ) → Keeps (AtPort I P) (wait_receive H fuel deadline)
  unfolding wait_receive
  Keeps-wait_receive zero deadline = Keeps-stuck _
  Keeps-wait_receive (suc fuel) deadline = Keeps-bind _ _ _ Keeps-read_serial λ n.
      Keeps-if _ (ltb 0 n) _ _ (Keeps-pure _ n) (
        Keeps-bind _ _ _ (Keeps-hw _ _ _ (Keeps-now 0)) λ t.
          Keeps-if _ (ltb deadline t) _ _ (Keeps-fail _ (msg "recv timeout")) (
            Keeps-bind _ _ _ (Keeps-gets _ _) λ step.
              Keeps-bind _ _ _ (Keeps-hw _ _ _ (Keeps-delay step))
                λ _. Keeps-wait_receive fuel deadline))

  pub Keeps-receive :
      (rounds fuel deadline count : ℕ) (response : List ℕ)
      → Keeps (AtPort I P) (receive H rounds fuel deadline count response)
  unfolding receive
  Keeps-receive zero fuel deadline count response = Keeps-stuck _
  Keeps-receive (suc rounds) fuel deadline count response =
      Keeps-bind _ _ _ (Keeps-scan_words I P _ 0 response) λ s. Keeps-resume I P s _ λ bytes.
        Keeps-bind _ _ _ (Keeps-wait_receive fuel deadline)
          λ n. Keeps-receive rounds fuel deadline n bytes
