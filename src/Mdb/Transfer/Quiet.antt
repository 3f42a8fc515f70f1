-- ===== src/Mdb/Transfer/Quiet.antt =====
-- Rules for the steps of `tx`: an invariant that quiet calls keep is kept by the end of a transfer.
use vender.Prelude.{length, length-set, ℕ, ◌+◌, ◌*◌, String, set, List, [], ◌∷◌, arith}
use vender.Exec.{◌>>=◌}
use vender.Exec.Keeps.{Keeps, Keeps-bind, Keeps-gets, Keeps-pure, Keeps-if, keeps_rules}
use vender.Ffi.{History, Hardware}
use vender.Pigpio.{Wave, tick_since}
use vender.Pigpio.Quiet.{Quiet, Keeps-add_u32, Keeps-mul_u32, Keeps-tick_since}
use vender.Mdb.{GpioMdb, word_size}
use vender.Mdb.Time.{Duration, duration_as_micros32}
use vender.Mdb.Driver.{Env}
use vender.Mdb.Bus.Quiet.{Keeps-send_wait}
use vender.Mdb.Receive.{hw, put}
use vender.Mdb.Receive.Quiet.{
  AtPort, Keeps-hw, Listening, Unread, Keeps-wait_receive, Keeps-receive,
}
use vender.Mdb.Transfer.{fill, encode, slice_to, verdict, send_wait, conclude, exchange}

pub Keeps-duration : {S : Type 0} (P : S → Type 0) (d : Duration) → Keeps P (duration_as_micros32 d)
unfolding duration_as_micros32 ◌>>=◌
Keeps-duration P d = record { at = λ s p. ground arith }

module _ (I : GpioMdb → Type 0) (P : History → Type 0) where
  pub Keeps-slice_to : (n : ℕ) → Keeps (AtPort I P) (slice_to n)
  unfolding slice_to
  Keeps-slice_to n = record { at = λ s p. ground arith }

  pub Keeps-verdict : (end_byte : ℕ) → Keeps (AtPort I P) (verdict end_byte)
  unfolding verdict
  Keeps-verdict end_byte = search keeps_rules

-- Where no write into the buffer can break `I`.
module _ (I : GpioMdb → Type 0) (P : History → Type 0)
    (stable : (m : GpioMdb) (i b : ℕ) → I m → I (record m { buf = set m.buf i b })) where
  Keeps-put : (i b : ℕ) → Keeps (AtPort I P) (put i b)
  unfolding put
  Keeps-put i b = record { at = λ p h. ground (arith, stable p.mdb i b) }

  Keeps-fill : (i : ℕ) (request : List ℕ) → Keeps (AtPort I P) (fill i request)
  unfolding fill
  Keeps-fill i [] = Keeps-pure _ tt
  Keeps-fill i (b ∷ bs) = Keeps-bind _ _ _ (Keeps-put (i * word_size) b) λ _. Keeps-fill (i + 1) bs

  pub Keeps-encode : (request : List ℕ) → Keeps (AtPort I P) (encode request)
  unfolding encode
  Keeps-encode request = search (keeps_rules, Keeps-put, Keeps-fill, Keeps-slice_to I P)

module _ (I : GpioMdb → Type 0) (H : Hardware) (P : History → Type 0) (q : Quiet P) (fuel : ℕ) where
  pub Keeps-send :
      (w : Wave) (deadline : ℕ) (e : String) → Keeps (AtPort I P) (send_wait H fuel w deadline e)
  unfolding send_wait
  Keeps-send w deadline e =
      Keeps-bind _ _ _ (Keeps-gets _ _)
        λ step. Keeps-hw I P _ (Keeps-send_wait H P q fuel w deadline step e)

  pub Keeps-tick : (start : ℕ) → Keeps (AtPort I P) (hw (tick_since H start))
  Keeps-tick start = Keeps-hw I P _ (Keeps-tick_since H P q start)

  pub Keeps-conclude :
      (small_us end_byte : ℕ) (response : List ℕ)
      → Keeps (AtPort I P) (conclude H fuel small_us end_byte response)
  unfolding conclude
  Keeps-conclude small_us end_byte [] = Keeps-verdict I P end_byte
  Keeps-conclude small_us end_byte (b ∷ bs) =
      Keeps-bind _ _ _ (Keeps-tick 0) λ t. search (keeps_rules, Keeps-add_u32, Keeps-send) depth 8

-- The words of a request are put into the buffer in place.
pub Keeps-encoded :
    (I : GpioMdb → Type 0) (P : History → Type 0)
    → Unread I
    → (request : List ℕ) → Keeps (AtPort I P) (encode request)
Keeps-encoded I P u request =
    Keeps-encode I P (λ m i b h. u.keeps m (set m.buf i b) (length-set m.buf i b) h) request

module _ (I : GpioMdb → Type 0) (P : History → Type 0) (u : Unread I) (l : Listening P)
    (q : Quiet P) (H : Hardware) (fuel : ℕ) where
  pub Keeps-exchange :
      (E : Env) (w : Wave) (request response : List ℕ) (timeout : Duration)
      → Keeps (AtPort I P) (exchange H fuel E w request response timeout)
  unfolding exchange
  Keeps-exchange E w request response timeout =
      Keeps-bind _ _ _ (Keeps-duration _ timeout) λ timeout_us.
        Keeps-bind _ _ _ (Keeps-tick I H P q fuel 0) λ io_start_us.
          Keeps-bind _ _ _ (Keeps-add_u32 _ io_start_us timeout_us) λ receive_wait_deadline_us.
            Keeps-bind _ _ _ (Keeps-mul_u32 _ _ (length request)) λ send_us.
              Keeps-bind _ _ _ (Keeps-add_u32 _ io_start_us send_us) λ send_deadline_us.
                Keeps-bind _ _ _ (Keeps-send I H P q fuel w send_deadline_us _) λ _.
                  Keeps-bind _ _ _ (Keeps-wait_receive I P u l H fuel _) λ received_count.
                    Keeps-bind _ _ _ (Keeps-tick I H P q fuel 0) λ t.
                      Keeps-bind _ _ _ (Keeps-add_u32 _ t _) λ receive_deadline.
                        Keeps-bind _ _ _ (Keeps-receive I P u l H fuel fuel _ _ response) λ r.
                          Keeps-bind _ _ _ (Keeps-conclude I H P q fuel _ r.0 r.1) λ _.
                            Keeps-if _ E.debug_enabled _ _
                              (Keeps-bind _ _ _ (Keeps-tick I H P q fuel io_start_us)
                                λ _. Keeps-pure _ r.1)
                              (Keeps-pure _ r.1)
