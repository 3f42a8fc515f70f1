-- ===== src/Mdb/Transfer/Order.antt =====
-- Which waves a transfer sends, and in which order: the request first, then the answer.
use vender.Prelude.{
  ℕ, ◌≡◌, ap, ◌∙◌, ◌⊎◌, inl, inr, Bool, true, false, List, [], ◌∷◌, length, ◌==◌, if◌then◌else◌,
}
use vender.Exec.{Exec, pure, ◌>>=◌, ◌>>◌}
use vender.Exec.Keeps.{Post-weaken, Triple, Triple-bind, Triple-if, Triple-weaken, Keeps}
use vender.Ffi.{Call, serial_read, tick, delay, History, Hardware}
use vender.Pigpio.{Wave, tick_since}
use vender.Pigpio.Quiet.{Keeps-add_u32, Keeps-mul_u32}
use vender.Mdb.{GpioMdb, checksum}
use vender.Mdb.Time.{Duration}
use vender.Mdb.Driver.{Env}
use vender.Mdb.Bus.Quiet.{Keeps-tick}
use vender.Mdb.Receive.{Port, hw}
use vender.Mdb.Receive.Quiet.{
  AtPort, Keeps-hw, Listens, Listening, Keeps-wait_receive, Keeps-receive,
}
use vender.Mdb.Receive.Waves.{SameBut, SameBut-Unread}
use vender.Mdb.Transfer.{conclude, exchange, send_wait}
use vender.Mdb.Transfer.Quiet.{Keeps-duration, Keeps-verdict}
use vender.Mdb.Transfer.Answers.{
  waves_sent, HasSent, HasSent-Looking, Triple-answer, due, conclude-Answered,
}

module _ (H : Hardware) (waves : List ℕ) where
  HasSent-Listens :
      (c : Call) (h : History) → Listens c → HasSent H waves h → HasSent H waves (c ∷ h)
  unfolding waves_sent
  HasSent-Listens (serial_read gpio size) h n e = e
  HasSent-Listens tick h n e = e
  HasSent-Listens (delay micros) h n e = e
  HasSent-Listens _ h n e = elim n [ ]

  HasSent-Listening : Listening (HasSent H waves)
  HasSent-Listening = record { keeps = HasSent-Listens }

-- `fixed` is the driver but for what its buffer holds, `w` the wave of the request, and `before`
-- are the waves that were sent before it.
module _ (H : Hardware) (fuel : ℕ) (fixed : GpioMdb) (w : ℕ) (before : List ℕ) where
  abbrev Sent : List ℕ → Port → Type 0
  Sent waves = AtPort (SameBut fixed) (HasSent H waves)

  -- After a success: the request, and then the ACK if the response has bytes.
  abbrev pub Finished : List ℕ → Port → Type 0
  Finished [] q = waves_sent q.history ≡ w ∷ before
  Finished (_ ∷ _) q = waves_sent q.history ≡ fixed.wave_ack.id ∷ w ∷ before

  -- After a failure: nothing, or the request, or the request and then one answer.
  abbrev pub Tried : Port → Type 0
  Tried q =
      (waves_sent q.history ≡ before)
      ⊎ (waves_sent q.history ≡ w ∷ before)
      ⊎ (waves_sent q.history ≡ fixed.wave_ack.id ∷ w ∷ before)
      ⊎ (waves_sent q.history ≡ fixed.wave_nak.id ∷ w ∷ before)

  -- A step that sends nothing.
  step :
      {A B : Type 0} (waves : List ℕ) (Q : B → Port → Type 0) (m : Exec Port A)
      (f : A → Exec Port B)
      → ((q : Port) → Sent waves q → Tried q)
      → Keeps (Sent waves) m
      → ((a : A) → Triple (Sent waves) (f a) Q Tried)
      → Triple (Sent waves) (m >>= f) Q Tried
  step waves Q m f tried km kf =
      Triple-bind (Sent waves) (λ _. Sent waves) Q Tried m f
        (Triple-weaken (Sent waves) (Sent waves) (λ _. Sent waves) (λ _. Sent waves) (Sent waves)
          Tried m (λ p h. h) (λ a p h. h) tried km)
        kf

  answered :
      (bytes : List ℕ) (p q : Port) (good : Bool)
      → Sent (w ∷ before) p
      → (waves_sent q.history
          ≡ (if good then p.mdb.wave_ack.id else p.mdb.wave_nak.id) ∷ waves_sent p.history)
      → Tried q
  answered bytes p q true (sent, same) e =
      let ack = ap (λ m. m.wave_ack.id) same in inr (inr (inl cc))
  answered bytes p q false (sent, same) e =
      let nak = ap (λ m. m.wave_nak.id) same in inr (inr (inr cc))

  pub Triple-conclude :
      (small_us end_byte : ℕ) (bytes : List ℕ)
      → Triple
          (Sent (w ∷ before))
          (conclude H fuel small_us end_byte bytes)
          (λ _. Finished bytes)
          Tried
  unfolding conclude
  Triple-conclude small_us end_byte [] =
      Triple-weaken (Sent (w ∷ before)) (Sent (w ∷ before)) (λ _. Sent (w ∷ before))
        (λ _. Finished []) (Sent (w ∷ before)) Tried _ (λ p h. h) (λ a p h. h.0)
        (λ p h. inr (inl h.0)) (Keeps-verdict (SameBut fixed) (HasSent H (w ∷ before)) end_byte)
  Triple-conclude small_us end_byte (b ∷ bs) = record {
    at = λ p h.
        let (sent, same) = h in
        let ack = ap (λ m. m.wave_ack.id) same in
        let c = conclude H fuel small_us end_byte (b ∷ bs) p in
        Post-weaken Tried Tried
          (λ _ q.
            (end_byte ≡ checksum (b ∷ bs))
            × (waves_sent q.history ≡ p.mdb.wave_ack.id ∷ waves_sent p.history))
          (λ _. Finished (b ∷ bs))
          (λ q.
            (waves_sent q.history ≡ waves_sent p.history)
            ⊎ (waves_sent q.history ≡ due H fuel end_byte (b ∷ bs) p ∷ waves_sent p.history))
          Tried (λ _ q k. let closes = k.1 in cc)
          (λ q k. elim k [
            | inl e ↦ inr (inl (e ∙ sent))
            | inr e ↦ answered (b ∷ bs) p q (end_byte == checksum (b ∷ bs)) h e
          ])
          c.0 c.1 (conclude-Answered H fuel small_us end_byte b bs p);
  }

  Finished-tick :
      (bytes : List ℕ) (start : ℕ)
      → Triple (Finished bytes) (hw (tick_since H start)) (λ _. Finished bytes) Tried
  unfolding tick_since waves_sent ◌>>=◌
  Finished-tick [] start = record { at = λ q h. h }
  Finished-tick (b ∷ bs) start = record { at = λ q h. h }

  abbrev first : List ℕ
  first = w ∷ before

  Triple-received :
      (E : Env) (small_us start : ℕ) (r : ℕ × List ℕ)
      → Triple
          (Sent first)
          (conclude H fuel small_us r.0 r.1
            >> (if E.debug_enabled then hw (tick_since H start) >> pure r.1 else pure r.1))
          Finished
          Tried
  Triple-received E small_us start r =
      Triple-bind (Sent first) (λ _. Finished r.1) Finished Tried _ _
        (Triple-conclude small_us r.0 r.1)
        λ _.
          Triple-if (Finished r.1) Finished Tried E.debug_enabled _ _
            (λ _.
              Triple-bind (Finished r.1) (λ _. Finished r.1) Finished Tried _ _
                (Finished-tick r.1 start) λ _. record { at = λ q h. h })
            (λ _. record { at = λ q h. h })

  pub Triple-exchange :
      (E : Env) (wave : Wave) (request response : List ℕ) (timeout : Duration)
      → wave.id ≡ w
      → Triple (Sent before) (exchange H fuel E wave request response timeout) Finished Tried
  unfolding exchange
  Triple-exchange E wave request response timeout e =
      idle _ _ (Keeps-duration _ timeout) λ timeout_us. idle _ _ (now before 0) λ io_start_us.
        idle _ _ (Keeps-add_u32 _ io_start_us timeout_us) λ receive_wait_deadline_us.
          idle _ _ (Keeps-mul_u32 _ _ (length request)) λ send_us.
            idle _ _ (Keeps-add_u32 _ io_start_us send_us) λ send_deadline_us.
              Triple-bind (Sent before) (λ _. Sent first) Finished Tried _ _
                (sends send_deadline_us)
                λ _.
                  hears _ _
                    (Keeps-wait_receive _ _ (SameBut-Unread fixed) (HasSent-Listening H first) H
                      fuel _)
                    λ received_count. hears _ _ (now first 0) λ t.
                      hears _ _ (Keeps-add_u32 _ t _) λ receive_deadline.
                        hears _ _
                          (Keeps-receive _ _ (SameBut-Unread fixed) (HasSent-Listening H first) H
                            fuel fuel _ _ response)
                          λ r. Triple-received E _ io_start_us r
    where
      idle :
          {A : Type 0} (m : Exec Port A) (f : A → Exec Port (List ℕ))
          → Keeps (Sent before) m
          → ((a : A) → Triple (Sent before) (f a) Finished Tried)
          → Triple (Sent before) (m >>= f) Finished Tried
      idle m f km kf = step before Finished m f (λ q h. inl h.0) km kf

      hears :
          {A : Type 0} (m : Exec Port A) (f : A → Exec Port (List ℕ))
          → Keeps (Sent first) m
          → ((a : A) → Triple (Sent first) (f a) Finished Tried)
          → Triple (Sent first) (m >>= f) Finished Tried
      hears m f km kf = step first Finished m f (λ q h. inr (inl h.0)) km kf

      now : (waves : List ℕ) (start : ℕ) → Keeps (Sent waves) (hw (tick_since H start))
      now waves start =
          Keeps-hw (SameBut fixed) (HasSent H waves) _
            (Keeps-tick H _ (HasSent-Looking H waves) start)

      sends :
          (deadline : ℕ)
          → Triple
              (Sent before)
              (send_wait H fuel wave deadline "send request timeout")
              (λ _. Sent first)
              Tried
      sends deadline =
          Triple-weaken (Sent before) (Sent before) (λ _. Sent (wave.id ∷ before)) (λ _. Sent first)
            (Sent (wave.id ∷ before)) Tried _ (λ p h. h)
            (λ a p h. (h.0 ∙ ap (λ i. i ∷ before) e, h.1))
            (λ p h. inr (inl (h.0 ∙ ap (λ i. i ∷ before) e)))
            (Triple-answer H fuel (SameBut fixed) before wave deadline "send request timeout")
