-- ===== src/Mdb/Live/Listen.antt =====
-- Receiving from a device that answers.
use mathlib.Core.List.{append-nil, append_assoc, append_cancel_left}
use vender.Prelude.{
  ℕ, zero, suc, pos, ◌+◌, ◌*◌, ◌/◌, ◌^◌, ◌≤◌, ◌<◌, ◌≡◌, ◌≢◌, refl, sym, ap, ◌∙◌, some, inl, inr,
  List, [], ◌∷◌, ◌++◌, arith, length, length-append,
}
use vender.Exec.{Outcome, pure, ok, err, panicked, out_of_fuel, ◌>>=◌}
use vender.Exec.Keeps.{bind-ok}
use vender.Exec.Gives.{Gives, Gives-bind, Keeps-Gives, Post-at_err}
use vender.Exec.Ends.{EndPost}
use vender.Ffi.{tick, serial_read, History, Hardware}
use vender.Ffi.Clock.{Clock}
use vender.Mdb.{buf_size}
use vender.Mdb.Live.Device.{Answering, SentAt, SentAt-Listening, sent_at}
use vender.Mdb.Receive.{Port, Scan, ended, more, resume, wait_receive, receive}
use vender.Mdb.Receive.Stream.{IsFull, Chunk, Came, Triple-wait_receive-Idle}
use vender.Mdb.Receive.Quiet.{AtPort, Unread, Keeps-wait_receive}
use vender.Mdb.Receive.Total.{length-words_at, By, CameBy, reads, wait-Came}
use vender.Mdb.Receive.Wait.{WaitedUntil, wait_receive-WaitedUntil}
use vender.Mdb.Receive.Words.{
  Word, Serial, stream, pairs, scan, scan_more, scan-append, words_at, scan_words-eq-scan,
}

pub Unread-any : Unread (λ m. Unit)
Unread-any = record { keeps = λ m buf e h. tt }

pairs_none : (bytes : List ℕ) → length bytes ≡ 0 → pairs bytes ≡ []
unfolding pairs
pairs_none [] e = refl
pairs_none (b ∷ bytes) e = absurd (omega arith)

module _ (H : Hardware) (C : Clock H) (S : Serial H) (words : List Word) (air arrival : ℕ)
    (A : Answering H C words air arrival) (step : ℕ) (positive : 0 < step) (fuel deadline : ℕ)
    (enough : deadline + 1 < fuel) (time : ℕ) (in_time : time + arrival + C.jitter ≤ deadline) where
  -- A read that gives no bytes leaves the stream as it was.
  nothing_read :
      (gpio size : ℕ) (h : History)
      → H.code (serial_read gpio size ∷ h) ≡ pos 0
      → stream H (serial_read gpio size ∷ h) ≡ stream H h
  unfolding stream pairs
  nothing_read gpio size h e =
      let none = pairs_none _ (S.stored_count gpio size h 0 e) in
      rw (e, none) (append-nil (stream H h))

  module _ (limit : ℕ) (room : deadline + step + C.jitter ≤ limit)
      (no_wrap : limit + 2 * C.jitter < 2 ^ 32) (p : Port) (missing : stream H p.history ≢ words)
      (full : IsFull p.mdb) (by : By C step limit p) (asked : SentAt H C time p.history) where
    abbrev before : List Word
    before = stream H p.history

    heard_by :
        (r : Outcome ℕ) (q : Port)
        → wait_receive H fuel deadline p ≡ (r, q)
        → EndPost (CameBy H C S deadline step (limit + 2 * C.jitter) before) r q
        → WaitedUntil H C deadline step limit r q
        → (n : ℕ) × (q' : Port) × Gives (wait_receive H fuel deadline) p n q'
          × CameBy H C S deadline step (limit + 2 * C.jitter) before n q'
    unfolding stream sent_at
    heard_by (ok n) q e came waited = (n, q, e, came)
    heard_by (err error) q e came (inl (k, failed), _, _) = absurd (A.sound _ k failed)
    heard_by (err error) q e came (inr (late, (h, at, (gpio, h', is_read, nothing))), _, _) =
        let size = length q.mdb.buf in
        let read = serial_read gpio size ∷ h' in
        let w = wait_receive H fuel deadline p in
        let idle = AtPort IsFull (Came H S before) in
        let kept =
          Post-at_err (Chunk H S before) idle w.0 w.1 (ap (λ s. s.0) e)
            ((Triple-wait_receive-Idle H S before fuel deadline).at p (refl, full)) in
        let quiet : H.code read ≡ pos 0 = ap H.code (sym is_read) ∙ nothing in
        let then : stream H q.history ≡ stream H h' =
          ap (stream H) (at ∙ ap (λ h. tick ∷ h) is_read) ∙ nothing_read gpio size h' quiet in
        let same : stream H h' ≡ before =
          sym then ∙ sym (ap (λ s. stream H s.1.history) e) ∙ kept.0 in
        let still_full : length q.mdb.buf ≡ buf_size =
          sym (ap (λ s. length s.1.mdb.buf) e) ∙ kept.1 in
        let kept_time =
          Post-at_err (λ _. AtPort (λ m. Unit) (SentAt H C time))
            (AtPort (λ m. Unit) (SentAt H C time)) w.0 w.1 (ap (λ s. s.0) e)
            ((Keeps-wait_receive (λ m. Unit) (SentAt H C time) Unread-any
                (SentAt-Listening H C time) H fuel deadline).at
              p (asked, tt)) in
        let then_at : sent_at C q.history ≡ sent_at C h' =
          ap (sent_at C) (at ∙ ap (λ h. tick ∷ h) is_read) in
        let same_at : sent_at C h' ≡ some time =
          sym then_at ∙ sym (ap (λ s. sent_at C s.1.history) e) ∙ kept_time.0 in
        let now : C.now q.history ≡ C.now (tick ∷ read) =
          ap C.now (at ∙ ap (λ h. tick ∷ h) is_read) in
        absurd (
          A.comes time gpio size h' same_at (omega (arith, still_full))
            (omega (arith, now, late, C.now_bounded tick read)) (λ all. missing (sym same ∙ all))
            quiet)
    heard_by panicked q e came waited = absurd came
    heard_by out_of_fuel q e came waited = absurd came

    -- While words are missing, the wait ends with some.
    pub heard :
        (n : ℕ) × (q : Port) × Gives (wait_receive H fuel deadline) p n q
        × CameBy H C S deadline step (limit + 2 * C.jitter) before n q
    heard =
        let w = wait_receive H fuel deadline p in
        heard_by w.0 w.1 refl
          (wait-Came H C S deadline step positive fuel enough limit before p room no_wrap refl full
            by)
          (wait_receive-WaitedUntil H C deadline step limit positive room no_wrap fuel p
            (by.0, by.1, omega (arith, enough), omega (arith, enough)))

  -- The words that are still to come end the block.
  abbrev Completes : (base ws : List Word) (response : List ℕ) → ℕ × List ℕ → Type 0
  Completes base ws response (end_byte, bytes) =
      (base ++ ws ≡ words) × (scan ws response ≡ ended end_byte bytes)

  -- Where a block has been received, with the clock.
  abbrev pub Received : (rounds limit n : ℕ) (response : List ℕ) → ℕ × List ℕ → Port → Type 0
  Received rounds limit n response r p =
      (q : Port) × Gives (receive H rounds fuel deadline n response) p r q × By C step limit q

  pub not_missing :
      (h : History) (rest : List Word) (response : List ℕ) (r : ℕ × List ℕ)
      → stream H h ++ rest ≡ words
      → scan rest response ≡ ended r.0 r.1
      → stream H h ≢ words
  unfolding scan
  not_missing h rest response r all found same =
      let none : rest ≡ [] =
        append_cancel_left words rest []
          (ap (λ ws. ws ++ rest) (sym same) ∙ all ∙ sym (append-nil words)) in
      let stuck : more response ≡ ended r.0 r.1 = rw none at found in absurd cc

  -- The loop receives the block, whatever has come before.
  abbrev Receives : (left rounds : ℕ) → ℕ × List ℕ → Type 0
  Receives left rounds r =
      (limit : ℕ) (base ws : List Word) (n : ℕ) (response : List ℕ) (p : Port)
      → Completes base ws response r
      → length ws ≤ left
      → left ≤ rounds
      → deadline + step + C.jitter ≤ limit
      → limit + reads C.jitter left < 2 ^ 32
      → SentAt H C time p.history
      → CameBy H C S deadline step limit base n p
      → Received rounds (limit + reads C.jitter left) n response r p

  ended_same :
      (p : Port) (e : ℕ) (bytes : List ℕ) (r : ℕ × List ℕ)
      → ended e bytes ≡ ended r.0 r.1
      → Gives (pure (e, bytes)) p r p
  ended_same p e bytes r same = cc

  resumed :
      (left rounds limit : ℕ) (ws : List Word) (r : ℕ × List ℕ) (p : Port) (s : Scan)
      → Receives left rounds r
      → stream H p.history ++ ws ≡ words
      → scan_more s ws ≡ ended r.0 r.1
      → length ws ≤ left
      → left ≤ rounds
      → deadline + step + C.jitter ≤ limit
      → limit + 2 * C.jitter + reads C.jitter left < 2 ^ 32
      → IsFull p.mdb
      → By C step limit p
      → SentAt H C time p.history
      → (q : Port) × Gives
          (resume s
            λ bytes. wait_receive H fuel deadline >>= λ n. receive H rounds fuel deadline n bytes)
          p
          r
          q
        × By C step (limit + 2 * C.jitter + reads C.jitter left) q
  resumed left rounds limit ws r p (ended e bytes) again all found few short room no_wrap full by
        asked =
      (p, ended_same p e bytes r found, (by.0, omega (arith, by.1)))
  resumed left rounds limit ws r p (more bytes) again all found few short room no_wrap full by
        asked =
      let (n, q, heard, came) =
        heard limit room (omega arith) p (not_missing p.history ws bytes r all found) full by
          asked in
      let (asked', _) =
        Keeps-Gives (AtPort (λ m. Unit) (SentAt H C time)) (wait_receive H fuel deadline)
          (Keeps-wait_receive (λ m. Unit) (SentAt H C time) Unread-any (SentAt-Listening H C time) H
            fuel deadline)
          heard (asked, tt) in
      let (q', got, by') =
        again (limit + 2 * C.jitter) (stream H p.history) ws n bytes q (all, found) few short
          (omega arith) no_wrap asked' came in
      (q', Gives-bind _ _ heard got, by')

  pub received : (left rounds : ℕ) (r : ℕ × List ℕ) → Receives left rounds r
  unfolding receive scan
  received zero rounds r limit base [] n response p (all, found) few short room no_wrap asked came =
      absurd cc
  received zero rounds r limit base (w ∷ ws) n response p (all, found) few short room no_wrap asked
        came =
      absurd (omega arith)
  received (suc left) zero r limit base ws n response p completes few short room no_wrap asked
        came =
      absurd (omega arith)
  received (suc left) (suc rounds) r limit base ws n response p (all, found) few short room no_wrap
        asked ((same, full, fits), (got_some, by)) =
      let ys = words_at ((n + 1) / 2) 0 p.mdb.buf in
      let (rest, sent) = A.sends p.history in
      let split : ys ++ rest ≡ ws =
        append_cancel_left base (ys ++ rest) ws
          (sym (append_assoc base ys rest) ∙ ap (λ ws. ws ++ rest) (sym same) ∙ sent ∙ sym all) in
      let (q, got, by') =
        resumed left rounds limit rest r p (scan ys response) (received left rounds r) sent
          (sym (scan-append ys rest response) ∙ ap (λ ws. scan ws response) split ∙ found)
          (omega (
            arith,
            ap length split,
            length-append ys rest,
            length-words_at ((n + 1) / 2) 0 p.mdb.buf,
          ))
          (omega arith) room (omega arith) full by asked in
      (
        q,
        bind-ok _ _ p (scan_words-eq-scan ((n + 1) / 2) 0 response p (omega (arith, full, fits)))
            ∙ got,
        (by'.0, omega (arith, by'.1)),
      )
