-- ===== src/Mdb/Receive/Stream.antt =====
-- What `wait_receive` and the loop `'receive` take from the words that come in.
use mathlib.Core.List.{append-nil, append_assoc}
use vender.Prelude.{
  ℕ, zero, suc, ℤ, pos, negsuc, ◌+◌, ◌/◌, ◌≤◌, ◌≡◌, refl, sym, ap, ◌∙◌, List, ◌∷◌, ◌++◌, arith, ltb,
  ltb→le, length,
}
use vender.Exec.{◌>>=◌}
use vender.Exec.Keeps.{
  Post, Triple, Triple-bind, Triple-if, Triple-after, Triple-weaken, Post-weaken, Anything,
  Keeps-gets, bind-ok,
}
use vender.Ffi.{Call, serial_read, delay, History, Hardware}
use vender.Pigpio.{check, tick_since}
use vender.Pigpio.Quiet.{Quiet, IsQuiet, quiet, Keeps-tick_since, Keeps-invoke_word}
use vender.Mdb.{GpioMdb, buf_size}
use vender.Mdb.Receive.{
  Port, hw, with_buf, overlay, Scan, ended, more, resume, read_serial, wait_receive, receive,
}
use vender.Mdb.Receive.Quiet.{AtPort, Unread, Keeps-hw}
use vender.Mdb.Receive.Words.{
  Word, Serial, stream, scan, scan-append, words_at, words_at-overlay, length-overlay,
  scan_words-eq-scan,
}

abbrev pub IsFull : GpioMdb → Type 0
IsFull m = length m.buf ≡ buf_size

pub IsFull-Unread : Unread IsFull
IsFull-Unread = record { keeps = λ m buf same full. same ∙ full }

module _ (H : Hardware) (S : Serial H) where
  abbrev pub Came : List Word → History → Type 0
  Came base h = stream H h ≡ base

  stream-keeps :
      (base : List Word) (c : Call) (h : History) → IsQuiet c → Came base h → Came base (c ∷ h)
  unfolding stream
  stream-keeps base (serial_read gpio size) h n e = elim n [ ]
  stream-keeps base _ h n e = e

  pub Came-Quiet : (base : List Word) → Quiet (Came base)
  Came-Quiet base = record { keeps = stream-keeps base }

  -- Of the words so far the last are those that `n` bytes of the buffer hold.
  abbrev pub Chunk : List Word → ℕ → Port → Type 0
  Chunk base n p =
      (stream H p.history ≡ base ++ words_at ((n + 1) / 2) 0 p.mdb.buf)
      × IsFull p.mdb
      × (n ≤ buf_size)

  module _ (base : List Word) where
    -- Nothing has come in since.
    abbrev Idle : Port → Type 0
    Idle = AtPort IsFull (Came base)

    Post-read :
        (p : Port) (gpio : ℕ) (z : ℤ)
        → let h = serial_read gpio (length p.mdb.buf) ∷ p.history in
          let p' : Port = with_buf (record p { history = h }) (overlay (H.stored h) p.mdb.buf) in
          H.code h ≡ z
          → stream H p.history ≡ base
          → IsFull p.mdb
          → Post (Chunk base) Idle (check z p').0 (check z p').1
    unfolding check stream
    Post-read p gpio (negsuc k) e same full =
        let bytes = H.stored (serial_read gpio (length p.mdb.buf) ∷ p.history) in
        (rw (e, same) (append-nil base), omega (arith, length-overlay bytes p.mdb.buf, full))
    Post-read p gpio (pos n) e same full =
        let size = length p.mdb.buf in
        let bytes = H.stored (serial_read gpio size ∷ p.history) in
        let count = S.stored_count gpio size p.history n e in
        let even = S.whole_words gpio size p.history n e in
        let fits = S.within gpio size p.history n e in
        let rounds : (n + 1) / 2 ≡ length bytes / 2 = omega (arith, count, even) in
        (
          rw (e, same, rounds)
              (ap (λ ws. base ++ ws)
                (sym (
                  words_at-overlay bytes p.mdb.buf (omega (arith, count, even))
                    (omega (arith, count, fits))))),
          omega (arith, length-overlay bytes p.mdb.buf, full),
          omega (arith, fits, full),
        )

    Triple-read_serial : Triple Idle (read_serial H) (Chunk base) Idle
    unfolding read_serial ◌>>=◌
    Triple-read_serial = record { at = λ p h. Post-read p p.mdb.rx_pin _ refl h.0 h.1 }

    -- A wait that fails has taken nothing in.
    pub Triple-wait_receive-Idle :
        (fuel deadline : ℕ) → Triple Idle (wait_receive H fuel deadline) (Chunk base) Idle
    unfolding wait_receive words_at
    Triple-wait_receive-Idle zero deadline = record { at = λ p h. tt }
    Triple-wait_receive-Idle (suc fuel) deadline =
        Triple-bind Idle (Chunk base) (Chunk base) Idle _ _ Triple-read_serial λ n.
          Triple-if _ _ _ (ltb 0 n) _ _ (λ _. record { at = λ p h. h })
            λ none_yet.
              Triple-weaken (Chunk base n) Idle (Chunk base) (Chunk base) Idle Idle _
                (λ p h. (still_idle n p (ltb→le 0 n none_yet) h.0, h.1)) (λ a p h. h) (λ p h. h)
                (Triple-after Idle (Chunk base) _ _
                  (Keeps-hw IsFull (Came base) _ (Keeps-tick_since H _ q 0))
                  λ t.
                    Triple-if _ _ _ (ltb deadline t) _ _ (λ _. record { at = λ p h. h })
                      λ _. Triple-after Idle (Chunk base) _ _ (Keeps-gets _ _) λ step.
                        Triple-after Idle (Chunk base) _ _
                          (Keeps-hw IsFull (Came base) _
                            (Keeps-invoke_word H _ q (delay step) quiet))
                          λ _. Triple-wait_receive-Idle fuel deadline)
      where
        q : Quiet (Came base)
        q = Came-Quiet base

        still_idle :
            (n : ℕ) (p : Port)
            → n ≤ 0
            → stream H p.history ≡ base ++ words_at ((n + 1) / 2) 0 p.mdb.buf
            → stream H p.history ≡ base
        still_idle n p h e =
            let rounds : (n + 1) / 2 ≡ 0 = omega arith in e ∙ rw rounds (append-nil base)

    pub Triple-wait_receive :
        (fuel deadline : ℕ)
        → Triple (AtPort IsFull (Came base)) (wait_receive H fuel deadline) (Chunk base) Anything
    Triple-wait_receive fuel deadline =
        Triple-weaken Idle Idle (Chunk base) (Chunk base) Idle Anything _ (λ p h. h) (λ a p h. h)
          (λ p h. tt) (Triple-wait_receive-Idle fuel deadline)

  -- The words that a block is read from follow those before it in the stream.
  abbrev pub Block : List Word → List ℕ → ℕ × List ℕ → Port → Type 0
  Block base response (end_byte, bytes) p =
      (ws : List Word) × (stream H p.history ≡ base ++ ws)
      × (scan ws response ≡ ended end_byte bytes)

  Block-append :
      (base xs : List Word) (response middle : List ℕ) (r : ℕ × List ℕ) (p : Port)
      → scan xs response ≡ more middle
      → Block (base ++ xs) middle r p
      → Block base response r p
  Block-append base xs response middle r p e (ws, same, found) =
      (xs ++ ws, same ∙ append_assoc base xs ws, scan-append xs ws response ∙ rw e found)

  Post-resume :
      (rounds fuel deadline : ℕ)
      → ((base : List Word) (count : ℕ) (response : List ℕ)
          → Triple
              (Chunk base count)
              (receive H rounds fuel deadline count response)
              (Block base response)
              Anything)
      → (base : List Word) (count : ℕ) (response : List ℕ) (s : Scan) (p : Port)
      → scan (words_at ((count + 1) / 2) 0 p.mdb.buf) response ≡ s
      → Chunk base count p
      → let (r, p') =
          (resume s
              λ bytes. wait_receive H fuel deadline >>= λ n. receive H rounds fuel deadline n bytes)
            p in
        Post (Block base response) Anything r p'
  Post-resume rounds fuel deadline again base count response (ended e bytes) p found h =
      (words_at ((count + 1) / 2) 0 p.mdb.buf, h.0, found)
  Post-resume rounds fuel deadline again base count response (more bytes) p found
        (same, full, fits) =
      let xs = words_at ((count + 1) / 2) 0 p.mdb.buf in
      let next =
        Triple-bind (AtPort IsFull (Came (base ++ xs))) (Chunk (base ++ xs))
          (Block (base ++ xs) bytes) Anything _ _ (Triple-wait_receive (base ++ xs) fuel deadline)
          λ n. again (base ++ xs) n bytes in
      Post-weaken IsHere IsHere (Block (base ++ xs) bytes) (Block base response) Anything Anything
        (λ a q. Block-append base xs response bytes a q found) (λ q h. h) _ _
        (next.at p (same, full))
    where
      IsHere : Port → Type 0
      IsHere q = Unit

  pub Triple-receive :
      (rounds fuel deadline : ℕ) (base : List Word) (count : ℕ) (response : List ℕ)
      → Triple
          (Chunk base count)
          (receive H rounds fuel deadline count response)
          (Block base response)
          Anything
  unfolding receive
  Triple-receive zero fuel deadline base count response = record { at = λ p h. tt }
  Triple-receive (suc rounds) fuel deadline base count response = record {
    at = λ p h.
        rw
          (bind-ok _ _ p
            (scan_words-eq-scan ((count + 1) / 2) 0 response p (omega (arith, h.1, h.2))))
          (Post-resume rounds fuel deadline (Triple-receive rounds fuel deadline) base count
            response _ p refl h);
  }

  -- Looking at the clock leaves the words in the buffer.
  pub Chunk-tick :
      (base : List Word) (count start : ℕ)
      → Triple (Chunk base count) (hw (tick_since H start)) (λ _. Chunk base count) Anything
  unfolding tick_since stream ◌>>=◌
  Chunk-tick base count start = record { at = λ p h. h }

  -- The reads are as documented. If the last words that came in are the chunk of `count` bytes in
  -- the buffer, and `receive` returns, then that chunk and the words that came in after it hold a
  -- block: the bytes before the first word with the ninth bit, added to `response`, and as the end
  -- byte that word's byte.
  pub receive-Block :
      (rounds fuel deadline count : ℕ) (base : List Word) (response : List ℕ) (p : Port)
      → Chunk base count p
      → let (r, q) = receive H rounds fuel deadline count response p in
        Post (Block base response) Anything r q
  receive-Block rounds fuel deadline count base response p h =
      (Triple-receive rounds fuel deadline base count response).at p h
