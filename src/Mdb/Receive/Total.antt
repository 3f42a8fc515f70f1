-- ===== src/Mdb/Receive/Total.antt =====
-- The receive loop ends, on a device that does not send for ever.
use vender.Prelude.{
  ℕ, zero, suc, ◌+◌, ◌*◌, ◌/◌, ◌^◌, ◌≤◌, ◌<◌, ◌≡◌, refl, ap, List, ◌++◌, arith, length,
  length-append,
}
use vender.Exec.{Outcome, ok, err, panicked, out_of_fuel, ◌>>=◌}
use vender.Exec.Keeps.{Post, Anything, bind-ok}
use vender.Exec.Ends.{EndPost, Ends, EndPost-continue, EndPost-weaken}
use vender.Ffi.{History, Hardware}
use vender.Ffi.Clock.{Clock}
use vender.Mdb.Receive.{Port, Scan, ended, more, resume, wait_receive, receive}
use vender.Mdb.Receive.Words.{Word, Serial, stream, words_at, scan_words-eq-scan}
use vender.Mdb.Receive.Stream.{IsFull, Chunk, Triple-wait_receive}
use vender.Mdb.Receive.Wait.{WaitedUntil, wait_receive-WaitedUntil}

-- A promise of every success, and one that every outcome keeps.
EndPost-and :
    {S A : Type 0} (Q Q' : A → S → Type 0) (r : Outcome A) (s : S)
    → Post Q Anything r s
    → EndPost Q' r s
    → EndPost (λ a s. Q a s × Q' a s) r s
EndPost-and Q Q' (ok a) s h h' = (h, h')
EndPost-and Q Q' (err e) s h h' = tt
EndPost-and Q Q' panicked s h h' = h'
EndPost-and Q Q' out_of_fuel s h h' = h'

pub length-words_at : (n i : ℕ) (buf : List ℕ) → length (words_at n i buf) ≡ n
unfolding words_at
length-words_at zero i buf = refl
length-words_at (suc n) i buf = ap suc (length-words_at n (i + 2) buf)

-- Twice the jitter for each of `m` reads.
abbrev pub reads : (jitter m : ℕ) → ℕ
reads jitter zero = 0
reads jitter (suc m) = 2 * jitter + reads jitter m

-- The driver has its pause, and the clock has not passed this time.
abbrev pub By : {H : Hardware} → Clock H → (step limit : ℕ) → Port → Type 0
By C step limit p = (p.mdb.wait_step ≡ step) × (C.now p.history ≤ limit)

module _ (H : Hardware) (C : Clock H) (S : Serial H) (deadline step : ℕ) where
  -- A wait has given a chunk.
  abbrev pub CameBy : (limit : ℕ) (base : List Word) → ℕ → Port → Type 0
  CameBy limit base n p = Chunk H S base n p × ((0 < n) × By C step limit p)

  waited-EndPost :
      (limit : ℕ) (r : Outcome ℕ) (q : Port)
      → WaitedUntil H C deadline step limit r q
      → EndPost (λ n q. (0 < n) × By C step (limit + 2 * C.jitter) q) r q
  waited-EndPost limit (ok n) q (some, paced, soon) = (some, (paced, soon))
  waited-EndPost limit (err e) q h = tt
  waited-EndPost limit panicked q h = h.0
  waited-EndPost limit out_of_fuel q h = h.0

  module _ (positive : 0 < step) (fuel : ℕ) (enough : deadline + 1 < fuel) where
    pub wait-Came :
        (limit : ℕ) (base : List Word) (p : Port)
        → deadline + step + C.jitter ≤ limit
        → limit + 2 * C.jitter < 2 ^ 32
        → stream H p.history ≡ base
        → IsFull p.mdb
        → By C step limit p
        → let (r, q) = wait_receive H fuel deadline p in
          EndPost (CameBy (limit + 2 * C.jitter) base) r q
    wait-Came limit base p room no_wrap same full (paced, by) =
        let w = wait_receive H fuel deadline p in
        EndPost-and (Chunk H S base) (λ n q. (0 < n) × By C step (limit + 2 * C.jitter) q) w.0 w.1
          ((Triple-wait_receive H S base fuel deadline).at p (same, full))
          (waited-EndPost limit w.0 w.1 (
            wait_receive-WaitedUntil H C deadline step limit positive room no_wrap fuel p
              (paced, by, omega arith, omega arith)))

    -- The device sends no more than `total` words.
    module _ (total : ℕ) (finite : (h : History) → length (stream H h) ≤ total) where
      -- A chunk after which at most `left` words may come.
      abbrev pub Nearly : (left limit : ℕ) → List Word → ℕ → Port → Type 0
      Nearly left limit base count p =
          Chunk H S base count p
          × By C step limit p
          × (total ≤ length base + (count + 1) / 2 + left)

      abbrev pub EndsBy : (limit : ℕ) → ℕ × List ℕ → Port → Type 0
      EndsBy limit r = By C step limit

      after_wait :
          (rounds left limit : ℕ) (base : List Word) (n : ℕ) (bytes : List ℕ)
          → ((left limit : ℕ) (base : List Word) (n : ℕ) (bytes : List ℕ)
              → left < rounds
              → deadline + step + C.jitter ≤ limit
              → limit + reads C.jitter (suc left) < 2 ^ 32
              → Ends
                  (Nearly left limit base n)
                  (receive H rounds fuel deadline n bytes)
                  (EndsBy (limit + reads C.jitter (suc left))))
          → left < suc rounds
          → deadline + step + C.jitter ≤ limit
          → limit + reads C.jitter (suc left) < 2 ^ 32
          → total ≤ length base + left
          → Ends
              (CameBy (limit + 2 * C.jitter) base n)
              (receive H rounds fuel deadline n bytes)
              (EndsBy (limit + reads C.jitter (suc left)))
      after_wait rounds zero limit base n bytes again short room no_wrap few = record {
        at = λ p h.
            let ((same, full, fits), (some, by)) = h in
            absurd (
              omega (
                arith,
                finite p.history,
                ap length same,
                length-append base (words_at ((n + 1) / 2) 0 p.mdb.buf),
                length-words_at ((n + 1) / 2) 0 p.mdb.buf,
              ));
      }
      after_wait rounds (suc left) limit base n bytes again short room no_wrap few = record {
        at = λ p h.
            let (chunk, (some, by)) = h in
            EndPost-weaken (EndsBy (limit + 2 * C.jitter + reads C.jitter (suc left)))
              (EndsBy (limit + reads C.jitter (suc (suc left)))) (λ a q k. (k.0, omega arith)) _ _
              ((again left (limit + 2 * C.jitter) base n bytes (omega arith) (omega arith)
                  (omega arith)).at
                p (chunk, by, omega arith));
      }

      after_scan :
          (rounds left limit : ℕ) (base : List Word) (count : ℕ) (found : Scan) (p : Port)
          → ((left limit : ℕ) (base : List Word) (n : ℕ) (bytes : List ℕ)
              → left < rounds
              → deadline + step + C.jitter ≤ limit
              → limit + reads C.jitter (suc left) < 2 ^ 32
              → Ends
                  (Nearly left limit base n)
                  (receive H rounds fuel deadline n bytes)
                  (EndsBy (limit + reads C.jitter (suc left))))
          → left < suc rounds
          → deadline + step + C.jitter ≤ limit
          → limit + reads C.jitter (suc left) < 2 ^ 32
          → Nearly left limit base count p
          → let (r, q) =
              (resume found λ bytes.
                  wait_receive H fuel deadline >>= λ n. receive H rounds fuel deadline n bytes)
                p in
            EndPost (EndsBy (limit + reads C.jitter (suc left))) r q
      unfolding ◌>>=◌
      after_scan rounds left limit base count (ended e bytes) p again short room no_wrap h =
          let (chunk, (paced, by), few) = h in (paced, omega arith)
      after_scan rounds left limit base count (more bytes) p again short room no_wrap h =
          let ((same, full, fits), by, few) = h in
          let words = words_at ((count + 1) / 2) 0 p.mdb.buf in
          let w = wait_receive H fuel deadline p in
          EndPost-continue Anything (CameBy (limit + 2 * C.jitter) (base ++ words))
            (EndsBy (limit + reads C.jitter (suc left)))
            (λ n. receive H rounds fuel deadline n bytes)
            (λ n. after_wait rounds left limit (base ++ words) n bytes again short room no_wrap (
              omega
                (arith, length-append base words, length-words_at ((count + 1) / 2) 0 p.mdb.buf)))
            w.0 w.1 (wait-Came limit (base ++ words) p room (omega arith) same full by)

      pub receive-Ends :
          (rounds left limit : ℕ) (base : List Word) (count : ℕ) (response : List ℕ)
          → left < rounds
          → deadline + step + C.jitter ≤ limit
          → limit + reads C.jitter (suc left) < 2 ^ 32
          → Ends
              (Nearly left limit base count)
              (receive H rounds fuel deadline count response)
              (EndsBy (limit + reads C.jitter (suc left)))
      unfolding receive
      receive-Ends zero left limit base count response short room no_wrap = elim short [ ]
      receive-Ends (suc rounds) left limit base count response short room no_wrap = record {
        at = λ p h.
            let ((same, full, fits), by, few) = h in
            rw
              (bind-ok _ _ p
                (scan_words-eq-scan ((count + 1) / 2) 0 response p (omega (arith, full, fits))))
              (after_scan rounds left limit base count _ p
                (λ left limit base n bytes. receive-Ends rounds left limit base n bytes) short room
                no_wrap h);
      }

      -- The receive loop ends with a block or an error, and no read of the buffer is out of bounds:
      -- if the clock and the reads are as documented, the driver's pause is positive and its buffer
      -- has its size, the last words that came in are the chunk in the buffer, the device sends at
      -- most `total` words, of which `left` may still come after the chunk, there are more rounds
      -- than those, each wait has two rounds more than the deadline has microseconds, and `limit`,
      -- with twice the jitter for each of those words and once more, stays below the wrap of the
      -- tick. After a block the clock is at most that much past `limit`, which is no earlier than
      -- the call and than a pause and the jitter after the deadline.
      pub receive-EndsBy :
          (rounds left limit : ℕ) (base : List Word) (count : ℕ) (response : List ℕ) (p : Port)
          → left < rounds
          → deadline + step + C.jitter ≤ limit
          → limit + reads C.jitter (suc left) < 2 ^ 32
          → Nearly left limit base count p
          → let (r, q) = receive H rounds fuel deadline count response p in
            EndPost (EndsBy (limit + reads C.jitter (suc left))) r q
      receive-EndsBy rounds left limit base count response p short room no_wrap h =
          (receive-Ends rounds left limit base count response short room no_wrap).at p h
