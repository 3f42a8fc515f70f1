-- ===== src/Tests/Returns.antt =====
-- The theorems on the end of a transfer, over a device that answers the first read and is silent
-- after it.
use vender.Prelude.{
  ℕ, ℤ, pos, ◌%◌, ◌^◌, ◌≤◌, ◌≡◌, refl, Bool, true, false, List, [], ◌∷◌, arith, leb, if◌then◌else◌,
  length, length-append,
}
use vender.Exec.Ends.{EndPost}
use vender.Ffi.{serial_read, History, Hardware}
use vender.Ffi.Clock.{Clock}
use vender.Mdb.{block_max_length}
use vender.Mdb.Receive.{receive}
use vender.Mdb.Receive.Words.{Serial, pairs, words_at, stream}
use vender.Mdb.Receive.Total.{EndsBy, receive-EndsBy}
use vender.Mdb.Transfer.{tx}
use vender.Mdb.Transfer.Returns.{Returns, tx-Returns}
use vender.Server.{mdb_timeout}
use vender.Tests.Bench.{block, elapsed, bench_env}
use vender.Tests.Driver.{port, read_port}
use vender.Tests.Waiting.{elapsed_later, elapsed_bounded}

unfoldable pub unread : History → Bool
unread [] = true
unread (serial_read gpio size ∷ h) = if leb 6 size then false else unread h
unread (_ ∷ h) = unread h

unfoldable pub once_code : History → ℤ
unfolding unread
once_code (serial_read gpio size ∷ h) =
    if leb 6 size then (if unread h then pos 6 else pos 0) else pos 0
once_code _ = pos 0

unfoldable pub once_stored : History → List ℕ
unfolding unread
once_stored (serial_read gpio size ∷ h) =
    if leb 6 size then (if unread h then block else []) else []
once_stored _ = []

unfoldable pub once_word : History → ℕ
unfolding elapsed
once_word h = elapsed h % 2 ^ 32

unfoldable pub once : Hardware
unfolding once_code once_stored once_word
once = record { code = once_code; word = once_word; stored = once_stored }

pub once-Serial : Serial once
unfolding once once_code once_stored
once-Serial = record {
  stored_count = λ gpio size h n e. ground arith;
  whole_words = λ gpio size h n e. ground arith;
  within = λ gpio size h n e. ground arith;
}

unfoldable pub once-Clock : Clock once
unfolding once once_word elapsed
once-Clock = record {
  now = elapsed;
  jitter = 0;
  now_later = elapsed_later;
  now_bounded = elapsed_bounded;
  tick_reads = λ h. refl;
}

-- Three words come in, or none.
once_words : (h : History) → length (stream once h) ≡ (if unread h then 0 else 3)
unfolding stream once once_code once_stored unread pairs
once_words [] = refl
once_words (serial_read gpio size ∷ h) = ground (
  arith,
  once_words h,
  length-append (stream once h) (pairs block),
  length-append (stream once h) (pairs []),
)
once_words (_ ∷ h) = once_words h

pub once_finite : (h : History) → length (stream once h) ≤ 3
once_finite h = ground (arith, once_words h)

tx-Returns_example :
    let (r, q) = tx once (2 ^ 32) bench_env (1 ∷ 2 ∷ []) [] block_max_length mdb_timeout port in
    Returns r q
unfolding once-Clock elapsed
tx-Returns_example =
    tx-Returns once once-Clock once-Serial 101 (omega arith) (2 ^ 32) (omega arith) 3 once_finite
      (omega arith) bench_env (1 ∷ 2 ∷ []) [] block_max_length mdb_timeout port (omega arith)
      (omega arith) (omega arith) (refl, refl) (omega arith)

receive-EndsBy_example :
    let (r, q) = receive once 5 1002 1000 6 [] read_port in
    EndPost
      (EndsBy once once-Clock once-Serial 1000 101
        (omega arith)
        1002
        (omega arith)
        3
        once_finite
        1101)
      r
      q
unfolding once-Clock elapsed stream once once_code once_stored unread pairs words_at
receive-EndsBy_example =
    receive-EndsBy once once-Clock once-Serial 1000 101 (omega arith) 1002 (omega arith) 3
      once_finite 5 0 1101 [] 6 [] read_port (omega arith) (omega arith) (omega arith)
      ((refl, refl, omega arith), (refl, omega arith), omega arith)
