-- ===== src/Mdb/Receive/Words.antt =====
-- The words that come in, over all reads, and the scan of a chunk of them in the buffer.
use vender.Prelude.{
  ℕ, zero, suc, ℤ, pos, negsuc, ◌+◌, ◌*◌, ◌/◌, ◌%◌, ◌≤◌, ◌<◌, ◌≡◌, refl, ap, Option, none, some,
  List, [], ◌∷◌, ◌++◌, arith, ◌==◌, if◌then◌else◌, length, get_elem?,
}
use vender.Exec.{ok, ◌>>=◌}
use vender.Ffi.{serial_read, History, Hardware}
use vender.Mdb.Receive.{Port, get, overlay, Scan, ended, more, scan_words}

-- A received character: its byte, and the byte that holds the ninth bit.
abbrev pub Word : Type 0
Word = ℕ × ℕ

unfoldable pub pairs : List ℕ → List Word
pairs [] = []
pairs (v ∷ []) = []
pairs (v ∷ f ∷ rest) = (v, f) ∷ pairs rest

-- The bytes up to the first word with the ninth bit set, after those that came before.
unfoldable pub scan : List Word → List ℕ → Scan
scan [] response = more response
scan ((v, f) ∷ ws) response =
    let rest = scan ws (response ++ (v ∷ [])) in if f == 1 then ended v response else rest

-- Go on with more words where the first ones have not ended the block.
abbrev pub scan_more : Scan → List Word → Scan
scan_more (ended e r) ws = ended e r
scan_more (more r) ws = scan ws r

pub scan-append :
    (xs ys : List Word) (response : List ℕ)
    → scan (xs ++ ys) response ≡ scan_more (scan xs response) ys
unfolding scan
scan-append [] ys response = refl
scan-append ((v, f) ∷ xs) ys response = ground (arith, scan-append xs ys (response ++ (v ∷ [])))

abbrev or_zero : Option ℕ → ℕ
or_zero none = 0
or_zero (some n) = n

-- The first words of the buffer from an index on.
unfoldable pub words_at : (rounds i : ℕ) → List ℕ → List Word
words_at zero i buf = []
words_at (suc rounds) i buf =
    (or_zero (get_elem? buf i), or_zero (get_elem? buf (i + 1))) ∷ words_at rounds (i + 2) buf

get_elem?-in :
    (i : ℕ) (xs : List ℕ) → i < length xs → get_elem? xs i ≡ some (or_zero (get_elem? xs i))
get_elem?-in i [] h = elim h [ ]
get_elem?-in zero (x ∷ xs) h = refl
get_elem?-in (suc i) (x ∷ xs) h = get_elem?-in i xs (omega arith)

get-in :
    (i : ℕ) (p : Port) → i < length p.mdb.buf → get i p ≡ (ok (or_zero (get_elem? p.mdb.buf i)), p)
unfolding get
get-in i p h = ground (arith, get_elem?-in i p.mdb.buf h)

-- Where the words of the rounds lie inside the buffer, the loop over it gives the scan of those
-- words: it does not panic, and changes nothing.
pub scan_words-eq-scan :
    (rounds i : ℕ) (response : List ℕ) (p : Port)
    → i + rounds * 2 ≤ length p.mdb.buf
    → scan_words rounds i response p ≡ (ok (scan (words_at rounds i p.mdb.buf) response), p)
unfolding scan_words scan words_at ◌>>=◌
scan_words-eq-scan zero i response p h = refl
scan_words-eq-scan (suc rounds) i response p h = ground (
  arith,
  get-in i p,
  get-in (i + 1) p,
  scan_words-eq-scan rounds (i + 2) (response ++ (or_zero (get_elem? p.mdb.buf i) ∷ [])) p,
)

-- What the C library documents of a read with nine data bits: it stores as many bytes as it says,
-- two for each character, and no more than there is room for.
pub record Serial (H : Hardware) : Type 0 where
  pub stored_count :
      (gpio size : ℕ) (h : History) (n : ℕ)
      → H.code (serial_read gpio size ∷ h) ≡ pos n
      → length (H.stored (serial_read gpio size ∷ h)) ≡ n
  pub whole_words :
      (gpio size : ℕ) (h : History) (n : ℕ) → H.code (serial_read gpio size ∷ h) ≡ pos n → n % 2 ≡ 0
  pub within :
      (gpio size : ℕ) (h : History) (n : ℕ) → H.code (serial_read gpio size ∷ h) ≡ pos n → n ≤ size

-- All words that reads have given, in the order in which they came.
abbrev pub words_of : ℤ → List ℕ → List Word
words_of (pos n) bytes = pairs bytes
words_of (negsuc n) bytes = []

module _ (H : Hardware) where
  unfoldable pub stream : History → List Word
  stream [] = []
  stream (serial_read gpio size ∷ h) =
      stream h
      ++ words_of (H.code (serial_read gpio size ∷ h)) (H.stored (serial_read gpio size ∷ h))
  stream (_ ∷ h) = stream h

words_at-cons :
    (rounds i a b : ℕ) (buf : List ℕ)
    → words_at rounds (i + 2) (a ∷ b ∷ buf) ≡ words_at rounds i buf
unfolding words_at
words_at-cons zero i a b buf = refl
words_at-cons (suc rounds) i a b buf =
    let e : i + 2 ≡ suc (suc i) = omega arith in
    let e' : i + 2 + 1 ≡ suc (suc (i + 1)) = omega arith in
    cc (
      ap (get_elem? (a ∷ b ∷ buf)) e,
      ap (get_elem? (a ∷ b ∷ buf)) e',
      words_at-cons rounds (i + 2) a b buf,
    )

-- After a read of whole words the buffer begins with them.
pub words_at-overlay :
    (bytes buf : List ℕ)
    → length bytes % 2 ≡ 0
    → length bytes ≤ length buf
    → words_at (length bytes / 2) 0 (overlay bytes buf) ≡ pairs bytes
unfolding words_at pairs overlay
words_at-overlay [] buf e h = refl
words_at-overlay (a ∷ []) buf e h = absurd (omega arith)
words_at-overlay (a ∷ b ∷ bytes) [] e h = elim h [ ]
words_at-overlay (a ∷ b ∷ bytes) (x ∷ []) e h = absurd (omega arith)
words_at-overlay (a ∷ b ∷ bytes) (x ∷ y ∷ buf) e h =
    let half : suc (suc (length bytes)) / 2 ≡ suc (length bytes / 2) = omega arith in
    rw half (
      cc (
        words_at-cons (length bytes / 2) 0 a b (overlay bytes buf),
        words_at-overlay bytes buf (omega arith) (omega arith),
      ))

pub length-overlay : (bytes buf : List ℕ) → length (overlay bytes buf) ≡ length buf
unfolding overlay
length-overlay bytes [] = refl
length-overlay [] (x ∷ buf) = refl
length-overlay (b ∷ bytes) (x ∷ buf) = ap suc (length-overlay bytes buf)
