-- ===== src/Mdb/Transfer/Frame.antt =====
-- The words that a request is sent as: pairs of a byte and a flag for the ninth bit.
use vender.Prelude.{
  ℕ, zero, suc, ◌+◌, ◌*◌, ◌≤◌, ◌<◌, ◌≡◌, refl, some, List, [], ◌∷◌, ◌++◌, arith, ◌==◌,
  if◌then◌else◌, length, get_elem?, set, take, length-set, length-take_le, get_elem?-set,
  get_elem?-take,
}
use vender.Exec.{ok, ◌>>=◌}
use vender.Mdb.{checksum, buf_size}
use vender.Mdb.Receive.{Port, with_buf, put}
use vender.Mdb.Transfer.{fill, encode}

-- The buffer after the loop over the request.
filled : ℕ → List ℕ → List ℕ → List ℕ
filled i [] buf = buf
filled i (b ∷ bs) buf = filled (i + 1) bs (set buf (i * 2) b)

length-filled : (i : ℕ) (bs buf : List ℕ) → length (filled i bs buf) ≡ length buf
unfolding filled
length-filled i [] buf = refl
length-filled i (b ∷ bs) buf =
    omega (arith, length-filled (i + 1) bs (set buf (i * 2) b), length-set buf (i * 2) b)

fill-eq-filled :
    (i : ℕ) (bs : List ℕ) (p : Port)
    → (i + length bs) * 2 ≤ length p.mdb.buf
    → fill i bs p ≡ (ok tt, with_buf p (filled i bs p.mdb.buf))
unfolding fill filled put ◌>>=◌
fill-eq-filled i [] p h = refl
fill-eq-filled i (b ∷ bs) p h = ground (
  arith,
  fill-eq-filled (i + 1) bs (with_buf p (set p.mdb.buf (i * 2) b)),
  length-set p.mdb.buf (i * 2) b,
)

-- Where the loop writes, and where it does not.
get_elem?-filled_odd :
    (i : ℕ) (bs buf : List ℕ) (j : ℕ)
    → get_elem? (filled i bs buf) (j * 2 + 1) ≡ get_elem? buf (j * 2 + 1)
unfolding filled
get_elem?-filled_odd i [] buf j = refl
get_elem?-filled_odd i (b ∷ bs) buf j = ground (
  arith,
  get_elem?-filled_odd (i + 1) bs (set buf (i * 2) b) j,
  get_elem?-set buf (i * 2) (j * 2 + 1) b,
)

get_elem?-filled_before :
    (i : ℕ) (bs buf : List ℕ) (j : ℕ)
    → j < i
    → get_elem? (filled i bs buf) (j * 2) ≡ get_elem? buf (j * 2)
unfolding filled
get_elem?-filled_before i [] buf j h = refl
get_elem?-filled_before i (b ∷ bs) buf j h = ground (
  arith,
  get_elem?-filled_before (i + 1) bs (set buf (i * 2) b) j,
  get_elem?-set buf (i * 2) (j * 2) b,
)

get_elem?-filled_even :
    (i : ℕ) (bs buf : List ℕ) (j : ℕ)
    → (i + length bs) * 2 ≤ length buf
    → j < length bs
    → get_elem? (filled i bs buf) ((i + j) * 2) ≡ get_elem? bs j
unfolding filled
get_elem?-filled_even i [] buf j h lt = elim lt [ ]
get_elem?-filled_even i (b ∷ bs) buf zero h lt =
    let e : (i + 0) * 2 ≡ i * 2 = omega arith in
    rw e (
      ground (
        arith,
        get_elem?-filled_before (i + 1) bs (set buf (i * 2) b) i,
        get_elem?-set buf (i * 2) (i * 2) b,
      ))
get_elem?-filled_even i (b ∷ bs) buf (suc j) h lt =
    let e : (i + suc j) * 2 ≡ (i + 1 + j) * 2 = omega arith in
    rw e (
      get_elem?-filled_even (i + 1) bs (set buf (i * 2) b) j
        (omega (arith, length-set buf (i * 2) b)) (omega arith))

get_elem?-append_last :
    (xs : List ℕ) (x j : ℕ)
    → j ≤ length xs
    → get_elem? (xs ++ x ∷ []) j ≡ (if j == length xs then some x else get_elem? xs j)
get_elem?-append_last [] x zero h = ground arith
get_elem?-append_last [] x (suc j) h = elim h [ ]
get_elem?-append_last (y ∷ xs) x zero h = ground arith
get_elem?-append_last (y ∷ xs) x (suc j) h = ground (arith, get_elem?-append_last xs x j)

-- The buffer once the request and its checksum are in it.
loaded : List ℕ → List ℕ → List ℕ
unfolding filled
loaded request buf = set (filled 0 request (set buf 1 1)) (length request * 2) (checksum request)

module _ (request buf : List ℕ) (full : length buf ≡ buf_size) (short : length request < 40) where
  abbrev before : List ℕ
  before = filled 0 request (set buf 1 1)

  length-before : length before ≡ 80
  length-before = omega (arith, length-filled 0 request (set buf 1 1), length-set buf 1 1)

  length-loaded : length (loaded request buf) ≡ 80
  unfolding loaded
  length-loaded =
      omega (arith, length-before, length-set before (length request * 2) (checksum request))

  loaded_low :
      (j : ℕ)
      → j ≤ length request
      → get_elem? (loaded request buf) (j * 2) ≡ get_elem? (request ++ checksum request ∷ []) j
  unfolding loaded
  loaded_low j h = ground (
    arith,
    get_elem?-set before (length request * 2) (j * 2) (checksum request),
    get_elem?-append_last request (checksum request) j,
    get_elem?-filled_even 0 request (set buf 1 1) j,
    length-before,
    length-set buf 1 1,
  )

  loaded_flag :
      (j : ℕ)
      → get_elem? (loaded request buf) (j * 2 + 1)
        ≡ (if j == 0 then some 1 else get_elem? buf (j * 2 + 1))
  unfolding loaded
  loaded_flag j = ground (
    arith,
    get_elem?-set before (length request * 2) (j * 2 + 1) (checksum request),
    get_elem?-filled_odd 0 request (set buf 1 1) j,
    get_elem?-set buf 1 (j * 2 + 1) 1,
  )

encode-eq-loaded :
    (request : List ℕ) (p : Port)
    → length p.mdb.buf ≡ buf_size
    → length request < 40
    → encode request p ≡ (
      ok (take (length request * 2 + 2) (loaded request p.mdb.buf)),
      with_buf p (loaded request p.mdb.buf),
    )
unfolding encode loaded ◌>>=◌
encode-eq-loaded request p full short =
    let first = set p.mdb.buf 1 1 in
    let second = filled 0 request first in
    ground (
      arith,
      length-set p.mdb.buf 1 1,
      fill-eq-filled 0 request (with_buf p first),
      length-filled 0 request first,
      length-set second (length request * 2) (checksum request),
    )

-- The frame of a request: the words that `encode` gives, and what it does to the buffer.
abbrev pub Framed : List ℕ → Port → Type 0
Framed request p =
    (bytes : List ℕ) × (buf : List ℕ) × (encode request p ≡ (ok bytes, with_buf p buf))
    × (length buf ≡ buf_size)
    × (length bytes ≡ length request * 2 + 2)
    × ((j : ℕ)
        → j ≤ length request
        → (get_elem? bytes (j * 2) ≡ get_elem? (request ++ checksum request ∷ []) j)
          × (get_elem? bytes (j * 2 + 1)
              ≡ (if j == 0 then some 1 else get_elem? p.mdb.buf (j * 2 + 1))))

-- A request of fewer than 40 bytes is put into words without a panic, and only the buffer changes.
-- The low bytes of the words are the request and then its checksum. The flag of the first word is
-- 1; each other flag is what the buffer held at its place before.
pub encode_frame :
    (request : List ℕ) (p : Port)
    → length p.mdb.buf ≡ buf_size
    → length request < 40
    → Framed request p
encode_frame request p full short =
    let buf = loaded request p.mdb.buf in
    let size = length-loaded request p.mdb.buf full short in
    (
      take (length request * 2 + 2) buf,
      buf,
      encode-eq-loaded request p full short,
      size,
      length-take_le (length request * 2 + 2) buf (omega (arith, size)),
      λ j h. (
        ground (
          arith,
          get_elem?-take (length request * 2 + 2) (j * 2) buf,
          loaded_low request p.mdb.buf full short j h,
        ),
        ground (
          arith,
          get_elem?-take (length request * 2 + 2) (j * 2 + 1) buf,
          loaded_flag request p.mdb.buf full short j,
        ),
      ),
    )
