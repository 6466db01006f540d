-- ===== src/Ledger/Cursor.antt =====
-- The cursors of internal/ledger/repo.go, over base64 without padding in the alphabet for URLs. `format` and `parse`
-- are `time.Time.Format` and `time.Parse` with RFC 3339.
pub mod RoundTrip
use fault_tolerant_payment_l.Base.{
  ℕ, ◌+◌, ◌-◌, ◌*◌, ◌/◌, ◌%◌, ◌==◌, ltb, leb, Text, Bool, true, false, ◌&&◌, ◌||◌, not, Option,
  none, some, List, [], ◌∷◌, ◌++◌, map, select, cut, if◌then◌else◌,
}

-- the alphabet of `base64.RawURLEncoding`
unfoldable pub encode_digit : ℕ → ℕ
encode_digit n =
    if ltb n 26
    then b'A' + n
    else if ltb n 52
    then b'a' + (n - 26)
    else if ltb n 62
    then b'0' + (n - 52)
    else if n == 62
    then b'-'
    else b'_'

unfoldable pub decode_digit : ℕ → Option ℕ
decode_digit c =
    if leb b'A' c && leb c b'Z'
    then some (c - b'A')
    else if leb b'a' c && leb c b'z'
    then some (c - b'a' + 26)
    else if leb b'0' c && leb c b'9'
    then some (c - b'0' + 52)
    else if c == b'-'
    then some 62
    else if c == b'_'
    then some 63
    else none

-- the groups of 6 bits
unfoldable pub sextets : Text → List ℕ
sextets [] = []
sextets (a ∷ []) = (a / 4) ∷ (a % 4 * 16) ∷ []
sextets (a ∷ b ∷ []) = (a / 4) ∷ (a % 4 * 16 + b / 16) ∷ (b % 16 * 4) ∷ []
sextets (a ∷ b ∷ c ∷ bs) =
    (a / 4) ∷ (a % 4 * 16 + b / 16) ∷ (b % 16 * 4 + c / 64) ∷ (c % 64) ∷ sextets bs

-- `EncodeToString`
unfoldable pub encode_base64 : Text → Text
encode_base64 bs = map encode_digit (sextets bs)

abbrev pub with_bytes : ℕ → ℕ → ℕ → Option Text → Option Text
with_bytes a b c none = none
with_bytes a b c (some bs) = some (a ∷ b ∷ c ∷ bs)

-- the bytes of the groups, where a single group is an error and bits that are left over are ignored
unfoldable pub bytes_of : List ℕ → Option Text
bytes_of [] = some []
bytes_of (p ∷ []) = none
bytes_of (p ∷ q ∷ []) = some ((p * 4 + q / 16) ∷ [])
bytes_of (p ∷ q ∷ r ∷ []) = some ((p * 4 + q / 16) ∷ (q % 16 * 16 + r / 4) ∷ [])
bytes_of (p ∷ q ∷ r ∷ s ∷ ds) =
    with_bytes (p * 4 + q / 16) (q % 16 * 16 + r / 4) (r % 4 * 64 + s) (bytes_of ds)

abbrev pub with_digit : Option ℕ → Option (List ℕ) → Option (List ℕ)
with_digit none ds = none
with_digit (some d) none = none
with_digit (some d) (some ds) = some (d ∷ ds)

unfoldable pub digits_of : Text → Option (List ℕ)
digits_of [] = some []
digits_of (c ∷ cs) = with_digit (decode_digit c) (digits_of cs)

abbrev pub bytes_of_digits : Option (List ℕ) → Option Text
bytes_of_digits none = none
bytes_of_digits (some ds) = bytes_of ds

-- `DecodeString`, which skips line breaks
unfoldable pub decode_base64 : Text → Option Text
decode_base64 cs = bytes_of_digits (digits_of (select (λ c. not (c == 10 || c == 13)) cs))

-- `encodeCursor`
unfoldable pub encode_cursor : (ℕ → Text) → ℕ → Text → Text
encode_cursor format at id = encode_base64 (format at ++ b'|' ∷ id)

abbrev pub with_time : Option ℕ → Text → Option (ℕ × Text)
with_time none id = none
with_time (some t) id = some (t, id)

unfoldable pub read_parts : (Text → Option ℕ) → Option (Text × Text) → Option (ℕ × Text)
read_parts parse none = none
read_parts parse (some (at, id)) = with_time (parse at) id

unfoldable pub read_raw : (Text → Option ℕ) → Option Text → Option (ℕ × Text)
read_raw parse none = none
read_raw parse (some raw) = read_parts parse (cut b'|' raw)

-- `decodeCursor`; every error is the same to its caller
unfoldable pub decode_cursor : (Text → Option ℕ) → Text → Option (ℕ × Text)
decode_cursor parse cursor = read_raw parse (decode_base64 cursor)
