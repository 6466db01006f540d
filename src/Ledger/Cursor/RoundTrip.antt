-- ===== src/Ledger/Cursor/RoundTrip.antt =====
-- What `decodeCursor` of internal/ledger/repo.go reads of what `encodeCursor` wrote.
use fault_tolerant_payment_l.Base.{
  ℕ, ◌+◌, ◌*◌, ◌/◌, ◌%◌, ◌==◌, ◌<◌, ◌≡◌, refl, ap, arith, Text, true, false, ◌||◌, not, Option,
  some, List, [], ◌∷◌, ◌++◌, map, select, All, All-append, cut-append,
}
use fault_tolerant_payment_l.Ledger.Cursor.{
  encode_digit, decode_digit, sextets, encode_base64, bytes_of, digits_of, decode_base64,
  encode_cursor, read_parts, read_raw, decode_cursor,
}

abbrev pub IsBytes : Text → Type 0
IsBytes bs = All (λ (b : ℕ). b < 256) bs

decode_digit-encode_digit : (n : ℕ) → n < 64 → decode_digit (encode_digit n) ≡ some n
unfolding decode_digit encode_digit
decode_digit-encode_digit n h = ground arith

no_break : (n : ℕ) → not (encode_digit n == 10 || encode_digit n == 13) ≡ true
unfolding encode_digit
no_break n = ground arith

select-encode_digit :
    (ds : List ℕ)
    → select (λ c. not (c == 10 || c == 13)) (map encode_digit ds) ≡ map encode_digit ds
select-encode_digit [] = refl
select-encode_digit (d ∷ ds) = rw (no_break d, select-encode_digit ds) refl

digits_of-encode_digit :
    (ds : List ℕ) → All (λ (d : ℕ). d < 64) ds → digits_of (map encode_digit ds) ≡ some ds
unfolding digits_of
digits_of-encode_digit [] h = refl
digits_of-encode_digit (d ∷ ds) h =
    rw (decode_digit-encode_digit d h.0, digits_of-encode_digit ds h.1) refl

sextets-small : (bs : Text) → IsBytes bs → All (λ (d : ℕ). d < 64) (sextets bs)
unfolding sextets
sextets-small [] h = tt
sextets-small (a ∷ []) h = (omega (arith, h.0), (omega arith, tt))
sextets-small (a ∷ b ∷ []) h = (omega (arith, h.0), (omega (arith, h.1.0), (omega arith, tt)))
sextets-small (a ∷ b ∷ c ∷ bs) h = (
  omega (arith, h.0),
  (omega (arith, h.1.0), (omega (arith, h.1.1.0), (omega arith, sextets-small bs h.1.1.1))),
)

bytes_of-sextets : (bs : Text) → IsBytes bs → bytes_of (sextets bs) ≡ some bs
unfolding bytes_of sextets
bytes_of-sextets [] h = refl
bytes_of-sextets (a ∷ []) h = ap (λ x. some (x ∷ [])) (omega (arith, h.0))
bytes_of-sextets (a ∷ b ∷ []) h =
    let x : a / 4 * 4 + (a % 4 * 16 + b / 16) / 16 ≡ a = omega (arith, h.1.0) in
    let y : (a % 4 * 16 + b / 16) % 16 * 16 + b % 16 * 4 / 4 ≡ b = omega (arith, h.1.0) in
    rw (x, y) refl
bytes_of-sextets (a ∷ b ∷ c ∷ bs) h =
    let x : a / 4 * 4 + (a % 4 * 16 + b / 16) / 16 ≡ a = omega (arith, h.1.0) in
    let y : (a % 4 * 16 + b / 16) % 16 * 16 + (b % 16 * 4 + c / 64) / 4 ≡ b =
      omega (arith, h.1.0, h.1.1.0) in
    let z : (b % 16 * 4 + c / 64) % 4 * 64 + c % 64 ≡ c = omega (arith, h.1.1.0) in
    rw (bytes_of-sextets bs h.1.1.1, x, y, z) refl

decode_base64-encode_base64 : (bs : Text) → IsBytes bs → decode_base64 (encode_base64 bs) ≡ some bs
unfolding decode_base64 encode_base64
decode_base64-encode_base64 bs h =
    rw (select-encode_digit (sextets bs), digits_of-encode_digit (sextets bs) (sextets-small bs h))
      (bytes_of-sextets bs h)

-- A cursor that was encoded is read as the time and the id that it was made of, if they are bytes, and if the text of
-- a time has no bar and is parsed as that time.
pub decode_cursor-encode_cursor :
    (format : ℕ → Text) (parse : Text → Option ℕ) (at : ℕ) (id : Text)
    → parse (format at) ≡ some at
    → IsBytes (format at)
    → All (λ (b : ℕ). (b == b'|') ≡ false) (format at)
    → IsBytes id
    → decode_cursor parse (encode_cursor format at id) ≡ some (at, id)
unfolding decode_cursor encode_cursor read_parts read_raw
decode_cursor-encode_cursor format parse at id parsed bytes no_bar id_bytes =
    rw
      (
        decode_base64-encode_base64 (format at ++ b'|' ∷ id)
            (All-append (λ b. b < 256) (format at) (b'|' ∷ id) bytes (omega arith, id_bytes)),
        cut-append b'|' (format at) id no_bar,
        parsed,
      )
      refl
