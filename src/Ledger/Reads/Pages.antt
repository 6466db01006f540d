-- ===== src/Ledger/Reads/Pages.antt =====
-- The pages of `ListEntries` of internal/ledger/repo.go, one after the other.
use mathlib.Core.List.{append_assoc, append-nil}
use fault_tolerant_payment_l.Base.{
  ℕ, zero, suc, ◌+◌, ◌≤◌, ◌<◌, ◌≡◌, refl, sym, ◌∙◌, ap, subst, inl, inr, arith, ltb, ℤ, pos, negsuc,
  ◌==◌, Text, true, false, Option, none, some, List, [], ◌∷◌, ◌++◌, All, take, drop, length,
  length-append, find, select, take-append-drop, Bool-cases,
}
use fault_tolerant_payment_l.Store.Schema.{Account, Entry}
use fault_tolerant_payment_l.Store.World.{World, Exec, ok, pure, ◌>>=◌}
use fault_tolerant_payment_l.Store.Inversion.{>>=-run, >>-run, call-run, map_err-run}
use fault_tolerant_payment_l.Ledger.Locks.{has_account}
use fault_tolerant_payment_l.Ledger.Cursor.{encode_cursor, decode_cursor, encode_base64, sextets}
use fault_tolerant_payment_l.Ledger.Cursor.RoundTrip.{IsBytes, decode_cursor-encode_cursor}
use fault_tolerant_payment_l.Ledger.Reads.{
  get_account, is_older, history, page_size, last_of, next_cursor, page_of, rows_before, rows_from,
  limited, read_cursor, cursor_of, list_entries,
}
use fault_tolerant_payment_l.Ledger.Reads.Order.{
  Descending, DistinctEntries, history-Descending, select-is_older,
}

-- What the codecs are relied on for: times and UUIDs are read as they were written, and the text of a time is bytes
-- without a bar.
pub record IsCodec (format : ℕ → Text) (parse : Text → Option ℕ) (show : ℕ → Text)
    (parse_uuid : Text → Option ℕ) : Type 0 where
  pub parsed : (at : ℕ) → parse (format at) ≡ some at
  pub time_bytes : (at : ℕ) → IsBytes (format at)
  pub no_bar : (at : ℕ) → All (λ (b : ℕ). (b == b'|') ≡ false) (format at)
  pub id_bytes : (id : ℕ) → IsBytes (show id)
  pub id_parsed : (id : ℕ) → parse_uuid (show id) ≡ some id
  pub id_filled : (id : ℕ) → (b : ℕ) × (bs : Text) × (show id ≡ b ∷ bs)

page_size-positive : (z : ℤ) → 1 ≤ page_size z
unfolding page_size
page_size-positive (pos n) = ground arith
page_size-positive (negsuc n) = omega arith

encode_base64-filled :
    (b : ℕ) (bs : Text) → (c : ℕ) × (cs : Text) × (encode_base64 (b ∷ bs) ≡ c ∷ cs)
unfolding encode_base64 sextets
encode_base64-filled b [] = (_, _, refl)
encode_base64-filled b (x ∷ []) = (_, _, refl)
encode_base64-filled b (x ∷ y ∷ ys) = (_, _, refl)

encode_cursor-filled :
    (format : ℕ → Text) (at : ℕ) (id : Text)
    → (c : ℕ) × (cs : Text) × (encode_cursor format at id ≡ c ∷ cs)
unfolding encode_cursor
encode_cursor-filled format at id = joined (format at)
  where
    joined : (xs : Text) → (c : ℕ) × (cs : Text) × (encode_base64 (xs ++ b'|' ∷ id) ≡ c ∷ cs)
    joined [] = encode_base64-filled b'|' id
    joined (x ∷ xs) = encode_base64-filled x (xs ++ b'|' ∷ id)

module _ (format : ℕ → Text) (parse : Text → Option ℕ) (show : ℕ → Text) where
  follow : (Text → Exec (List Entry)) → Text → Exec (List Entry)
  follow more [] = pure []
  follow more (b ∷ bs) = more (b ∷ bs)

  -- the entries of at most so many pages, from a cursor on, as a client that follows the cursors sees them
  unfoldable pub pages : ℕ → Text → ℤ → Text → Exec (List Entry)
  unfolding follow
  pages zero id limit cursor = pure []
  pages (suc fuel) id limit cursor = do
    page ← list_entries format parse show id limit cursor
    others ← follow (pages fuel id limit) page.next_cursor
    pure (page.entries ++ others)

  get_account-run :
      (id : Text) (a : Account) (w : World)
      → w.calls ≡ []
      → find (has_account id) w.db.accounts ≡ some a
      → get_account id w ≡ (ok a, w)
  unfolding get_account
  get_account-run id a w calm there = map_err-run _ _ w (call-run _ w calm ∙ rw there refl)

  list_entries-run :
      (id : Text) (limit : ℤ) (cursor : Text) (from : Option (ℕ × Text)) (rows : List Entry)
      (a : Account) (w : World)
      → w.calls ≡ []
      → find (has_account id) w.db.accounts ≡ some a
      → cursor_of format parse show cursor w ≡ (ok from, w)
      → rows_from format parse show w.parse_uuid from (history id w.db.entries) ≡ ok rows
      → list_entries format parse show id limit cursor w
        ≡ (ok (page_of format parse show (page_size limit) (take (suc (page_size limit)) rows)), w)
  unfolding list_entries limited pure
  list_entries-run id limit cursor from rows a w calm there read found =
      >>-run (get_account id) _ w (get_account-run id a w calm there)
      ∙ >>=-run (cursor_of format parse show cursor) _ w read
      ∙ >>=-run _ _ w (map_err-run _ _ w (call-run _ w calm ∙ rw found refl))

take-take : {A : Type 0} (n : ℕ) (xs : List A) → take n (take (suc n) xs) ≡ take n xs
take-take zero xs = refl
take-take (suc n) [] = refl
take-take (suc n) (x ∷ xs) = ap (λ ys. x ∷ ys) (take-take n xs)

is_longer :
    {A : Type 0} (n : ℕ) (xs : List A) → ltb n (length (take (suc n) xs)) ≡ ltb n (length xs)
is_longer zero [] = refl
is_longer zero (x ∷ xs) = ground arith
is_longer (suc n) [] = refl
is_longer (suc n) (x ∷ xs) = ground (arith, is_longer n xs)

take_whole : {A : Type 0} (n : ℕ) (xs : List A) → ltb n (length xs) ≡ false → take n xs ≡ xs
take_whole zero [] h = refl
take_whole zero (x ∷ xs) h = ground arith
take_whole (suc n) [] h = refl
take_whole (suc n) (x ∷ xs) h = ap (λ ys. x ∷ ys) (take_whole n xs (ground arith))

-- a page that is not the last has an entry
take-chunk :
    {A : Type 0} (n : ℕ) (xs : List A)
    → 1 ≤ n
    → ltb n (length xs) ≡ true
    → (y : A) × (ys : List A) × (take n xs ≡ y ∷ ys)
take-chunk zero xs h k = absurd (omega arith)
take-chunk (suc n) [] h k = ground arith
take-chunk (suc n) (x ∷ xs) h k = (x, take n xs, refl)

module _ (format : ℕ → Text) (parse : Text → Option ℕ) (show : ℕ → Text) (id : Text) (limit : ℤ)
    (a : Account) (w : World) (codec : IsCodec format parse show w.parse_uuid) (calm : w.calls ≡ [])
    (there : find (has_account id) w.db.accounts ≡ some a)
    (distinct : DistinctEntries w.db.entries) where
  cursor_at : Entry → Text
  cursor_at e = encode_cursor format e.created_at (show e.id)

  cursor_of-run :
      (e : Entry)
      → cursor_of format parse show (cursor_at e) w ≡ (ok (some (e.created_at, show e.id)), w)
  unfolding cursor_of read_cursor pure cursor_at
  cursor_of-run e =
      let (c, cs, filled) = encode_cursor-filled format e.created_at (show e.id) in
      let read : decode_cursor parse (c ∷ cs) ≡ some (e.created_at, show e.id) =
        subst (λ x. decode_cursor parse x ≡ some (e.created_at, show e.id)) filled
          (decode_cursor-encode_cursor format parse e.created_at (show e.id)
            (codec.parsed e.created_at) (codec.time_bytes e.created_at) (codec.no_bar e.created_at)
            (codec.id_bytes e.id)) in
      rw (filled, read) refl

  rows_from-run :
      (e : Entry) (es : List Entry)
      → rows_from format parse show w.parse_uuid (some (e.created_at, show e.id)) es
        ≡ ok (select (is_older e.created_at e.id) es)
  unfolding rows_from rows_before
  rows_from-run e es =
      let (b, bs, filled) = codec.id_filled e.id in
      let read : w.parse_uuid (b ∷ bs) ≡ some e.id =
        subst (λ x. w.parse_uuid x ≡ some e.id) filled (codec.id_parsed e.id) in
      rw (filled, read) refl

  page_of-last :
      (n : ℕ) (rows : List Entry)
      → ltb n (length rows) ≡ false
      → page_of format parse show n (take (suc n) rows)
        ≡ record { entries = rows; next_cursor = [] }
  unfolding page_of next_cursor
  page_of-last n rows whole =
      rw (is_longer n rows, whole, take-take n rows, take_whole n rows whole) refl

  page_of-more :
      (n : ℕ) (rows : List Entry) (y : Entry) (ys : List Entry)
      → ltb n (length rows) ≡ true
      → take n rows ≡ y ∷ ys
      → page_of format parse show n (take (suc n) rows)
        ≡ record { entries = y ∷ ys; next_cursor = cursor_at (last_of y ys) }
  unfolding page_of next_cursor cursor_at
  page_of-more n rows y ys longer chunk =
      rw (is_longer n rows, longer, take-take n rows, chunk) refl

  follow-run :
      (more : Text → Exec (List Entry)) (e : Entry)
      → follow format parse show more (cursor_at e) ≡ more (cursor_at e)
  unfolding follow cursor_at
  follow-run more e =
      let (c, cs, filled) = encode_cursor-filled format e.created_at (show e.id) in rw filled refl

  -- A page and what follows it, if the pages that follow are those of the rest.
  page-run :
      (fuel : ℕ) (cursor : Text) (from : Option (ℕ × Text)) (rows : List Entry)
      → cursor_of format parse show cursor w ≡ (ok from, w)
      → rows_from format parse show w.parse_uuid from (history id w.db.entries) ≡ ok rows
      → ((y : Entry) (ys rest : List Entry)
          → rows ≡ (y ∷ ys) ++ rest
          → pages format parse show fuel id limit (cursor_at (last_of y ys)) w ≡ (ok rest, w))
      → pages format parse show (suc fuel) id limit cursor w ≡ (ok rows, w)
  unfolding pages follow pure
  page-run fuel cursor from rows read found rest =
      let n = page_size limit in
      let first =
        list_entries-run format parse show id limit cursor from rows a w calm there read found in
      elim (Bool-cases (ltb n (length rows))) [
        | inr whole ↦
            >>=-run (list_entries format parse show id limit cursor) _ w
              (first ∙ ap (λ p. (ok p, w)) (page_of-last n rows whole))
            ∙ >>=-run (pure []) _ w refl
            ∙ ap (λ es. (ok es, w)) (append-nil rows)
        | inl longer ↦
            (let (y, ys, chunk) = take-chunk n rows (page_size-positive limit) longer in
              let others : rows ≡ (y ∷ ys) ++ drop n rows =
                sym (take-append-drop n rows) ∙ ap (λ es. es ++ drop n rows) chunk in
              >>=-run (list_entries format parse show id limit cursor) _ w
                (first ∙ ap (λ p. (ok p, w)) (page_of-more n rows y ys longer chunk))
              ∙ >>=-run
                  (follow format parse show (pages format parse show fuel id limit)
                    (cursor_at (last_of y ys)))
                  _ w
                  (ap (λ m. m w) (follow-run (pages format parse show fuel id limit) (last_of y ys))
                    ∙ rest y ys (drop n rows) others)
              ∙ ap (λ es. (ok es, w)) (sym others))
      ]

  shorter :
      (fuel : ℕ) (y : Entry) (ys rest rows : List Entry)
      → length rows < suc fuel
      → rows ≡ (y ∷ ys) ++ rest
      → length rest < fuel
  shorter fuel y ys rest rows h e =
      let k : length rows ≡ suc (length ys) + length rest =
        ap length e ∙ length-append (y ∷ ys) rest in
      omega arith

  -- The pages from the cursor of an entry on.
  pages_after :
      (fuel : ℕ) (before : List Entry) (x : Entry) (xs rest : List Entry)
      → history id w.db.entries ≡ before ++ ((x ∷ xs) ++ rest)
      → length rest < fuel
      → pages format parse show fuel id limit (cursor_at (last_of x xs)) w ≡ (ok rest, w)
  pages_after zero before x xs rest e h = absurd (omega arith)
  pages_after (suc fuel) before x xs rest e h =
      let ordered : Descending (before ++ ((x ∷ xs) ++ rest)) =
        subst Descending e (history-Descending id w.db.entries distinct) in
      let last = last_of x xs in
      page-run fuel (cursor_at last) (some (last.created_at, show last.id)) rest
        (cursor_of-run last)
        (rows_from-run last (history id w.db.entries)
          ∙ ap (λ es. ok (select (is_older last.created_at last.id) es)) e
          ∙ ap ok (select-is_older before x xs rest ordered))
        λ y ys others split.
          pages_after fuel (before ++ (x ∷ xs)) y ys others
            (e
              ∙ ap (λ es. before ++ ((x ∷ xs) ++ es)) split
              ∙ sym (append_assoc before (x ∷ xs) ((y ∷ ys) ++ others)))
            (shorter fuel y ys others rest h split)

-- If calls work and the account exists, following the cursors from the first page lists every entry of the account once,
-- newest first, and writes nothing, for any limit and more pages than entries; the ids of entries are distinct, and the
-- codecs of times and UUIDs are as relied on.
pub pages_complete :
    (format : ℕ → Text) (parse : Text → Option ℕ) (show : ℕ → Text) (fuel : ℕ) (id : Text)
    (limit : ℤ) (a : Account) (w : World)
    → IsCodec format parse show w.parse_uuid
    → w.calls ≡ []
    → find (has_account id) w.db.accounts ≡ some a
    → DistinctEntries w.db.entries
    → length (history id w.db.entries) < fuel
    → pages format parse show fuel id limit [] w ≡ (ok (history id w.db.entries), w)
unfolding cursor_of rows_from pure
pages_complete format parse show zero id limit a w codec calm there distinct h =
    absurd (omega arith)
pages_complete format parse show (suc fuel) id limit a w codec calm there distinct h =
    let hist = history id w.db.entries in
    page-run format parse show id limit a w codec calm there distinct fuel [] none hist refl refl
      λ y ys others split.
        pages_after format parse show id limit a w codec calm there distinct fuel [] y ys others
          split
          (shorter format parse show id limit a w codec calm there distinct fuel y ys others hist h
            split)
