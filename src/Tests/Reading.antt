-- ===== src/Tests/Reading.antt =====
-- The theorems on cursors and pages applied to an account with two entries. A time and a UUID are written in unary.
use fault_tolerant_payment_l.Base.{
  ℕ, zero, suc, ◌<◌, ◌≡◌, refl, ap, arith, pos, ◌==◌, Text, text, text_eq, false, Option, none,
  some, [], ◌∷◌, All, length, find,
}
use fault_tolerant_payment_l.Store.Schema.{Account, Entry}
use fault_tolerant_payment_l.Store.World.{World, ok}
use fault_tolerant_payment_l.Ledger.Locks.{has_account}
use fault_tolerant_payment_l.Ledger.Cursor.{encode_cursor, decode_cursor}
use fault_tolerant_payment_l.Ledger.Cursor.RoundTrip.{IsBytes, decode_cursor-encode_cursor}
use fault_tolerant_payment_l.Ledger.Reads.{history, newest_first, place}
use fault_tolerant_payment_l.Ledger.Reads.Pages.{IsCodec, pages, pages_complete}
use fault_tolerant_payment_l.Scenario.{fresh_world}

unary : ℕ → Text
unary zero = []
unary (suc n) = b'1' ∷ unary n

abbrev from_unary : Text → Option ℕ
from_unary bs = some (length bs)

-- a UUID has a mark in front
abbrev show_id : ℕ → Text
show_id n = b'u' ∷ unary n

abbrev parse_id : Text → Option ℕ
parse_id [] = none
parse_id (b ∷ bs) = some (length bs)

length-unary : (n : ℕ) → length (unary n) ≡ n
unfolding unary
length-unary zero = refl
length-unary (suc n) = ap (λ k. suc k) (length-unary n)

unary-IsBytes : (n : ℕ) → IsBytes (unary n)
unfolding unary
unary-IsBytes zero = tt
unary-IsBytes (suc n) = (omega arith, unary-IsBytes n)

no_bar-unary : (n : ℕ) → All (λ (b : ℕ). (b == b'|') ≡ false) (unary n)
unfolding unary
no_bar-unary zero = tt
no_bar-unary (suc n) = (refl, no_bar-unary n)

decode_cursor-encode_cursor_example :
    decode_cursor from_unary (encode_cursor unary 3 (show_id 2)) ≡ some (3, show_id 2)
decode_cursor-encode_cursor_example =
    decode_cursor-encode_cursor unary from_unary 3 (show_id 2) (ap (λ n. some n) (length-unary 3))
      (unary-IsBytes 3) (no_bar-unary 3) (omega arith, unary-IsBytes 2)

unary-IsCodec : IsCodec unary from_unary show_id parse_id
unary-IsCodec = record {
  parsed = λ at. ap (λ n. some n) (length-unary at);
  time_bytes = unary-IsBytes;
  no_bar = no_bar-unary;
  id_bytes = λ id. (omega arith, unary-IsBytes id);
  id_parsed = λ id. ap (λ n. some n) (length-unary id);
  id_filled = λ id. (b'u', unary id, refl);
}

abbrev alice : Account
alice = record {
  id = text "alice";
  currency = text "USD";
  kind = text "user";
  allow_overdraft = false;
  metadata = text "{}";
  created_at = 1;
}

abbrev entry : ℕ → ℕ → Entry
entry id at = record {
  id = id;
  transaction_id = 9;
  account_id = text "alice";
  amount = pos 5;
  currency = text "USD";
  seq = 0;
  created_at = at;
}

abbrev world : World
world = record (fresh_world []) {
  parse_uuid = parse_id;
  db = record (fresh_world []).db { accounts = alice ∷ []; entries = entry 1 2 ∷ entry 2 3 ∷ [] };
}

alice-found : find (has_account (text "alice")) world.db.accounts ≡ some alice
unfolding text_eq
alice-found = refl

history-short : length (history (text "alice") world.db.entries) < 3
unfolding history newest_first place text_eq
history-short = omega arith

pages_complete_example :
    pages unary from_unary show_id 3 (text "alice") (pos 1) [] world
    ≡ (ok (history (text "alice") world.db.entries), world)
pages_complete_example =
    pages_complete unary from_unary show_id 3 (text "alice") (pos 1) alice world unary-IsCodec refl
      alice-found ((refl, tt), (tt, tt)) history-short
