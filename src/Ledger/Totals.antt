-- ===== src/Ledger/Totals.antt =====
-- Sums over entries: of one account, and of one transaction, as entries are added or sorted.
use mathlib.Core.List.{reverse, reverse-append}
use fault_tolerant_payment_l.Base.{
  ◌≡◌, refl, ◌∙◌, ap, ℤ, pos, ◌+ℤ◌, int_laws, Text, text_eq, List, [], ◌∷◌, ◌++◌, if◌then◌else◌,
}
use fault_tolerant_payment_l.Store.Schema.{Entry}
use fault_tolerant_payment_l.Ledger.Payment.{sorted_entries_by_account, sort_reversed, swap_down}

-- The sum of an account's entries.
unfoldable pub total_of : Text → List Entry → ℤ
total_of id [] = pos 0
total_of id (e ∷ es) =
    let rest = total_of id es in if text_eq e.account_id id then e.amount +ℤ rest else rest

pub total_of-append :
    (id : Text) (xs ys : List Entry) → total_of id (xs ++ ys) ≡ total_of id xs +ℤ total_of id ys
unfolding total_of
total_of-append id [] ys = omega int_laws
total_of-append id (x ∷ xs) ys = grind (int_laws, total_of-append id xs ys)

total_of-swap_down :
    (id : Text) (e : Entry) (fs : List Entry) → total_of id (swap_down e fs) ≡ total_of id (e ∷ fs)
unfolding total_of swap_down
total_of-swap_down id e [] = refl
total_of-swap_down id e (f ∷ fs) = grind (int_laws, total_of-swap_down id e fs)

total_of-sort_reversed :
    (id : Text) (sorted es : List Entry)
    → total_of id (sort_reversed sorted es) ≡ total_of id sorted +ℤ total_of id es
unfolding sort_reversed total_of
total_of-sort_reversed id sorted [] = omega int_laws
total_of-sort_reversed id sorted (e ∷ es) =
    rw (total_of-sort_reversed id (swap_down e sorted) es, total_of-swap_down id e sorted)
      (grind int_laws)

total_of-reverse : (id : Text) (es : List Entry) → total_of id (reverse es) ≡ total_of id es
unfolding total_of
total_of-reverse id [] = refl
total_of-reverse id (e ∷ es) =
    ap (total_of id) (reverse-append (e ∷ []) es)
    ∙ total_of-append id (reverse es) (e ∷ [])
    ∙ rw (total_of-reverse id es) (grind int_laws)

-- Sorting the entries changes no account's sum.
pub total_of-sorted :
    (id : Text) (es : List Entry) → total_of id (sorted_entries_by_account es) ≡ total_of id es
unfolding sorted_entries_by_account total_of
total_of-sorted id es =
    total_of-reverse id (sort_reversed [] es) ∙ total_of-sort_reversed id [] es ∙ omega int_laws
