-- ===== src/Invoice/Gross.antt =====
-- GrossSEK (internal/invoice/invoice.go) against the line that debits Kundfordringar.
use pare.Common.{
  Text, text_eq, text_eq_iff, Bool, true, false, ◌||◌, Option, none, some, List, [], ◌∷◌, ◌++◌, ◌≡◌,
  refl, sym, ◌∙◌, ap, arith, All, Option-cases, Bool-cases, inl, inr,
}
use mathlib.Core.List.{head?}
use pare.Common.Int.{ℤ, pos}
use pare.Common.Int64.{IsInt64, add, add_assoc, add_comm, add_left_comm, add_zero, add-IsInt64}
use pare.Ledger.Money.{Amount}
use pare.Ledger.Verification.{Line as LedgerLine}
use pare.Moms.{Code}
use pare.Invoice.{
  Line, Invoice, Agg, Aggs, add_line, aggregate, agg_of, gross_from, gross_sek, code_order,
  convert_to_sek, code_lines, receivable, sales_from, verification_lines, ppm_of,
}

abbrev contains : Code → List Code → Bool
contains k [] = false
contains k (c ∷ cs) = text_eq c k || contains k cs

-- A code that codeOrder lists.
abbrev pub IsKnown : Code → Type 0
IsKnown k = contains k code_order ≡ true

abbrev IsNodup : List Code → Type 0
IsNodup [] = Unit
IsNodup (c ∷ cs) = (contains c cs ≡ false) × IsNodup cs

abbrev in_sek : ℤ → Agg → Amount
in_sek ppm a = add (convert_to_sek a.net ppm) (convert_to_sek a.vat ppm)

abbrev part : ℤ → Option Agg → Amount
part ppm none = pos 0
part ppm (some a) = in_sek ppm a

-- The gross by the order of the codes, and by the entries of the map.
abbrev by_order : ℤ → List Code → Aggs → Amount
by_order ppm [] by = pos 0
by_order ppm (c ∷ cs) by = add (part ppm (agg_of c by)) (by_order ppm cs by)

abbrev by_entry : ℤ → Aggs → Amount
by_entry ppm [] = pos 0
by_entry ppm ((k, a) ∷ by) = add (in_sek ppm a) (by_entry ppm by)

by_order-IsInt64 : (ppm : ℤ) (cs : List Code) (by : Aggs) → IsInt64 (by_order ppm cs by)
by_order-IsInt64 ppm [] by = omega arith
by_order-IsInt64 ppm (c ∷ cs) by = add-IsInt64 (part ppm (agg_of c by)) (by_order ppm cs by)

zero_add : (a : ℤ) → IsInt64 a → add (pos 0) a ≡ a
zero_add a h = add_comm (pos 0) a ∙ add_zero a h

by_order_absent :
    (ppm : ℤ) (cs : List Code) (k : Code) (a : Agg) (by : Aggs)
    → contains k cs ≡ false
    → by_order ppm cs ((k, a) ∷ by) ≡ by_order ppm cs by
unfolding agg_of
by_order_absent ppm [] k a by h = refl
by_order_absent ppm (c ∷ cs) k a by h =
    ground (arith, text_eq_iff c k, text_eq_iff k c, by_order_absent ppm cs k a by)

by_order_present :
    (ppm : ℤ) (cs : List Code) (k : Code) (a : Agg) (by : Aggs)
    → IsNodup cs
    → contains k cs ≡ true
    → agg_of k by ≡ none
    → by_order ppm cs ((k, a) ∷ by) ≡ add (in_sek ppm a) (by_order ppm cs by)
unfolding agg_of
by_order_present ppm [] k a by n h e = cc
by_order_present ppm (c ∷ cs) k a by n h e = elim (Bool-cases (text_eq c k)) [
  | inl same ↦
      let eq = (text_eq_iff c k).0 same in
      ground (
        arith,
        text_eq_iff k c,
        by_order_absent ppm cs k a by,
        zero_add (by_order ppm cs by) (by_order-IsInt64 ppm cs by),
      )
  | inr other ↦ ground (
    arith,
    text_eq_iff c k,
    text_eq_iff k c,
    by_order_present ppm cs k a by,
    add_left_comm (part ppm (agg_of c by)) (in_sek ppm a) (by_order ppm cs by),
  )
]

flipped : (s t : Text) → text_eq s t ≡ false → text_eq t s ≡ false
flipped s t h = ground (arith, text_eq_iff s t, text_eq_iff t s)

-- Each code has one entry, and is known.
abbrev IsSound : Aggs → Type 0
IsSound [] = Unit
IsSound ((k, a) ∷ by) = IsKnown k × (agg_of k by ≡ none) × IsSound by

agg_of-add_line :
    (k : Code) (l : Line) (by : Aggs)
    → text_eq l.vat_code k ≡ false
    → agg_of k by ≡ none
    → agg_of k (add_line l by) ≡ none
unfolding agg_of add_line
agg_of-add_line k l [] n e = ground arith
agg_of-add_line k l ((c, a) ∷ by) n e = ground (arith, agg_of-add_line k l by)

IsSound-add_line :
    (l : Line) (by : Aggs) → IsKnown l.vat_code → IsSound by → IsSound (add_line l by)
unfolding add_line agg_of
IsSound-add_line l [] k h = (k, refl, tt)
IsSound-add_line l ((c, a) ∷ by) k h = elim (Bool-cases (text_eq c l.vat_code)) [
  | inl e ↦ rw e h
  | inr e ↦
      rw e (h.0, agg_of-add_line c l by (flipped c l.vat_code e) h.1, IsSound-add_line l by k h.2)
]

IsSound-aggregate :
    (by : Aggs) (ls : List Line)
    → All (λ l. IsKnown l.vat_code) ls
    → IsSound by
    → IsSound (aggregate by ls)
unfolding aggregate
IsSound-aggregate by [] k h = h
IsSound-aggregate by (l ∷ ls) k h =
    IsSound-aggregate (add_line l by) ls k.1 (IsSound-add_line l by k.0 h)

code_order-IsNodup : IsNodup code_order
unfolding text_eq
code_order-IsNodup = (refl, (refl, (refl, (refl, (refl, tt)))))

by_order_nil : (ppm : ℤ) (cs : List Code) → by_order ppm cs [] ≡ pos 0
unfolding agg_of
by_order_nil ppm [] = refl
by_order_nil ppm (c ∷ cs) = ap (add (pos 0)) (by_order_nil ppm cs) ∙ add_zero (pos 0) (omega arith)

by_order-by_entry :
    (ppm : ℤ) (by : Aggs) → IsSound by → by_order ppm code_order by ≡ by_entry ppm by
by_order-by_entry ppm [] h = by_order_nil ppm code_order
by_order-by_entry ppm ((k, a) ∷ by) h =
    by_order_present ppm code_order k a by code_order-IsNodup h.0 h.1
    ∙ ap (add (in_sek ppm a)) (by_order-by_entry ppm by h.2)

gross_from-by_entry :
    (ppm : ℤ) (g : Amount) (by : Aggs) → IsInt64 g → gross_from ppm g by ≡ add g (by_entry ppm by)
unfolding gross_from
gross_from-by_entry ppm g [] h = sym (add_zero g h)
gross_from-by_entry ppm g ((c, a) ∷ by) h =
    gross_from-by_entry ppm (add g (in_sek ppm a)) by (add-IsInt64 g (in_sek ppm a))
    ∙ add_assoc g (in_sek ppm a) (by_entry ppm by)

sales_from-by_order :
    (cs : List Code) (by : Aggs) (ppm : ℤ) (sales : List LedgerLine) (g : Amount)
    → IsInt64 g
    → (sales_from cs by ppm sales g).1 ≡ add g (by_order ppm cs by)
unfolding sales_from
sales_from-by_order [] by ppm sales g h = sym (add_zero g h)
sales_from-by_order (c ∷ cs) by ppm sales g h = elim (Option-cases (agg_of c by)) [
  | inl e ↦
      rw (sales_from, e)
        (sales_from-by_order cs by ppm sales g h
          ∙ ap (add g) (sym (zero_add (by_order ppm cs by) (by_order-IsInt64 ppm cs by))))
  | inr (a, e) ↦
      rw (sales_from, e)
        (sales_from-by_order cs by ppm
            (sales ++ code_lines c (convert_to_sek a.net ppm) (convert_to_sek a.vat ppm))
            (add g (in_sek ppm a)) (add-IsInt64 g (in_sek ppm a))
          ∙ add_assoc g (in_sek ppm a) (by_order ppm cs by))
]

-- For an invoice whose lines all have one of the five known VAT codes, GrossSEK is the amount that
-- the first line of the verifikat debits to account 1510.
pub gross_sek-verification_lines :
    (inv : Invoice)
    → All (λ l. IsKnown l.vat_code) inv.lines
    → head? (verification_lines inv) ≡ some (receivable (gross_sek inv))
unfolding verification_lines gross_sek
gross_sek-verification_lines inv h =
    let by = aggregate [] inv.lines in
    let ppm = ppm_of inv in
    let sound = IsSound-aggregate [] inv.lines h tt in
    ap (λ g. some (receivable g))
      (sales_from-by_order code_order by ppm [] (pos 0) (omega arith)
        ∙ ap (add (pos 0)) (by_order-by_entry ppm by sound)
        ∙ sym (gross_from-by_entry ppm (pos 0) by (omega arith)))
