-- ===== src/Bank/Csv.antt =====
-- internal/bank/csv.go: the entries of a bank's CSV export.
--
-- strings.TrimSpace, strings.ToLower, unicode.IsSpace and time.Parse are of Go's library, and so is the
-- scanner that gives the lines.
use pare.Common.{
  ℕ, suc, ◌==◌, leb, Text, bytes, Bool, true, false, not, ◌&&◌, ◌||◌, Option, none, some, List, [],
  ◌∷◌, ◌++◌, has_prefix, if◌then◌else◌, zero,
}
use pare.Bank.{Entry}
use pare.Bank.Amounts.{count, parse_amount_swedish}

pub record Texts : Type 0 where
  pub trim_space : Text → Text
  pub to_lower : Text → Text
  pub spaceless : Text → Text
  -- parseDate, which tries five layouts of time.Parse.
  pub parse_date : Text → Option ℕ

-- The columns that are found so far; none is -1.
pub record Columns : Type 0 where
  pub date_column : Option ℕ
  pub amount_column : Option ℕ
  pub text_column : Option ℕ

-- strings.Contains
unfoldable pub contains : Text → Text → Bool
contains [] w = has_prefix [] w
contains (c ∷ s) w = has_prefix (c ∷ s) w || contains s w

abbrev is_none : {A : Type 0} → Option A → Bool
is_none none = true
is_none (some a) = false

abbrev is_date_name : Text → Bool
is_date_name s =
    contains s (bytes "datum") || contains s (bytes "date") || contains s (bytes "bokf")

abbrev is_amount_name : Text → Bool
is_amount_name s =
    contains s (bytes "belopp") || contains s (bytes "amount") || contains s (bytes "summa")

abbrev is_text_name : Text → Bool
is_text_name s =
    contains s (bytes "text")
    || contains s (bytes "meddel")
    || contains s (bytes "referens")
    || contains s (bytes "mottagare")
    || contains s (bytes "avsändare")
    || contains s (bytes "description")

-- `f[i]`, where there is one.
unfoldable pub field_at : ℕ → List Text → Option Text
field_at i [] = none
field_at zero (f ∷ fs) = some f
field_at (suc i) (f ∷ fs) = field_at i fs

-- The delimiter that the header has more of.
unfoldable pub delimiter : Text → ℕ
unfolding count
delimiter header = if leb (count b',' header) (count b';' header) then b';' else b','

module _ (texts : Texts) where
  -- The loop of splitCSV, with the field so far.
  unfoldable pub split_from : ℕ → Text → Bool → Text → List Text
  split_from d cur in_quote [] = texts.trim_space cur ∷ []
  split_from d cur in_quote (c ∷ s) =
      let ends = c == d && not in_quote in
      let (cur', in_quote') =
        if c == b'"'
        then (cur, not in_quote)
        else if ends
        then ([], in_quote)
        else (cur ++ c ∷ [], in_quote) in
      let rest = split_from d cur' in_quote' s in
      if c == b'"' then rest else if ends then texts.trim_space cur ∷ rest else rest

  unfoldable pub split_csv : Text → ℕ → List Text
  unfolding split_from
  split_csv line d = split_from d [] false line

  -- The loop over the names of the columns.
  unfoldable pub find_columns : ℕ → Columns → List Text → Columns
  unfolding contains
  find_columns i cols [] = cols
  find_columns i cols (c ∷ cs) =
      let lc = texts.to_lower (texts.trim_space c) in
      let next =
        if is_none cols.date_column && is_date_name lc
        then record cols { date_column = some i }
        else if is_none cols.amount_column && is_amount_name lc
        then record cols { amount_column = some i }
        else if is_none cols.text_column && is_text_name lc
        then record cols { text_column = some i }
        else cols in
      find_columns (suc i) next cs

  abbrev text_of : Option ℕ → List Text → Text
  text_of none fs = []
  text_of (some i) fs = elim (field_at i fs) [ none ↦ [] | some t ↦ texts.trim_space t ]

  -- The body of the loop over the rows; none is a row that is skipped.
  unfoldable pub parse_row : ℕ → ℕ → Option ℕ → List Text → Option Entry
  unfolding field_at parse_amount_swedish
  parse_row di ai ti fs = elim (field_at ai fs) [
    | none ↦ none
    | some amount_cell ↦ elim (field_at di fs) [
      | none ↦ none
      | some date_cell ↦ elim (parse_amount_swedish texts.spaceless amount_cell) [
        | none ↦ none
        | some amount ↦ elim (texts.parse_date date_cell) [
          | none ↦ none
          | some date ↦
              some (record { date = date; amount_ore = amount; text = text_of ti fs; ref = [] })
        ]
      ]
    ]
  ]

  abbrev kept : Option Entry → List Entry → List Entry
  kept none es = es
  kept (some e) es = e ∷ es

  unfoldable pub parse_rows : ℕ → ℕ → ℕ → Option ℕ → List Text → List Entry
  unfolding split_csv parse_row
  parse_rows d di ai ti [] = []
  parse_rows d di ai ti (line ∷ lines) =
      kept (parse_row di ai ti (split_csv line d)) (parse_rows d di ai ti lines)

  abbrev parse_with : ℕ → Columns → List Text → List Entry
  parse_with d cols rows = elim cols.date_column [
    | none ↦ parse_rows d 0 1 (some 2) rows
    | some di ↦ elim cols.amount_column [
      | none ↦ parse_rows d 0 1 (some 2) rows
      | some ai ↦ parse_rows d di ai cols.text_column rows
    ]
  ]

  -- ParseCSV, over the lines of the file.
  unfoldable pub parse_csv : List Text → List Entry
  unfolding delimiter split_csv find_columns parse_rows
  parse_csv [] = []
  parse_csv (header ∷ rows) =
      let d = delimiter header in
      let cols =
        find_columns 0 (record { date_column = none; amount_column = none; text_column = none })
          (split_csv header d) in
      parse_with d cols rows
