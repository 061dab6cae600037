-- ===== src/Shaping/Keys.antt =====
-- src/source/shaping/shape_keys.mts: the composite keys of rows. A number is given by its spelling,
-- String(value), and by what the tests on its magnitude come to; an array by its length, a plain
-- object by the number of its keys, a date by its time if it is one; JSON.stringify is a parameter.
use rehearsal_db.Migrations.Lexer.Scanners.{span}
use rehearsal_db.Common.{
  ℕ, zero, suc, ◌+◌, ◌-◌, ◌*◌, Bool, true, false, not, ◌&&◌, Option, none, some, List, [], ◌∷◌,
  ◌++◌, Result, ok, err, ◌>>=◌, ◌>>◌, guard, Text, codes, text_eq, length, take, drop, ltb, leb,
  ◌==◌, if◌then◌else◌, any, all, is_digit, byte_length,
}

pub data ShapeError : Type 0 where
  missing_column unsafe_number incompatible_value not_canonical not_primitive : ShapeError
  capacity undeclared_table index_bytes duplicate_key relationship_cells orphan : ShapeError
  depth_exceeded row_budget required_absent fan_out edge_budget type_error short_key : ShapeError
  not_canonical_field not_lossless unzoned_timestamp invalid_timestamp not_text not_array :
      ShapeError
  unmeasured_fan_out missing_field unknown_category not_an_empty_class not_boolean : ShapeError
  unmeasured_extremum profile_cells missing_edge_field undeclared_fan_out no_component : ShapeError

pub data Value : Type 0 where
  null : Value
  string : Text → Value
  number : (finite safe : Bool) (spelling : Text) → Value
  boolean : Bool → Value
  array : (length : ℕ) → Value
  plain_object : (keys : ℕ) → Value
  date : (time : Option Text) → Value
  object : Value

pub data Format : Type 0 where
  exact numeric : Format

pub data KeyPart : Type 0 where
  plain : Value → KeyPart
  decimal : Text → KeyPart

abbrev pub Row : Type 0
Row = List (Text × Value)

-- The groups of the pattern; the fraction is empty where it is missing.
pub record Decimal : Type 0 where
  pub negative : Bool
  pub whole : Text
  pub fraction : Text
  pub exponent : Option (Bool × ℕ)

abbrev pub digits_at : Text → ℕ
digits_at s = span is_digit s

abbrev pub is_whole : Text → Bool
is_whole [] = false
is_whole (c ∷ []) = true
is_whole (c ∷ d ∷ s) = not (c == b'0')

-- The value of a run of digits behind another.
unfoldable pub digits_value : ℕ → Text → ℕ
unfolding is_digit
digits_value n [] = n
digits_value n (c ∷ s) = digits_value (n * 10 + (c - b'0')) s

-- `[+-]?\d+`, to the end.
abbrev pub signed : Bool → Text → Option (Bool × ℕ)
signed negative s =
    if ltb 0 (length s) && all is_digit s then some (negative, digits_value 0 s) else none

abbrev pub exponent_of : Text → Option (Bool × ℕ)
exponent_of [] = none
exponent_of (c ∷ s) =
    if c == b'-' then signed true s else if c == b'+' then signed false s else signed false (c ∷ s)

abbrev pub with_exponent : Bool → Text → Text → Text → Option Decimal
with_exponent negative whole fraction [] =
    some (record { negative = negative; whole = whole; fraction = fraction; exponent = none })
with_exponent negative whole fraction (c ∷ s) =
    if c == b'e'
    then elim (exponent_of s) [
      | none ↦ none
      | some e ↦
          some
            (record { negative = negative; whole = whole; fraction = fraction; exponent = some e })
    ]
    else none

abbrev pub with_fraction : Bool → Text → Text → Option Decimal
with_fraction negative whole [] = with_exponent negative whole [] []
with_fraction negative whole (c ∷ s) =
    if c == b'.'
    then (if ltb 0 (digits_at s)
        then with_exponent negative whole (take (digits_at s) s) (drop (digits_at s) s)
        else none)
    else with_exponent negative whole [] (c ∷ s)

abbrev pub unsigned : Bool → Text → Option Decimal
unsigned negative s =
    if is_whole (take (digits_at s) s)
    then with_fraction negative (take (digits_at s) s) (drop (digits_at s) s)
    else none

-- `/^(-?)(0|[1-9]\d*)(?:\.(\d+))?(?:e([+-]?\d+))?$/u`
unfoldable pub parse_decimal : Text → Option Decimal
unfolding digits_value
parse_decimal [] = none
parse_decimal (c ∷ s) = if c == b'-' then unsigned true s else unsigned false (c ∷ s)

abbrev pub zeros : ℕ → Text
zeros zero = []
zeros (suc n) = b'0' ∷ zeros n

-- `expanded`, for a point of at least 1.
abbrev pub point_in : Text → ℕ → Text
point_in digits point =
    if leb (length digits) point
    then digits ++ zeros (point - length digits)
    else take point digits ++ b'.' ∷ drop point digits

abbrev pub expanded : Text → Text → Option (Bool × ℕ) → Text
expanded whole fraction none = point_in (whole ++ fraction) (length whole)
expanded whole fraction (some (false, n)) = point_in (whole ++ fraction) (length whole + n)
expanded whole fraction (some (true, n)) =
    if ltb n (length whole)
    then point_in (whole ++ fraction) (length whole - n)
    else b'0' ∷ b'.' ∷ (zeros (n - length whole) ++ whole ++ fraction)

-- A text without the units at its end that equal `c`.
unfoldable pub strip_end : ℕ → Text → Text
strip_end c [] = []
strip_end c (d ∷ s) =
    let rest = strip_end c s in if d == c && length rest == 0 then [] else d ∷ rest

-- `replace(/\.$/u, "")`
unfoldable pub strip_point : Text → Text
strip_point [] = []
strip_point (c ∷ []) = if c == b'.' then [] else c ∷ []
strip_point (c ∷ d ∷ s) = c ∷ strip_point (d ∷ s)

abbrev pub normalized : Text → Text
normalized s = if any (λ c. c == b'.') s then strip_point (strip_end b'0' s) else s

unfoldable pub canonical_decimal : Decimal → Text
unfolding strip_end strip_point
canonical_decimal d =
    let n = normalized (expanded d.whole d.fraction d.exponent) in
    if d.negative && not (text_eq n (codes "0")) then b'-' ∷ n else n

abbrev pub is_plain : Option (Bool × ℕ) → Bool
is_plain none = true
is_plain (some e) = false

-- The tests on the match and the spelling.
abbrev pub checked_decimal : Bool → Text → Option Decimal → Result ShapeError Text
checked_decimal is_string spelling none = err not_canonical
checked_decimal is_string spelling (some d) = do
  guard (leb (length spelling) 1024 && not (is_string && not (is_plain d.exponent))) not_canonical
  ok (canonical_decimal d)

unfoldable pub canonical_numeric_key : Value → Result ShapeError Text
unfolding parse_decimal canonical_decimal
canonical_numeric_key (number finite safe spelling) = do
  guard (finite && safe) unsafe_number
  checked_decimal false spelling (parse_decimal spelling)
canonical_numeric_key (string s) = checked_decimal true s (parse_decimal s)
canonical_numeric_key _ = err incompatible_value

abbrev pub exact_part : Value → Result ShapeError KeyPart
exact_part (string s) = do
  guard (ltb 0 (length s) && leb (byte_length s) 1024) not_primitive
  ok (plain (string s))
exact_part (number finite safe spelling) = do
  guard finite not_primitive
  ok (plain (number finite safe spelling))
exact_part (boolean b) = ok (plain (boolean b))
exact_part _ = err not_primitive

abbrev pub is_null : Value → Bool
is_null null = true
is_null _ = false

abbrev pub by_format : Format → Value → Result ShapeError KeyPart
by_format exact v = exact_part v
by_format numeric v = canonical_numeric_key v >>= (λ t. ok (decimal t))

-- A value of the tuple, `none` for null.
abbrev pub key_part : Bool → Format → Value → Result ShapeError (Option KeyPart)
key_part nullable f v =
    if is_null v && nullable then ok none else (by_format f v >>= (λ p. ok (some p)))

-- `row[column]`, if the row has it.
unfoldable pub column_value : Text → Row → Option Value
column_value c [] = none
column_value c ((d, v) ∷ r) = if text_eq d c then some v else column_value c r

abbrev pub present : Bool → Format → Option Value → Result ShapeError (Option KeyPart)
present nullable f none = err missing_column
present nullable f (some v) = key_part nullable f v

-- `formats[index]`, at the head, and those behind it.
abbrev pub first_format : List Format → Format
first_format [] = exact
first_format (f ∷ fs) = f

unfoldable pub key_parts :
    Row → List Text → Bool → List Format → Result ShapeError (List (Option KeyPart))
unfolding column_value canonical_numeric_key
key_parts row [] nullable fs = ok []
key_parts row (c ∷ cs) nullable fs = do
  p ← present nullable (first_format fs) (column_value c row)
  ps ← key_parts row cs nullable (drop 1 fs)
  ok (p ∷ ps)

-- All of the values, unless one is null.
unfoldable pub whole_key : List (Option KeyPart) → Option (List KeyPart)
whole_key [] = some []
whole_key (none ∷ ps) = none
whole_key (some p ∷ ps) = elim (whole_key ps) [ none ↦ none | some qs ↦ some (p ∷ qs) ]

module _ (stringify : List KeyPart → Text) where
  abbrev pub spelled : Option (List KeyPart) → Option Text
  spelled none = none
  spelled (some ps) = some (stringify ps)

  unfoldable pub shape_key_tuple :
      Row → List Text → Bool → List Format → Result ShapeError (Option Text)
  unfolding key_parts whole_key
  shape_key_tuple row columns nullable formats = do
    ps ← key_parts row columns nullable formats
    ok (spelled (whole_key ps))
