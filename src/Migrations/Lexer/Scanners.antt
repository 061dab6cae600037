-- ===== src/Migrations/Lexer/Scanners.antt =====
-- Characters, and how far a comment, a quoted text, a word or a number reaches:
-- migration_sql_lexer.mts. Each length counts code units from the present offset.
use rehearsal_db.Common.{
  ℕ, suc, ◌+◌, ◌-◌, Bool, true, false, not, ◌&&◌, ◌||◌, Option, none, some, List, [], ◌∷◌, ◌++◌,
  Text, text_eq, ltb, leb, ◌==◌, if◌then◌else◌, any,
}

pub data ScanUnknownReason : Type 0 where
  unsupported_sql malformed_sql input_limit : ScanUnknownReason

abbrev pub same_reason : ScanUnknownReason → ScanUnknownReason → Bool
same_reason unsupported_sql unsupported_sql = true
same_reason malformed_sql malformed_sql = true
same_reason input_limit input_limit = true
same_reason _ _ = false

abbrev pub Reasons : Type 0
Reasons = List ScanUnknownReason

-- `reasons.add(reason)`: the set, in the order of insertion.
unfoldable pub add_reason : ScanUnknownReason → Reasons → Reasons
add_reason r rs = if any (same_reason r) rs then rs else rs ++ r ∷ []

abbrev pub max_bytes : ℕ
max_bytes = 2097152

abbrev pub max_tokens : ℕ
max_tokens = 20000

abbrev pub max_depth : ℕ
max_depth = 128

abbrev pub apostrophe : ℕ
apostrophe = 39

abbrev pub is_ascii_digit : ℕ → Bool
is_ascii_digit c = leb b'0' c && leb c b'9'

abbrev pub is_letter : ℕ → Bool
is_letter c = leb b'A' c && leb c b'Z' || leb b'a' c && leb c b'z'

unfoldable pub word_start : ℕ → Bool
word_start c = is_letter c || c == b'_' || leb 128 c

unfoldable pub word_part : ℕ → Bool
unfolding word_start
word_part c = word_start c || is_ascii_digit c || c == b'$'

-- `/[0-9A-Za-z_.]/u`
unfoldable pub number_part : ℕ → Bool
number_part c = is_ascii_digit c || is_letter c || c == b'_' || c == b'.'

-- `/[ \t\n\r\f\v]/u`
unfoldable pub is_blank : ℕ → Bool
is_blank c = c == 32 || leb 9 c && leb c 13

abbrev pub is_newline : ℕ → Bool
is_newline c = c == 10 || c == 13

-- The number of units at the front that pass a test.
unfoldable pub span : (ℕ → Bool) → Text → ℕ
span p [] = 0
span p (c ∷ s) = let more = span p s in if p c then suc more else 0

-- `source.startsWith(prefix, offset)`
unfoldable pub starts_with : Text → Text → Bool
starts_with [] s = true
starts_with (p ∷ ps) [] = false
starts_with (p ∷ ps) (c ∷ s) = p == c && starts_with ps s

-- `source.indexOf(needle, offset) - offset`, `none` for -1.
unfoldable pub index_of : Text → Text → Option ℕ
unfolding starts_with
index_of needle [] = if text_eq needle [] then some 0 else none
index_of needle (c ∷ s) =
    let later = index_of needle s in
    if starts_with needle (c ∷ s)
    then some 0
    else elim later [ none ↦ none | some n ↦ some (suc n) ]

pub record Quoted : Type 0 where
  pub consumed : ℕ
  pub reasons : Reasons
  pub ambiguous : Bool

abbrev note_nul : ℕ → Reasons → Reasons
note_nul c rs = if c == 0 then add_reason malformed_sql rs else rs

-- A backslash in a plain string: its meaning depends on a setting that is not read.
abbrev plain_escape : ℕ → Bool → ℕ → Bool
plain_escape quote escapes c = c == 92 && (quote == apostrophe && not escapes)

abbrev note_escape : ℕ → Bool → ℕ → Reasons → Reasons
note_escape quote escapes c rs =
    if plain_escape quote escapes c then add_reason unsupported_sql rs else rs

abbrev note_unit : ℕ → Bool → ℕ → Reasons → Reasons
note_unit quote escapes c rs = note_escape quote escapes c (note_nul c rs)

-- The loop of `quoted`; `n` units have been passed.
unfoldable pub quoted_from : ℕ → Bool → Text → ℕ → Reasons → Bool → Quoted
quoted_from quote escapes [] n rs a = record {
  consumed = n;
  reasons = add_reason malformed_sql rs;
  ambiguous = a;
}
quoted_from quote escapes (c ∷ []) n rs a =
    let rs' = note_unit quote escapes c rs in
    let a' = a || plain_escape quote escapes c in
    if c == quote && not (c == 92 && escapes)
    then record { consumed = n + 1; reasons = rs'; ambiguous = a' }
    else record { consumed = n + 1; reasons = add_reason malformed_sql rs'; ambiguous = a' }
quoted_from quote escapes (c ∷ d ∷ s) n rs a =
    let rs' = note_unit quote escapes c rs in
    let a' = a || plain_escape quote escapes c in
    let past_two = quoted_from quote escapes s (n + 2) rs' a' in
    let past_one = quoted_from quote escapes (d ∷ s) (n + 1) rs' a' in
    if c == 92 && escapes
    then past_two
    else if c == quote
    then (if d == quote
        then past_two
        else record { consumed = n + 1; reasons = rs'; ambiguous = a' })
    else past_one

-- `quoted(start, quote, escapes)`, over the text after the opening quote.
unfoldable pub quoted : ℕ → Bool → Text → Reasons → Bool → Quoted
unfolding quoted_from
quoted quote escapes s rs a = quoted_from quote escapes s 0 rs a

-- The loop over a block comment: the units passed, and the comments that are still open.
unfoldable pub comment_from : ℕ → Text → ℕ → ℕ × ℕ
comment_from nested [] n = (n, nested)
comment_from nested (c ∷ []) n = (n + 1, nested)
comment_from nested (c ∷ d ∷ s) n =
    let deeper = comment_from (suc nested) s (n + 2) in
    let shallower = comment_from (nested - 1) s (n + 2) in
    let along = comment_from nested (d ∷ s) (n + 1) in
    if c == b'/' && d == b'*'
    then (if ltb max_depth (suc nested) then (n + 2, suc nested) else deeper)
    else if c == b'*' && d == b'/'
    then (if nested == 1 then (n + 2, 0) else shallower)
    else along
