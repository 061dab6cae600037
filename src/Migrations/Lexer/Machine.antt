-- ===== src/Migrations/Lexer/Machine.antt =====
-- The state and the main loop of lexMigrationSql. Tokens and groups have their last at the head.
-- Unicode upper case, which the language gives, is the parameter `to_upper_case`.
use rehearsal_db.Common.{
  byte_length, ℕ, zero, suc, ◌+◌, Bool, true, false, not, ◌&&◌, ◌||◌, Option, none, some, List, [],
  ◌∷◌, Text, ltb, leb, ◌==◌, if◌then◌else◌, length, take, drop, any,
}
use mathlib.Core.List.{reverse}
use rehearsal_db.Migrations.Lexer.Scanners.{
  ScanUnknownReason, unsupported_sql, malformed_sql, input_limit, Reasons, add_reason, max_bytes,
  max_tokens, max_depth, apostrophe, is_ascii_digit, word_start, word_part, number_part, is_blank,
  is_newline, span, index_of, Quoted, quoted, comment_from,
}

pub data TokenKind : Type 0 where
  word identifier literal symbol : TokenKind

pub record SqlToken : Type 0 where
  pub kind : TokenKind
  pub value : Text
  pub line : ℕ
  pub column : ℕ
  pub depth : ℕ

pub record Position : Type 0 where
  pub line : ℕ
  pub column : ℕ

pub record Lexer : Type 0 where
  pub rest : Text
  pub position : Position
  pub tokens : List SqlToken
  pub groups : List ℕ
  pub reasons : Reasons
  pub ambiguous : Bool

abbrev next_line : Position → Position
next_line p = record { line = p.line + 1; column = 1 }

abbrev next_column : Position → Position
next_column p = record p { column = p.column + 1 }

-- `advance`, of the position, over the next `n` units.
unfoldable pub advance : ℕ → Text → Position → Position
advance zero s p = p
advance (suc n) [] p = advance n [] (next_column p)
advance (suc zero) (c ∷ s) p = if is_newline c then next_line p else next_column p
advance (suc (suc n)) (c ∷ []) p =
    advance (suc n) [] (if is_newline c then next_line p else next_column p)
advance (suc (suc n)) (c ∷ d ∷ s) p =
    let both = advance n s (next_line p) in
    let one = advance (suc n) (d ∷ s) (if is_newline c then next_line p else next_column p) in
    if c == 13 && d == 10 then both else one

-- What an iteration of the loop comes to: the next one, or `break`.
pub data Outcome : Type 0 where
  go : Lexer → Outcome
  stop : Lexer → Outcome

abbrev pub skip : ℕ → Lexer → Lexer
skip n l = record l { rest = drop n l.rest; position = advance n l.rest l.position }

abbrev pub because : ScanUnknownReason → Lexer → Lexer
because r l = record l { reasons = add_reason r l.reasons }

abbrev pub because_if : Bool → ScanUnknownReason → Lexer → Lexer
because_if b r l = if b then because r l else l

unfoldable pub emit : TokenKind → Text → ℕ → Lexer → Outcome
unfolding advance
emit kind value n l =
    if leb max_tokens (length l.tokens)
    then stop (because input_limit l)
    else go (
        skip n (record l {
          tokens =
              record {
                kind = kind;
                value = value;
                line = l.position.line;
                column = l.position.column;
                depth = length l.groups;
              }
              ∷ l.tokens;
        }))

abbrev pub noted : Quoted → Lexer → Lexer
noted q l = record l { reasons = q.reasons; ambiguous = q.ambiguous }

-- The branches of the loop, each over the text behind its first units.
unfoldable pub line_comment : Text → Lexer → Outcome
line_comment s l = go (skip (2 + span (λ c. not (is_newline c)) s) l)

unfoldable pub block_comment : Text → Lexer → Outcome
block_comment s l =
    let (n, nested) = comment_from 1 s 0 in
    if ltb max_depth nested
    then stop (because input_limit l)
    else go (skip (2 + n) (because_if (ltb 0 nested) malformed_sql l))

unfoldable pub escape_string : Text → Lexer → Outcome
unfolding quoted emit
escape_string s l =
    let q = quoted apostrophe true s l.reasons l.ambiguous in
    emit literal [] (2 + q.consumed) (noted q l)

unfoldable pub quoted_token : ℕ → Text → Lexer → Outcome
unfolding quoted emit
quoted_token c s l =
    let q = quoted c false s l.reasons l.ambiguous in
    emit (if c == apostrophe then literal else identifier) [] (1 + q.consumed)
      (because_if (c == b'"' && q.consumed == 1) malformed_sql (noted q l))

abbrev tag_part : ℕ → Bool
tag_part c = word_start c || is_ascii_digit c

-- The length of a tag behind `$`.
unfoldable pub tag_length : Text → ℕ
tag_length [] = 0
tag_length (c ∷ s) = if word_start c then 1 + span tag_part s else 0

abbrev pub head_is : ℕ → Text → Bool
head_is c [] = false
head_is c (d ∷ s) = d == c

-- `close`, from behind the opening delimiter.
abbrev pub dollar_closed : ℕ → Lexer → Option ℕ → Outcome
dollar_closed t l none = emit literal [] (length l.rest) (because malformed_sql l)
dollar_closed t l (some close) = emit literal [] (t + 2 + close + (t + 2)) l

-- A dollar-quoted string: `t` is the length of the tag, the delimiter has `t + 2` units.
unfoldable pub dollar_string : ℕ → Text → Lexer → Outcome
unfolding emit
dollar_string t s l = dollar_closed t l (index_of (b'$' ∷ take (t + 1) s) (drop (t + 1) s))

unfoldable pub plain_symbol : ℕ → Lexer → Outcome
unfolding emit
plain_symbol c l = emit symbol (c ∷ []) 1 (
    because_if (c == 92 || c == b'`' || ltb c 32) unsupported_sql
      (because_if (c == b';' && ltb 0 (length l.groups)) malformed_sql l))

abbrev pushed : ℕ → Outcome → Outcome
pushed c (go l) = go (record l { groups = c ∷ l.groups })
pushed c (stop l) = stop l

unfoldable pub open_group : ℕ → Lexer → Outcome
unfolding emit
open_group c l =
    if leb max_depth (length l.groups)
    then stop (because input_limit l)
    else pushed c (emit symbol (c ∷ []) 1 l)

abbrev pub opening : ℕ → ℕ
opening c = if c == b')' then b'(' else b'['

abbrev pub closing : ℕ → Lexer → List ℕ → Outcome
closing c l [] = stop (because malformed_sql l)
closing c l (g ∷ gs) =
    if g == opening c
    then emit symbol (c ∷ []) 1 (record l { groups = gs })
    else stop (because malformed_sql (record l { groups = gs }))

unfoldable pub close_group : ℕ → Lexer → Outcome
unfolding emit
close_group c l = closing c l l.groups

abbrev pub is_open : ℕ → Bool
is_open c = c == b'(' || c == b'['

abbrev pub is_close : ℕ → Bool
is_close c = c == b')' || c == b']'

pub record Lexed : Type 0 where
  pub tokens : List SqlToken
  pub unknown_reasons : Reasons
  pub ambiguous_quotes : Bool

abbrev pub close_all : Lexer → Lexer
close_all l = because_if (ltb 0 (length l.groups)) malformed_sql l

abbrev pub result : Lexer → Lexed
result l = record {
  tokens = reverse l.tokens;
  unknown_reasons = (close_all l).reasons;
  ambiguous_quotes = l.ambiguous;
}

abbrev pub beginning : Text → Lexer
beginning source = record {
  rest = source;
  position = record { line = 1; column = 1 };
  tokens = [];
  groups = [];
  reasons = if any (λ c. c == 0) source then malformed_sql ∷ [] else [];
  ambiguous = false;
}

module _ (to_upper_case : Text → Text) where
  -- From the test for a word on.
  unfoldable pub lex_rest : ℕ → Text → Lexer → Outcome
  unfolding emit open_group close_group plain_symbol
  lex_rest c s l =
      if word_start c
      then emit word (to_upper_case (c ∷ take (span word_part s) s)) (1 + span word_part s) l
      else if is_ascii_digit c
      then emit literal [] (1 + span number_part s) l
      else if is_open c
      then open_group c l
      else if is_close c
      then close_group c l
      else plain_symbol c l

  -- `character === "$"`
  unfoldable pub dollar : Text → Lexer → Outcome
  unfolding dollar_string lex_rest
  dollar s l =
      if head_is b'$' (drop (tag_length s) s)
      then dollar_string (tag_length s) s l
      else if ltb 0 (span is_ascii_digit s)
      then emit literal [] (1 + span is_ascii_digit s) l
      else lex_rest b'$' s (because unsupported_sql l)

  -- One iteration, at the unit `c` with `s` behind it.
  unfoldable pub iterate : ℕ → Text → Lexer → Outcome
  unfolding line_comment block_comment escape_string quoted_token dollar lex_rest
  iterate c s l =
      if is_blank c
      then go (skip (if c == 13 && head_is 10 s then 2 else 1) l)
      else if c == b'-' && head_is b'-' s
      then line_comment (drop 1 s) l
      else if c == b'/' && head_is b'*' s
      then block_comment (drop 1 s) l
      else if c == b'*' && head_is b'/' s || c == 0
      then stop (because malformed_sql l)
      else if (c == b'E' || c == b'e') && head_is apostrophe s
      then escape_string (drop 1 s) l
      else if c == apostrophe || c == b'"'
      then quoted_token c s l
      else if c == b'$'
      then dollar s l
      else lex_rest c s l

  abbrev pub at : Text → Lexer → Outcome
  at [] l = stop l
  at (c ∷ s) l = iterate c s l

  -- The loop, on fuel; `none` says that the fuel ran out.
  unfoldable pub run : ℕ → Lexer → Option Lexer
  unfolding iterate
  run zero l = none
  run (suc fuel) l = elim (at l.rest l) [ go next ↦ run fuel next | stop last ↦ some last ]

  -- Each iteration takes a unit, so the length of the text, and one round to end, is fuel enough.
  unfoldable pub lex_migration_sql : Text → Option Lexed
  unfolding run byte_length
  lex_migration_sql source =
      if ltb max_bytes (byte_length source)
      then some
          (record { tokens = []; unknown_reasons = input_limit ∷ []; ambiguous_quotes = false })
      else elim (run (suc (length source)) (beginning source)) [
        | none ↦ none
        | some l ↦ some (result l)
      ]
