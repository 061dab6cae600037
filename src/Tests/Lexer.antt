-- ===== src/Tests/Lexer.antt =====
-- Runs of the lexer, with the identity for the language's upper case.
use rehearsal_db.Common.{
  byte_length, ℕ, ◌≡◌, refl, List, [], ◌∷◌, Option, none, some, Text, codes, map, text_eq, false,
}
use rehearsal_db.Migrations.Lexer.Scanners.{
  malformed_sql, index_of, span, word_start, word_part, number_part, is_blank, quoted, comment_from,
  add_reason, starts_with,
}
use rehearsal_db.Migrations.Lexer.Machine.{
  symbol, Lexed, lex_migration_sql, advance, emit, tag_length, line_comment, block_comment,
  escape_string, quoted_token, dollar_string, plain_symbol, open_group, close_group, lex_rest,
  dollar, iterate, run,
}
use rehearsal_db.Migrations.Lexer.Nesting.{IsLexed, lex_migration_sql_total}

machine : Unit {0}
unfolding lex_migration_sql run iterate lex_rest dollar close_group open_group plain_symbol
    dollar_string quoted_token escape_string block_comment line_comment emit advance tag_length
    index_of span word_start word_part number_part is_blank quoted comment_from add_reason
    byte_length starts_with text_eq
machine = tt

abbrev lex : Text → Option Lexed
lex = lex_migration_sql (λ s. s)

abbrev token_values : Option Lexed → List Text
token_values none = []
token_values (some r) = map (λ t. t.value) r.tokens

abbrev token_depths : Option Lexed → List ℕ
token_depths none = []
token_depths (some r) = map (λ t. t.depth) r.tokens

lex_tests :
    (token_values (lex (codes "DROP TABLE a; -- b"))
      ≡ codes "DROP" ∷ codes "TABLE" ∷ codes "a" ∷ codes ";" ∷ [])
    × (token_depths (lex (codes "f(a[1])")) ≡ 0 ∷ 0 ∷ 1 ∷ 1 ∷ 2 ∷ 1 ∷ 0 ∷ [])
    × (token_values (lex (codes "$q$ ( $q$ /* ( */ 'a''b' \"c\"")) ≡ [] ∷ [] ∷ [] ∷ [])
unfolding machine
lex_tests = (refl, refl, refl)

lex_unbalanced :
    lex (codes "(]")
    ≡ some (record {
      tokens = record { kind = symbol; value = codes "("; line = 1; column = 1; depth = 0 } ∷ [];
      unknown_reasons = malformed_sql ∷ [];
      ambiguous_quotes = false;
    })
unfolding machine
lex_unbalanced = refl

lex_migration_sql_total_example :
    (r : Lexed) × (lex_migration_sql (λ s. s) (codes "a(b)") ≡ some r) × IsLexed r
lex_migration_sql_total_example = lex_migration_sql_total (λ s. s) (codes "a(b)")
