-- ===== src/Migrations/Lexer/Branches.antt =====
-- migration_sql_lexer.mts: the branches of the loop, one by one.
use rehearsal_db.Common.{
  ℕ, ◌<◌, ◌≡◌, refl, ◌∙◌, true, false, ◌&&◌, ◌||◌, Option, none, some, [], ◌∷◌, Text, ltb, ◌==◌,
  length, arith, Bool-cases, inl, inr,
}
use rehearsal_db.Migrations.Lexer.Scanners.{
  unsupported_sql, malformed_sql, input_limit, max_depth, apostrophe, is_ascii_digit, word_start,
  Quoted, quoted, comment_from,
}
use rehearsal_db.Migrations.Lexer.Machine.{
  word, identifier, literal, symbol, Lexer, because, because_if, noted, line_comment, block_comment,
  escape_string, quoted_token, dollar_string, dollar_closed, plain_symbol, close_group, is_open,
  is_close, lex_rest,
}
use rehearsal_db.Migrations.Lexer.Progress.{
  Inv, Keeps, emit-Keeps, skip-Keeps, stop-Keeps, because-Inv, because_if-Inv, because_if-rest,
  open_group-Keeps, closing-Keeps,
}

noted-Inv : (q : Quoted) (l : Lexer) → Inv l → Inv (noted q l)
noted-Inv q l i = record { nested = i.nested; few = i.few; shallow = i.shallow; depths = i.depths }

module _ (n : ℕ) (l : Lexer) (e : length l.rest ≡ n) (p : 0 < n) (i : Inv l) where
  pub line_comment-Keeps : (s : Text) → Keeps n (line_comment s l)
  unfolding line_comment
  line_comment-Keeps s = skip-Keeps _ n l e (omega arith) p i

  pub block_comment-Keeps : (s : Text) → Keeps n (block_comment s l)
  unfolding block_comment
  block_comment-Keeps s =
      let nested = (comment_from 1 s 0).1 in
      elim (Bool-cases (ltb max_depth nested)) [
        | inl deep ↦ rw deep (stop-Keeps n input_limit l i)
        | inr fine ↦ rw fine (
            skip-Keeps _ n (because_if (ltb 0 nested) malformed_sql l)
              (because_if-rest (ltb 0 nested) malformed_sql l ∙ e) (omega arith) p
              (because_if-Inv (ltb 0 nested) malformed_sql l i))
      ]

  pub escape_string-Keeps : (s : Text) → Keeps n (escape_string s l)
  unfolding escape_string
  escape_string-Keeps s =
      emit-Keeps literal [] _ n (noted (quoted apostrophe true s l.reasons l.ambiguous) l) refl refl
        e (omega arith) p (noted-Inv (quoted apostrophe true s l.reasons l.ambiguous) l i)

  pub quoted_token-Keeps : (c : ℕ) (s : Text) → Keeps n (quoted_token c s l)
  unfolding quoted_token
  quoted_token-Keeps c s =
      let q = quoted c false s l.reasons l.ambiguous in
      let empty = c == b'"' && q.consumed == 1 in
      let l' = because_if empty malformed_sql (noted q l) in
      elim (Bool-cases (c == apostrophe)) [
        | inl single ↦ rw single (
            emit-Keeps literal [] _ n l' refl refl
              (because_if-rest empty malformed_sql (noted q l) ∙ e) (omega arith) p
              (because_if-Inv empty malformed_sql _ (noted-Inv q l i)))
        | inr double ↦ rw double (
            emit-Keeps identifier [] _ n l' refl refl
              (because_if-rest empty malformed_sql (noted q l) ∙ e) (omega arith) p
              (because_if-Inv empty malformed_sql _ (noted-Inv q l i)))
      ]

  dollar_closed-Keeps : (t : ℕ) (o : Option ℕ) → Keeps n (dollar_closed t l o)
  dollar_closed-Keeps t none =
      emit-Keeps literal [] _ n (because malformed_sql l) refl refl e (omega arith) p
        (because-Inv malformed_sql l i)
  dollar_closed-Keeps t (some close) = emit-Keeps literal [] _ n l refl refl e (omega arith) p i

  pub dollar_string-Keeps : (t : ℕ) (s : Text) → Keeps n (dollar_string t s l)
  unfolding dollar_string
  dollar_string-Keeps t s = dollar_closed-Keeps t _

  pub plain_symbol-Keeps :
      (c : ℕ) → is_open c ≡ false → is_close c ≡ false → Keeps n (plain_symbol c l)
  unfolding plain_symbol
  plain_symbol-Keeps c o d =
      let inside = c == b';' && ltb 0 (length l.groups) in
      let strange = c == 92 || c == b'`' || ltb c 32 in
      let l' = because_if inside malformed_sql l in
      emit-Keeps symbol (c ∷ []) 1 n (because_if strange unsupported_sql l') o d
        (because_if-rest strange unsupported_sql l' ∙ (because_if-rest inside malformed_sql l ∙ e))
        (omega arith) p
        (because_if-Inv strange unsupported_sql l' (because_if-Inv inside malformed_sql l i))

  pub close_group-Keeps : (c : ℕ) → is_close c ≡ true → Keeps n (close_group c l)
  unfolding close_group
  close_group-Keeps c o = closing-Keeps c n l l.groups refl o e p i

  module _ (to_upper_case : Text → Text) where
    pub lex_rest-Keeps : (c : ℕ) (s : Text) → Keeps n (lex_rest to_upper_case c s l)
    unfolding lex_rest
    lex_rest-Keeps c s = elim (Bool-cases (word_start c)) [
      | inl a ↦ rw a (emit-Keeps word _ _ n l refl refl e (omega arith) p i)
      | inr a ↦ elim (Bool-cases (is_ascii_digit c)) [
        | inl b ↦ rw (a, b) (emit-Keeps literal [] _ n l refl refl e (omega arith) p i)
        | inr b ↦ elim (Bool-cases (is_open c)) [
          | inl o ↦ rw (a, b, o) (open_group-Keeps c n l o e p i)
          | inr o ↦ elim (Bool-cases (is_close c)) [
            | inl d ↦ rw (a, b, o, d) (close_group-Keeps c d)
            | inr d ↦ rw (a, b, o, d) (plain_symbol-Keeps c o d)
          ]
        ]
      ]
    ]
