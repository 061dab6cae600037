-- ===== src/Migrations/Lexer/Termination.antt =====
-- migration_sql_lexer.mts: the iterations of the loop of lexMigrationSql, and its end.
use rehearsal_db.Common.{
  ℕ, zero, suc, ◌+◌, ◌<◌, ◌≤◌, ◌≡◌, refl, ap, ◌∙◌, Bool, true, false, ◌&&◌, ◌||◌, some, [], ◌∷◌,
  Text, ltb, ◌==◌, if◌then◌else◌, length, drop, All, arith, Bool-cases, ◌⊎◌, inl, inr, subst,
}
use rehearsal_db.Migrations.Lexer.Scanners.{
  unsupported_sql, malformed_sql, max_tokens, apostrophe, is_ascii_digit, is_blank, span,
}
use rehearsal_db.Migrations.Lexer.Machine.{
  literal, Lexer, Outcome, go, stop, because, emit, tag_length, dollar_string, lex_rest, dollar,
  iterate, at, run, head_is,
}
use rehearsal_db.Migrations.Lexer.Progress.{
  nesting, IsShallow, Inv, Keeps, emit-Keeps, skip-Keeps, stop-Keeps, because-Inv,
}
use rehearsal_db.Migrations.Lexer.Branches.{
  line_comment-Keeps, block_comment-Keeps, escape_string-Keeps, quoted_token-Keeps,
  dollar_string-Keeps, lex_rest-Keeps,
}

-- What holds at the end: a reason was given, or everything was read and the groups are those
-- that the tokens leave open.
pub record IsFinal (l : Lexer) : Type 0 where
  pub outcome : (0 < length l.reasons) ⊎ ((l.rest ≡ []) × (nesting l.tokens ≡ some l.groups))
  pub few : length l.tokens ≤ max_tokens
  pub depths : All IsShallow l.tokens

module _ (to_upper_case : Text → Text) where
  dollar-Keeps :
      (n : ℕ) (l : Lexer) (s : Text)
      → length l.rest ≡ n
      → 0 < n
      → Inv l
      → Keeps n (dollar to_upper_case s l)
  unfolding dollar
  dollar-Keeps n l s e p i = by_tag _ refl
    where
      by_number :
          (b : Bool)
          → Keeps n (
              if b
              then emit literal [] (1 + span is_ascii_digit s) l
              else lex_rest to_upper_case b'$' s (because unsupported_sql l))
      by_number true = emit-Keeps literal [] _ n l refl refl e (omega arith) p i
      by_number false =
          lex_rest-Keeps n (because unsupported_sql l) e p (because-Inv unsupported_sql l i)
            to_upper_case b'$' s

      by_tag :
          (b : Bool)
          → head_is b'$' (drop (tag_length s) s) ≡ b
          → Keeps n (
              if b
              then dollar_string (tag_length s) s l
              else if ltb 0 (span is_ascii_digit s)
              then emit literal [] (1 + span is_ascii_digit s) l
              else lex_rest to_upper_case b'$' s (because unsupported_sql l))
      by_tag true h = dollar_string-Keeps n l e p i (tag_length s) s
      by_tag false h = by_number (ltb 0 (span is_ascii_digit s))

  blank_length : (b : Bool) → 0 < (if b then 2 else 1)
  blank_length true = omega arith
  blank_length false = omega arith

  pub iterate-Keeps :
      (n : ℕ) (l : Lexer) (c : ℕ) (s : Text)
      → length l.rest ≡ n
      → 0 < n
      → Inv l
      → Keeps n (iterate to_upper_case c s l)
  unfolding iterate
  iterate-Keeps n l c s e p i = elim (Bool-cases (is_blank c)) [
    | inl x1 ↦ rw x1 (skip-Keeps _ n l e (blank_length (c == 13 && head_is 10 s)) p i)
    | inr x1 ↦ elim (Bool-cases (c == b'-' && head_is b'-' s)) [
      | inl x2 ↦ rw (x1, x2) (line_comment-Keeps n l e p i (drop 1 s))
      | inr x2 ↦ elim (Bool-cases (c == b'/' && head_is b'*' s)) [
        | inl x3 ↦ rw (x1, x2, x3) (block_comment-Keeps n l e p i (drop 1 s))
        | inr x3 ↦ elim (Bool-cases (c == b'*' && head_is b'/' s || c == 0)) [
          | inl x4 ↦ rw (x1, x2, x3, x4) (stop-Keeps n malformed_sql l i)
          | inr x4 ↦ elim (Bool-cases ((c == b'E' || c == b'e') && head_is apostrophe s)) [
            | inl x5 ↦ rw (x1, x2, x3, x4, x5) (escape_string-Keeps n l e p i (drop 1 s))
            | inr x5 ↦ elim (Bool-cases (c == apostrophe || c == b'"')) [
              | inl x6 ↦ rw (x1, x2, x3, x4, x5, x6) (quoted_token-Keeps n l e p i c s)
              | inr x6 ↦ elim (Bool-cases (c == b'$')) [
                | inl x7 ↦ rw (x1, x2, x3, x4, x5, x6, x7) (dollar-Keeps n l s e p i)
                | inr x7 ↦
                    rw (x1, x2, x3, x4, x5, x6, x7) (lex_rest-Keeps n l e p i to_upper_case c s)
              ]
            ]
          ]
        ]
      ]
    ]
  ]

  at-Keeps :
      (l : Lexer) (s : Text)
      → l.rest ≡ s
      → Inv l
      → (o : Outcome) → at to_upper_case s l ≡ o
      → ((last : Lexer) → o ≡ stop last → IsFinal last)
        × ((next : Lexer) → o ≡ go next → Inv next × (length next.rest < length l.rest))
  at-Keeps l [] e i o h = (
    (λ last q.
        let same : l ≡ last = cc in
        rw (← same) (record { outcome = inr (e, i.nested); few = i.few; depths = i.depths })),
    (λ next q. cc),
  )
  at-Keeps l (c ∷ s) e i o h =
      let k = iterate-Keeps (length l.rest) l c s refl (omega (arith, ap length e)) i in
      (
        (λ last q.
            let (r, f, d) = subst (Keeps (length l.rest)) (h ∙ q) k in
            record { outcome = inl r; few = f; depths = d }),
        (λ next q. subst (Keeps (length l.rest)) (h ∙ q) k),
      )

  run_lem :
      (fuel : ℕ) (l : Lexer) (o : Outcome)
      → at to_upper_case l.rest l ≡ o
      → run to_upper_case (suc fuel) l
        ≡ elim o [ go next ↦ run to_upper_case fuel next | stop last ↦ some last ]
  unfolding run
  run_lem fuel l o e =
      ap (λ (x : Outcome). elim x [ go next ↦ run to_upper_case fuel next | stop last ↦ some last ])
        e

  -- With more fuel than units are left the loop ends.
  pub run_total :
      (fuel : ℕ) (l : Lexer)
      → length l.rest < fuel
      → Inv l
      → (r : Lexer) × (run to_upper_case fuel l ≡ some r) × IsFinal r
  run_total zero l h i = absurd (omega arith)
  run_total (suc fuel) l h i =
      by_outcome (at to_upper_case l.rest l) refl (at-Keeps l l.rest refl i _ refl)
        (λ next k v. run_total fuel next k v)
    where
      by_outcome :
          (o : Outcome)
          → at to_upper_case l.rest l ≡ o
          → ((last : Lexer) → at to_upper_case l.rest l ≡ stop last → IsFinal last)
            × ((next : Lexer)
                → at to_upper_case l.rest l ≡ go next
                → Inv next × (length next.rest < length l.rest))
          → ((next : Lexer)
              → length next.rest < fuel
              → Inv next
              → (r : Lexer) × (run to_upper_case fuel next ≡ some r) × IsFinal r)
          → (r : Lexer) × (run to_upper_case (suc fuel) l ≡ some r) × IsFinal r
      by_outcome (go next) e (_, k) more =
          let (v, shorter) = k next e in
          let (r, er, f) = more next (omega arith) v in (r, run_lem fuel l (go next) e ∙ er, f)
      by_outcome (stop last) e (k, _) more = (last, run_lem fuel l (stop last) e, k last e)
