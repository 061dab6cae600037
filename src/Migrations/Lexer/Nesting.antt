-- ===== src/Migrations/Lexer/Nesting.antt =====
-- migration_sql_lexer.mts, lexMigrationSql: the whole run, with the limits and the open brackets.
use rehearsal_db.Common.{
  byte_length, ℕ, suc, ◌<◌, ◌≤◌, ◌≡◌, refl, sym, ap, ◌∙◌, false, Option, some, List, [], ◌∷◌, ◌++◌,
  Text, ltb, length, All, arith, Bool-cases, ◌⊎◌, inl, inr, subst, lt→ltb,
}
use mathlib.Core.List.{reverse, reverse-cons}
use rehearsal_db.Migrations.Lexer.Scanners.{malformed_sql, input_limit, add_reason, max_bytes}
use rehearsal_db.Migrations.Lexer.Machine.{
  SqlToken, Lexer, Lexed, beginning, lex_migration_sql, close_all, result,
}
use rehearsal_db.Migrations.Lexer.Progress.{bind_nest, nesting, IsShallow, Inv, add_reason_pos}
use rehearsal_db.Migrations.Lexer.Termination.{IsFinal, run_total}

beginning-Inv : (source : Text) → Inv (beginning source)
beginning-Inv source = record {
  nested = refl;
  few = omega arith;
  shallow = omega arith;
  depths = tt;
}

-- The groups that tokens in the order of the text leave open, `none` where a bracket or a depth
-- does not fit.
abbrev pub open_groups : Option (List ℕ) → List SqlToken → Option (List ℕ)
open_groups o [] = o
open_groups o (t ∷ ts) = open_groups (bind_nest o t) ts

open_groups-concat :
    (o : Option (List ℕ)) (ts : List SqlToken) (t : SqlToken)
    → open_groups o (ts ++ t ∷ []) ≡ bind_nest (open_groups o ts) t
open_groups-concat o [] t = refl
open_groups-concat o (u ∷ ts) t = open_groups-concat (bind_nest o u) ts t

open_groups-reverse : (ts : List SqlToken) → open_groups (some []) (reverse ts) ≡ nesting ts
open_groups-reverse [] = refl
open_groups-reverse (t ∷ ts) =
    ap (open_groups (some [])) (reverse-cons t ts)
    ∙ (open_groups-concat (some []) (reverse ts) t
        ∙ ap (λ (o : Option (List ℕ)). bind_nest o t) (open_groups-reverse ts))

length-concat : (ts : List SqlToken) (t : SqlToken) → length (ts ++ t ∷ []) ≡ suc (length ts)
length-concat [] t = refl
length-concat (u ∷ ts) t = ap suc (length-concat ts t)

length-reverse : (ts : List SqlToken) → length (reverse ts) ≡ length ts
length-reverse [] = refl
length-reverse (t ∷ ts) =
    ap length (reverse-cons t ts) ∙ (length-concat (reverse ts) t ∙ ap suc (length-reverse ts))

All-concat :
    (ts : List SqlToken) (t : SqlToken)
    → All IsShallow ts
    → IsShallow t
    → All IsShallow (ts ++ t ∷ [])
All-concat [] t h p = (p, tt)
All-concat (u ∷ ts) t (q, h) p = (q, All-concat ts t h p)

All-reverse : (ts : List SqlToken) → All IsShallow ts → All IsShallow (reverse ts)
All-reverse [] h = tt
All-reverse (t ∷ ts) (p, h) =
    subst (All IsShallow) (sym (reverse-cons t ts)) (All-concat (reverse ts) t (All-reverse ts h) p)

-- What is promised of a result.
pub record IsLexed (r : Lexed) : Type 0 where
  pub few : length r.tokens ≤ 20000
  pub depths : All (λ t. t.depth ≤ 128) r.tokens
  pub balanced : r.unknown_reasons ≡ [] → open_groups (some []) r.tokens ≡ some []

closed :
    (l : Lexer)
    → (0 < length l.reasons) ⊎ ((l.rest ≡ []) × (nesting l.tokens ≡ some l.groups))
    → (close_all l).reasons ≡ []
    → nesting l.tokens ≡ some []
closed l h e = by_groups l.groups refl h e
  where
    by_groups :
        (gs : List ℕ)
        → l.groups ≡ gs
        → (0 < length l.reasons) ⊎ ((l.rest ≡ []) × (nesting l.tokens ≡ some l.groups))
        → (close_all l).reasons ≡ []
        → nesting l.tokens ≡ some []
    by_groups [] g (inl r) q =
        let none_left : l.reasons ≡ [] = rw g at q in absurd (omega (arith, ap length none_left))
    by_groups [] g (inr (_, n)) q = n ∙ ap some g
    by_groups (x ∷ gs) g _ q =
        let some_open = lt→ltb 0 (length l.groups) (omega (arith, ap length g)) in
        let added : add_reason malformed_sql l.reasons ≡ [] = rw some_open at q in
        absurd (omega (arith, ap length added, add_reason_pos malformed_sql l.reasons))

result-IsLexed : (l : Lexer) → IsFinal l → IsLexed (result l)
result-IsLexed l f = record {
  few = omega (arith, length-reverse l.tokens, f.few);
  depths = All-reverse l.tokens f.depths;
  balanced = λ e. open_groups-reverse l.tokens ∙ closed l f.outcome e;
}

-- Every text is lexed: the loop ends, at most 20000 tokens come out, no token is more than 128
-- groups deep, and where no reason for doubt is given the brackets among the tokens are balanced
-- and each token's depth is the number of groups around it.
pub lex_migration_sql_total :
    (to_upper_case : Text → Text) (source : Text)
    → (r : Lexed) × (lex_migration_sql to_upper_case source ≡ some r) × IsLexed r
unfolding lex_migration_sql
lex_migration_sql_total to_upper_case source =
    elim (Bool-cases (ltb max_bytes (byte_length source))) [
      | inl long ↦ (
        record { tokens = []; unknown_reasons = input_limit ∷ []; ambiguous_quotes = false },
        rw long,
        record { few = omega arith; depths = tt; balanced = λ e. cc },
      )
      | inr fits ↦
          let (l, el, f) =
            run_total to_upper_case (suc (length source)) (beginning source) (omega arith)
              (beginning-Inv source) in
          (result l, rw (fits, el) refl, result-IsLexed l f)
    ]
