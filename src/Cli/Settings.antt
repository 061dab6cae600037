-- ===== src/Cli/Settings.antt =====
-- src/cli/arguments.mts: the flags and the arguments that set them.
use rehearsal_db.Common.{
  ◌≡◌, refl, sym, subst, ◌⊎◌, inl, inr, Bool, true, false, Option, none, some, List, [], ◌∷◌, ◌++◌,
  ok, >>=-eq-ok, Text, codes, arith, any, Bool-cases, if-cases,
}
use rehearsal_db.Migrations.Lexer.Scanners.{starts_with}
use rehearsal_db.Cli.Arguments.{
  RehearsalCliFlags, CliOption, initial_flags, options, is_option, set_option, find_option,
  ParsedArguments, after, parse_from, parse_arguments,
}

infixr 4 ◌⊳◌
-- A setting, and the arguments that may make it.
abbrev pub IsSetBy : (RehearsalCliFlags → Bool) → (Text → Bool) → CliOption → Type 0
IsSetBy Q T o =
    (argument : Text) (f : RehearsalCliFlags)
    → is_option argument o ≡ true
    → Q (set_option argument o f) ≡ true
    → (Q f ≡ true) ⊎ (T argument ≡ true)

-- Each of the options sets it so.
pub data AreSetBy (Q : RehearsalCliFlags → Bool) (T : Text → Bool) : List CliOption → Type 0 where
  done : AreSetBy Q T []
  ◌⊳◌ :
      {o : CliOption} {os : List CliOption}
      → IsSetBy Q T o
      → AreSetBy Q T os
      → AreSetBy Q T (o ∷ os)

module _ (Q : RehearsalCliFlags → Bool) (T : Text → Bool) where
  found-IsSetBy :
      (argument : Text) (os : List CliOption) (o : CliOption)
      → AreSetBy Q T os
      → find_option argument os ≡ some o
      → (is_option argument o ≡ true) × IsSetBy Q T o
  unfolding find_option
  found-IsSetBy argument [] o all_set h = cc
  found-IsSetBy argument (p ∷ os) o (first ⊳ all_set) h = elim (Bool-cases (is_option argument p)) [
    | inl fits ↦
        let same : p ≡ o = ground arith in
        subst (λ o. (is_option argument o ≡ true) × IsSetBy Q T o) same (fits, first)
    | inr apart ↦ found-IsSetBy argument os o all_set (ground arith)
  ]

  after-IsSetBy :
      (argument : Text) (o : Option CliOption) (s t : ParsedArguments)
      → AreSetBy Q T options
      → find_option argument options ≡ o
      → after argument o s ≡ ok t
      → Q t.flags ≡ true
      → (Q s.flags ≡ true) ⊎ (T argument ≡ true)
  after-IsSetBy argument (some o) s t all_set e h q =
      let (fits, set_by) = found-IsSetBy argument options o all_set e in
      let same : record s { flags = set_option argument o s.flags } ≡ t = cc in
      set_by argument s.flags fits (subst (λ t. Q t.flags ≡ true) (sym same) q)
  after-IsSetBy argument none s t all_set e h q =
      elim (if-cases (starts_with (codes "--") argument) _ _ _ h) [
        | inl (dashed, k) ↦ cc
        | inr (plain, k) ↦
            let same : record s { positionals = s.positionals ++ argument ∷ [] } ≡ t = cc in
            inl (subst (λ t. Q t.flags ≡ true) (sym same) q)
      ]

  parse_from-IsSetBy :
      (arguments : List Text) (s t : ParsedArguments)
      → AreSetBy Q T options
      → parse_from s arguments ≡ ok t
      → Q t.flags ≡ true
      → (Q s.flags ≡ true) ⊎ (any T arguments ≡ true)
  unfolding parse_from
  parse_from-IsSetBy [] s t all_set h q =
      let same : s ≡ t = cc in inl (subst (λ t. Q t.flags ≡ true) (sym same) q)
  parse_from-IsSetBy (argument ∷ arguments) s t all_set h q =
      let (u, e, h') = >>=-eq-ok (after argument (find_option argument options) s) _ h in
      elim (parse_from-IsSetBy arguments u t all_set h' q) [
        | inl early ↦
            elim (after-IsSetBy argument (find_option argument options) s u all_set refl e early) [
              | inl before ↦ inl before
              | inr here ↦ inr (ground arith)
            ]
        | inr later ↦ inr (ground arith)
      ]

  -- What is not set at first is set by an argument.
  pub parse_arguments-set_by :
      (arguments : List Text) (t : ParsedArguments)
      → AreSetBy Q T options
      → Q initial_flags ≡ false
      → parse_arguments arguments ≡ ok t
      → Q t.flags ≡ true
      → any T arguments ≡ true
  unfolding parse_arguments
  parse_arguments-set_by arguments t all_set unset h q =
      elim (parse_from-IsSetBy arguments (record { flags = initial_flags; positionals = [] }) t
        all_set h q) [ inl before ↦ cc | inr there ↦ there ]
