-- ===== src/Tests/Cli.antt =====
-- A command line that confirms a refresh, and the flags after it.
use rehearsal_db.Common.{
  ◌⊎◌, false, ◌≡◌, refl, inl, inr, true, some, List, [], ◌∷◌, ok, err, Text, codes, text_eq, In,
  any,
}
use rehearsal_db.Cli.Arguments.{
  RehearsalCliFlags, unknown_option, ParsedArguments, initial_flags, parse_arguments,
  command_mutates_project,
}
use rehearsal_db.Cli.Consent.{refreshing, gives, gated, command_mutates_project-consent}

abbrev refresh_arguments : List Text
refresh_arguments = codes "refresh" ∷ codes "--confirm-refresh=yes" ∷ codes "--json" ∷ []

abbrev refresh_flags : RehearsalCliFlags
refresh_flags = record initial_flags { refresh_confirmation = some (codes "yes"); json = true }

abbrev refresh_parsed : ParsedArguments
refresh_parsed = record { flags = refresh_flags; positionals = codes "refresh" ∷ [] }

refresh_parses : parse_arguments refresh_arguments ≡ ok refresh_parsed
unfolding parse_arguments text_eq
refresh_parses = refl

refresh_mutates : command_mutates_project (codes "refresh") refresh_flags false ≡ true
unfolding command_mutates_project
refresh_mutates = refl

refresh_unknown :
    parse_arguments (codes "--confirm" ∷ []) ≡ err (unknown_option (codes "--confirm"))
unfolding parse_arguments
refresh_unknown = refl

refresh-gated : In (codes "refresh", refreshing) gated
refresh-gated = inr (inr (inr (inr (inr (inr (inr (inr (inr (inl refl)))))))))

command_mutates_project-consent_example :
    (false ≡ true) ⊎ (any (gives refreshing) refresh_arguments ≡ true)
command_mutates_project-consent_example =
    command_mutates_project-consent refresh_arguments refresh_parsed (codes "refresh") refreshing
      false refresh_parses refresh-gated refresh_mutates
