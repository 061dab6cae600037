-- ===== src/Cli/Arguments.antt =====
-- src/cli/arguments.mts: the options of the command line, and which commands change a project.
use rehearsal_db.Common.{
  Bool, true, false, not, Option, none, some, List, [], ◌∷◌, ◌++◌, Result, ok, err, ◌>>=◌, Text,
  codes, text_eq, length, drop, ltb, if◌then◌else◌, any,
}
use rehearsal_db.Migrations.Lexer.Scanners.{starts_with}

-- `undefined` is none.
pub data RehearsalVerbosity : Type 0 where
  normal verbose debug : RehearsalVerbosity

pub record RehearsalCliFlags : Type 0 where
  pub json : Bool
  pub help : Bool
  pub version : Bool
  pub verbosity : RehearsalVerbosity
  pub dry_run : Bool
  pub write : Bool
  pub plain : Bool
  pub config_path : Option Text
  pub confirmation : Option Text
  pub records_path : Option Text
  pub ledger_path : Option Text
  pub assets_path : Option Text
  pub target : Option Text
  pub native_identity : Option Text
  pub source_sha256 : Option Text
  pub candidate_sha256 : Option Text
  pub include_runtime : Bool
  pub include_images : Bool
  pub image_ids : Option (List Text)
  pub images_only : Bool
  pub cleanup_confirmation : Option Text
  pub stop_confirmation : Option Text
  pub engine_stop_confirmation : Option Text
  pub workload_confirmation : Option Text
  pub managed_confirmation : Option Text
  pub proposal_path : Option Text
  pub source_access_confirmation : Option Text
  pub source_retirement_confirmation : Option Text
  pub refresh_confirmation : Option Text
  pub identity_confirmation : Option Text
  pub identity_name : Option Text
  pub exit_guided_session : Bool
  pub guided : Bool

-- An option, and what it sets: by its name alone, or by its name and what follows it.
pub data CliOption : Type 0 where
  exact : Text → (RehearsalCliFlags → RehearsalCliFlags) → CliOption
  prefixed : Text → (Text → RehearsalCliFlags → RehearsalCliFlags) → CliOption

pub data ArgumentError : Type 0 where
  unknown_option : Text → ArgumentError

abbrev pub initial_flags : RehearsalCliFlags
initial_flags = record {
  json = false;
  help = false;
  version = false;
  verbosity = normal;
  dry_run = false;
  write = false;
  plain = false;
  config_path = none;
  confirmation = none;
  records_path = none;
  ledger_path = none;
  assets_path = none;
  target = none;
  native_identity = none;
  source_sha256 = none;
  candidate_sha256 = none;
  include_runtime = false;
  include_images = false;
  image_ids = none;
  images_only = false;
  cleanup_confirmation = none;
  stop_confirmation = none;
  engine_stop_confirmation = none;
  workload_confirmation = none;
  managed_confirmation = none;
  proposal_path = none;
  source_access_confirmation = none;
  source_retirement_confirmation = none;
  refresh_confirmation = none;
  identity_confirmation = none;
  identity_name = none;
  exit_guided_session = false;
  guided = false;
}

-- `(flags.imageIds ??= []).push(id)`
abbrev pub pushed_to : Option (List Text) → Text → Option (List Text)
pushed_to none id = some (id ∷ [])
pushed_to (some ids) id = some (ids ++ id ∷ [])

-- The branches of the loop, in their order; the first that fits counts.
abbrev pub options : List CliOption
options =
    exact (codes "--json") (λ f. record f { json = true })
    ∷ exact (codes "--help") (λ f. record f { help = true })
    ∷ exact (codes "-h") (λ f. record f { help = true })
    ∷ exact (codes "--version") (λ f. record f { version = true })
    ∷ exact (codes "-V") (λ f. record f { version = true })
    ∷ exact (codes "--verbose") (λ f. record f { verbosity = verbose })
    ∷ exact (codes "--debug") (λ f. record f { verbosity = debug })
    ∷ exact (codes "--dry-run") (λ f. record f { dry_run = true })
    ∷ exact (codes "--write") (λ f. record f { write = true })
    ∷ exact (codes "--plain") (λ f. record f { plain = true })
    ∷ prefixed (codes "--config=") (λ v f. record f { config_path = some v })
    ∷ prefixed (codes "--confirm-candidates=") (λ v f. record f { confirmation = some v })
    ∷ prefixed (codes "--confirm-cleanup=") (λ v f. record f { cleanup_confirmation = some v })
    ∷ prefixed (codes "--confirm-stop=") (λ v f. record f { stop_confirmation = some v })
    ∷ prefixed (codes "--confirm-engine-stop=")
        (λ v f. record f { engine_stop_confirmation = some v })
    ∷ prefixed (codes "--confirm-workloads=") (λ v f. record f { workload_confirmation = some v })
    ∷ prefixed (codes "--confirm-managed=") (λ v f. record f { managed_confirmation = some v })
    ∷ prefixed (codes "--proposal=") (λ v f. record f { proposal_path = some v })
    ∷ prefixed (codes "--confirm-source-access=")
        (λ v f. record f { source_access_confirmation = some v })
    ∷ prefixed (codes "--confirm-source-retirement=")
        (λ v f. record f { source_retirement_confirmation = some v })
    ∷ prefixed (codes "--confirm-refresh=") (λ v f. record f { refresh_confirmation = some v })
    ∷ prefixed (codes "--confirm-identity=") (λ v f. record f { identity_confirmation = some v })
    ∷ prefixed (codes "--identity=") (λ v f. record f { identity_name = some v })
    ∷ prefixed (codes "--records=") (λ v f. record f { records_path = some v })
    ∷ prefixed (codes "--ledger=") (λ v f. record f { ledger_path = some v })
    ∷ prefixed (codes "--assets=") (λ v f. record f { assets_path = some v })
    ∷ prefixed (codes "--native-identity=") (λ v f. record f { native_identity = some v })
    ∷ prefixed (codes "--source-sha256=") (λ v f. record f { source_sha256 = some v })
    ∷ prefixed (codes "--candidate-sha256=") (λ v f. record f { candidate_sha256 = some v })
    ∷ prefixed (codes "--target=") (λ v f. record f { target = some v })
    ∷ exact (codes "--include-runtime") (λ f. record f { include_runtime = true })
    ∷ exact (codes "--include-images") (λ f. record f { include_images = true })
    ∷ exact (codes "--images-only") (λ f. record f { images_only = true; include_images = true })
    ∷ prefixed (codes "--image-id=") (λ v f. record f { image_ids = pushed_to f.image_ids v })
    ∷ []

-- `argument === name`, or `argument.startsWith(name)`.
abbrev pub is_option : Text → CliOption → Bool
is_option argument (exact name set) = text_eq argument name
is_option argument (prefixed name set) = starts_with name argument

abbrev pub set_option : Text → CliOption → RehearsalCliFlags → RehearsalCliFlags
set_option argument (exact name set) f = set f
set_option argument (prefixed name set) f = set (drop (length name) argument) f

unfoldable pub find_option : Text → List CliOption → Option CliOption
unfolding text_eq starts_with
find_option argument [] = none
find_option argument (o ∷ os) = elim (is_option argument o) [
  | true ↦ some o
  | false ↦ find_option argument os
]

pub record ParsedArguments : Type 0 where
  pub flags : RehearsalCliFlags
  pub positionals : List Text

abbrev pub after : Text → Option CliOption → ParsedArguments → Result ArgumentError ParsedArguments
after argument (some o) s = ok (record s { flags = set_option argument o s.flags })
after argument none s =
    if starts_with (codes "--") argument
    then err (unknown_option argument)
    else ok (record s { positionals = s.positionals ++ argument ∷ [] })

-- The loop over arguments.
unfoldable pub parse_from : ParsedArguments → List Text → Result ArgumentError ParsedArguments
unfolding find_option starts_with
parse_from s [] = ok s
parse_from s (argument ∷ arguments) = do
  t ← after argument (find_option argument options) s
  parse_from t arguments

unfoldable pub parse_arguments : List Text → Result ArgumentError ParsedArguments
unfolding parse_from
parse_arguments arguments =
    parse_from (record { flags = initial_flags; positionals = [] }) arguments

abbrev pub reset_guided_flags : RehearsalCliFlags → RehearsalCliFlags
reset_guided_flags f = record f {
  dry_run = false;
  write = false;
  confirmation = none;
  records_path = none;
  ledger_path = none;
  assets_path = none;
  target = none;
  native_identity = none;
  source_sha256 = none;
  candidate_sha256 = none;
  include_runtime = false;
  include_images = false;
  image_ids = none;
  images_only = false;
  cleanup_confirmation = none;
  stop_confirmation = none;
  engine_stop_confirmation = none;
  workload_confirmation = none;
  managed_confirmation = none;
  proposal_path = none;
  source_access_confirmation = none;
  source_retirement_confirmation = none;
  refresh_confirmation = none;
  identity_confirmation = none;
  identity_name = none;
  exit_guided_session = false;
}

-- `Boolean` of an optional text.
abbrev pub is_given : Option Text → Bool
is_given none = false
is_given (some t) = ltb 0 (length t)

abbrev pub is_among : Text → List Text → Bool
is_among command names = any (text_eq command) names

unfoldable pub command_mutates_project : Text → RehearsalCliFlags → Bool → Bool
unfolding text_eq
command_mutates_project command f guided =
    if guided
    then true
    else if is_among command (codes "engine status" ∷ codes "engine stop" ∷ [])
    then false
    else if is_among command
        (codes "setup" ∷ codes "init" ∷ codes "baseline prepare" ∷ codes "privacy key" ∷ [])
    then f.write
    else if is_among command (codes "cleanup" ∷ codes "cleanup containers" ∷ [])
    then f.write
    else if text_eq command (codes "stop-stale")
    then is_given f.stop_confirmation
    else if text_eq command (codes "source apply")
    then is_given f.source_access_confirmation
    else if text_eq command (codes "source retire")
    then is_given f.source_retirement_confirmation
    else if text_eq command (codes "refresh")
    then is_given f.refresh_confirmation
    else if text_eq command (codes "identity claim")
    then is_given f.identity_confirmation
    else if text_eq command (codes "identity connect")
    then true
    else if text_eq command (codes "run")
    then not f.dry_run
    else is_among command (
        codes "baseline create"
        ∷ codes "baseline refresh"
        ∷ codes "open"
        ∷ codes "start"
        ∷ codes "migrate"
        ∷ codes "measure impact"
        ∷ codes "reset"
        ∷ codes "stop"
        ∷ codes "discard"
        ∷ [])
