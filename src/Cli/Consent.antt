-- ===== src/Cli/Consent.antt =====
-- src/cli/arguments.mts: the commands that wait for a consent, and the arguments that give it.
use rehearsal_db.Common.{
  ◌⊎◌, ◌≡◌, refl, sym, ◌∙◌, inl, inr, Bool, true, false, Option, some, List, [], ◌∷◌, ok, Text,
  codes, text_eq, All, All-In, In, any,
}
use rehearsal_db.Migrations.Lexer.Scanners.{starts_with}
use rehearsal_db.Cli.Arguments.{
  RehearsalCliFlags, exact, prefixed, initial_flags, options, ParsedArguments, parse_arguments,
  reset_guided_flags, is_given, command_mutates_project,
}
use rehearsal_db.Cli.Settings.{IsSetBy, AreSetBy, done, parse_arguments-set_by, ◌⊳◌}

-- The consents that commands wait for.
pub data Consent : Type 0 where
  writing stopping source_access source_retirement refreshing claiming : Consent

-- The flags that hold them.
abbrev Held : Type 0
Held = Bool × Option Text × Option Text × Option Text × Option Text × Option Text

abbrev given : Consent → Held → Bool
given writing (w, s, a, r, c, i) = w
given stopping (w, s, a, r, c, i) = is_given s
given source_access (w, s, a, r, c, i) = is_given a
given source_retirement (w, s, a, r, c, i) = is_given r
given refreshing (w, s, a, r, c, i) = is_given c
given claiming (w, s, a, r, c, i) = is_given i

abbrev pub is_given_by : Consent → RehearsalCliFlags → Bool
is_given_by k f = given k (
  f.write, f.stop_confirmation, f.source_access_confirmation, f.source_retirement_confirmation,
  f.refresh_confirmation, f.identity_confirmation,
)

-- The argument that gives it.
abbrev pub gives : Consent → Text → Bool
gives writing a = text_eq a (codes "--write")
gives stopping a = starts_with (codes "--confirm-stop=") a
gives source_access a = starts_with (codes "--confirm-source-access=") a
gives source_retirement a = starts_with (codes "--confirm-source-retirement=") a
gives refreshing a = starts_with (codes "--confirm-refresh=") a
gives claiming a = starts_with (codes "--confirm-identity=") a

-- The commands that wait for a consent, with it.
abbrev pub gated : List (Text × Consent)
gated =
    (codes "setup", writing)
    ∷ (codes "init", writing)
    ∷ (codes "baseline prepare", writing)
    ∷ (codes "privacy key", writing)
    ∷ (codes "cleanup", writing)
    ∷ (codes "cleanup containers", writing)
    ∷ (codes "stop-stale", stopping)
    ∷ (codes "source apply", source_access)
    ∷ (codes "source retire", source_retirement)
    ∷ (codes "refresh", refreshing)
    ∷ (codes "identity claim", claiming)
    ∷ []

writing-IsSetBy :
    (k : Consent)
    → IsSetBy (is_given_by k) (gives k) (exact (codes "--write") (λ f. record f { write = true }))
writing-IsSetBy writing a f h q = inr h
writing-IsSetBy stopping a f h q = inl q
writing-IsSetBy source_access a f h q = inl q
writing-IsSetBy source_retirement a f h q = inl q
writing-IsSetBy refreshing a f h q = inl q
writing-IsSetBy claiming a f h q = inl q

stopping-IsSetBy :
    (k : Consent)
    → IsSetBy
        (is_given_by k)
        (gives k)
        (prefixed (codes "--confirm-stop=") (λ v f. record f { stop_confirmation = some v }))
stopping-IsSetBy writing a f h q = inl q
stopping-IsSetBy stopping a f h q = inr h
stopping-IsSetBy source_access a f h q = inl q
stopping-IsSetBy source_retirement a f h q = inl q
stopping-IsSetBy refreshing a f h q = inl q
stopping-IsSetBy claiming a f h q = inl q

source_access-IsSetBy :
    (k : Consent)
    → IsSetBy (is_given_by k) (gives k) (
        prefixed
          (codes "--confirm-source-access=")
          (λ v f. record f { source_access_confirmation = some v }))
source_access-IsSetBy writing a f h q = inl q
source_access-IsSetBy stopping a f h q = inl q
source_access-IsSetBy source_access a f h q = inr h
source_access-IsSetBy source_retirement a f h q = inl q
source_access-IsSetBy refreshing a f h q = inl q
source_access-IsSetBy claiming a f h q = inl q

source_retirement-IsSetBy :
    (k : Consent)
    → IsSetBy (is_given_by k) (gives k) (
        prefixed
          (codes "--confirm-source-retirement=")
          (λ v f. record f { source_retirement_confirmation = some v }))
source_retirement-IsSetBy writing a f h q = inl q
source_retirement-IsSetBy stopping a f h q = inl q
source_retirement-IsSetBy source_access a f h q = inl q
source_retirement-IsSetBy source_retirement a f h q = inr h
source_retirement-IsSetBy refreshing a f h q = inl q
source_retirement-IsSetBy claiming a f h q = inl q

refreshing-IsSetBy :
    (k : Consent)
    → IsSetBy
        (is_given_by k)
        (gives k)
        (prefixed (codes "--confirm-refresh=") (λ v f. record f { refresh_confirmation = some v }))
refreshing-IsSetBy writing a f h q = inl q
refreshing-IsSetBy stopping a f h q = inl q
refreshing-IsSetBy source_access a f h q = inl q
refreshing-IsSetBy source_retirement a f h q = inl q
refreshing-IsSetBy refreshing a f h q = inr h
refreshing-IsSetBy claiming a f h q = inl q

claiming-IsSetBy :
    (k : Consent)
    → IsSetBy (is_given_by k) (gives k) (
        prefixed (codes "--confirm-identity=") (λ v f. record f { identity_confirmation = some v }))
claiming-IsSetBy writing a f h q = inl q
claiming-IsSetBy stopping a f h q = inl q
claiming-IsSetBy source_access a f h q = inl q
claiming-IsSetBy source_retirement a f h q = inl q
claiming-IsSetBy refreshing a f h q = inl q
claiming-IsSetBy claiming a f h q = inr h

options-IsSetBy : (k : Consent) → AreSetBy (is_given_by k) (gives k) options
options-IsSetBy k =
    (λ a f h q. inl q)
    ⊳ (λ a f h q. inl q)
    ⊳ (λ a f h q. inl q)
    ⊳ (λ a f h q. inl q)
    ⊳ (λ a f h q. inl q)
    ⊳ (λ a f h q. inl q)
    ⊳ (λ a f h q. inl q)
    ⊳ (λ a f h q. inl q)
    ⊳ writing-IsSetBy k
    ⊳ (λ a f h q. inl q)
    ⊳ (λ a f h q. inl q)
    ⊳ (λ a f h q. inl q)
    ⊳ (λ a f h q. inl q)
    ⊳ stopping-IsSetBy k
    ⊳ (λ a f h q. inl q)
    ⊳ (λ a f h q. inl q)
    ⊳ (λ a f h q. inl q)
    ⊳ (λ a f h q. inl q)
    ⊳ source_access-IsSetBy k
    ⊳ source_retirement-IsSetBy k
    ⊳ refreshing-IsSetBy k
    ⊳ claiming-IsSetBy k
    ⊳ (λ a f h q. inl q)
    ⊳ (λ a f h q. inl q)
    ⊳ (λ a f h q. inl q)
    ⊳ (λ a f h q. inl q)
    ⊳ (λ a f h q. inl q)
    ⊳ (λ a f h q. inl q)
    ⊳ (λ a f h q. inl q)
    ⊳ (λ a f h q. inl q)
    ⊳ (λ a f h q. inl q)
    ⊳ (λ a f h q. inl q)
    ⊳ (λ a f h q. inl q)
    ⊳ (λ a f h q. inl q)
    ⊳ done

nothing_given : (k : Consent) → is_given_by k initial_flags ≡ false
nothing_given writing = refl
nothing_given stopping = refl
nothing_given source_access = refl
nothing_given source_retirement = refl
nothing_given refreshing = refl
nothing_given claiming = refl

nothing_after : (k : Consent) (f : RehearsalCliFlags) → is_given_by k (reset_guided_flags f) ≡ false
nothing_after writing f = refl
nothing_after stopping f = refl
nothing_after source_access f = refl
nothing_after source_retirement f = refl
nothing_after refreshing f = refl
nothing_after claiming f = refl

gated-mutate :
    (f : RehearsalCliFlags)
    → All (λ g. command_mutates_project g.0 f false ≡ is_given_by g.1 f) gated
unfolding command_mutates_project
gated-mutate f =
    (refl, (refl, (refl, (refl, (refl, (refl, (refl, (refl, (refl, (refl, (refl, tt)))))))))))

-- Of an accepted command line, a command that waits for a consent counts as changing the project only
-- in guided mode, in which every command does, or where one of the arguments gives this consent.
pub command_mutates_project-consent :
    (arguments : List Text) (parsed : ParsedArguments) (command : Text) (k : Consent)
    (guided : Bool)
    → parse_arguments arguments ≡ ok parsed
    → In (command, k) gated
    → command_mutates_project command parsed.flags guided ≡ true
    → (guided ≡ true) ⊎ (any (gives k) arguments ≡ true)
command_mutates_project-consent arguments parsed command k true h i mutates = inl refl
command_mutates_project-consent arguments parsed command k false h i mutates =
    let same =
      All-In (λ g. command_mutates_project g.0 parsed.flags false ≡ is_given_by g.1 parsed.flags)
        (command, k) gated (gated-mutate parsed.flags) i in
    inr (
      parse_arguments-set_by (is_given_by k) (gives k) arguments parsed (options-IsSetBy k)
        (nothing_given k) h (sym same ∙ mutates))

-- After the reset between guided commands, no command that waits for a consent changes the project
-- outside guided mode.
pub reset_guided_flags-consent :
    (f : RehearsalCliFlags) (command : Text) (k : Consent)
    → In (command, k) gated
    → command_mutates_project command (reset_guided_flags f) false ≡ false
reset_guided_flags-consent f command k i =
    let same =
      All-In
        (λ g.
          command_mutates_project g.0 (reset_guided_flags f) false
          ≡ is_given_by g.1 (reset_guided_flags f))
        (command, k) gated (gated-mutate (reset_guided_flags f)) i in
    same ∙ nothing_after k f
