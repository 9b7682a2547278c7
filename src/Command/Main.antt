-- ===== src/Command/Main.antt =====
-- main.go and cmd/root.go: the command line, from `init` and `Execute` to the end of the program.
-- `Execute` of cobra is a parameter.
use rosetta_casper.Common.{
  ℕ, ◌≡◌, refl, ap, ◌∙◌, List, [], ◌∷◌, ◌++◌, Option, none, some, Text, lit, text_eq, false, All,
  ◌≤◌, ◌≢◌, ◌==◌, if◌then◌else◌, arith,
}
use rosetta_casper.Go.Outcome.{Outcome, ok, err, Error, message}
use rosetta_casper.Go.Dict.{Dict}
use rosetta_casper.Casper.Sdk.{Sdk, TransferResponse}
use rosetta_casper.Command.{AsserterOptions, Server, set_up}
use rosetta_casper.Command.Life.{Process, IsReachable}
use rosetta_casper.Command.Life.Results.{IsOver, exit-IsOver}

-- A `cobra.Command` with a `RunE`, and one with subcommands.
pub record Subcommand : Type 0 where
  pub use_line : Text
  pub short : Text
  pub run_e : List Text → Option Error

pub record RootCommand : Type 0 where
  pub use_line : Text
  pub short : Text
  pub commands : List Subcommand

abbrev pub root_cmd : RootCommand
root_cmd = record {
  use_line = lit "rosetta-casper";
  short = lit "Casper implementation of the Rosetta API";
  commands = [];
}

abbrev pub run_cmd : (List Text → Option Error) → Subcommand
run_cmd run_run_cmd = record {
  use_line = lit "run";
  short = lit "Run rosetta-casper";
  run_e = run_run_cmd;
}

-- `rootCmd.AddCommand(runCmd)`
abbrev pub init : Subcommand → RootCommand
init c = record root_cmd { commands = root_cmd.commands ++ (c ∷ []) }

-- How the program ends: its exit status, and what it hands to `color.Red`.
pub record End : Type 0 where
  pub status : ℕ
  pub printed : Option Text

abbrev pub end_of : Option Error → End
end_of none = record { status = 0; printed = none }
end_of (some e) = record { status = 1; printed = some (message e) }

unfoldable pub main :
    (RootCommand → List Text → Option Error) → (List Text → Option Error) → List Text → End
main execute run_run_cmd args = end_of (execute (init (run_cmd run_run_cmd)) args)

-- The name of a command is the first word of its use line.
abbrev pub name_of : Text → Text
name_of [] = []
name_of (c ∷ cs) = if c == b' ' then [] else c ∷ name_of cs

-- A name of lower-case letters which is not that of a command that cobra adds by itself.
pub record IsName (name : Text) : Type 0 where
  pub letters : All (λ c. (b'a' ≤ c) × (c ≤ b'z')) name
  pub not_empty : name ≢ []
  pub not_help : text_eq name (lit "help") ≡ false
  pub not_completion : text_eq name (lit "completion") ≡ false

-- The name of an only subcommand runs it, and its error is returned.
abbrev pub Dispatches : (RootCommand → List Text → Option Error) → Type 0
Dispatches execute =
    (root : RootCommand) (c : Subcommand)
    → IsName (name_of c.use_line)
    → root.commands ≡ c ∷ []
    → execute root (name_of c.use_line ∷ []) ≡ c.run_e []

run-IsName : IsName (lit "run")
unfolding lit text_eq
run-IsName = record {
  letters = omega arith;
  not_empty = λ e. cc;
  not_help = refl;
  not_completion = refl;
}

module _ {Asserter : Type 0} (connect : Text → Sdk) (sum256 : List ℕ → List ℕ)
    (order : Dict (List TransferResponse) → Dict (List TransferResponse))
    (new_asserter : AsserterOptions → Outcome Asserter) (getenv : Text → Text) where
  -- What `runRunCmd` returns: the error of its set-up, or what is left of its goroutines' life.
  pub data RunReturns : Option Error → Type 1 where
    not_set_up :
        (e : Error) → set_up connect sum256 order new_asserter getenv ≡ err e → RunReturns (some e)
    served :
        (server : Server) (q : Process) {r : Option Error}
        → set_up connect sum256 order new_asserter getenv ≡ ok server
        → IsReachable q
        → q.exit ≡ some r
        → RunReturns r

  -- Why the program ends.
  pub data Cause : Error → Type 1 where
    unset : (e : Error) → set_up connect sum256 order new_asserter getenv ≡ err e → Cause e
    over :
        (server : Server) (q : Process) {e : Error}
        → set_up connect sum256 order new_asserter getenv ≡ ok server
        → IsReachable q
        → IsOver q e
        → Cause e

  pub record IsFailed (end : End) : Type 1 where
    pub error : Error
    pub cause : Cause error
    pub status : end.status ≡ 1
    pub printed : end.printed ≡ some (message error)

  RunReturns-some : {r : Option Error} → RunReturns r → (e : Error) × (r ≡ some e) × Cause e
  RunReturns-some (not_set_up e failed) = (e, refl, unset e failed)
  RunReturns-some (served server q set reached exit) =
      let (e, same, is_over) = exit-IsOver reached exit in
      (e, same, over server q set reached is_over)

  -- If cobra runs an only subcommand by its name, the first word of its use line, where that is a word
  -- of lower-case letters other than those of its own commands, and what the command returns is the
  -- error of its set-up or what some interleaving of its goroutines leads to, then the program that
  -- is started with `run` ends with status 1, also when a signal stops it: it prints the error of the
  -- set-up, "rosetta-casper halted" after a signal, or the error of the listener.
  pub main-IsFailed :
      (execute : RootCommand → List Text → Option Error) (run_run_cmd : List Text → Option Error)
      → Dispatches execute
      → RunReturns (run_run_cmd [])
      → IsFailed (main execute run_run_cmd (lit "run" ∷ []))
  unfolding main lit
  main-IsFailed execute run_run_cmd dispatches returned =
      let (e, same, cause) = RunReturns-some returned in
      let ran : main execute run_run_cmd (lit "run" ∷ []) ≡ end_of (some e) =
        ap end_of
          (dispatches (init (run_cmd run_run_cmd)) (run_cmd run_run_cmd) run-IsName refl ∙ same) in
      record {
        error = e;
        cause = cause;
        status = ap (λ (end : End). end.status) ran;
        printed = ap (λ (end : End). end.printed) ran;
      }
