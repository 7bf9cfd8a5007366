-- ===== src/StackTrace/Tests.antt =====
-- Two frames of a file of three lines, and one of a file that cannot be opened.
use Prim.Native.String.{String}
use text.Mathlib.Text.{◌==◌ as str_eq}
use agile_pool.Prelude.{◌≡◌, refl, none, some, List, [], ◌∷◌, if◌then◌else◌}
use agile_pool.Prelude.Int.{pos}
use agile_pool.StackTrace.{
  Frame, Source, unreadable, readable, location, with_source, name_only, read_nth_line, stack,
}
use agile_pool.StackTrace.Report.{report, read_nth_line_lem, stack_lem}

abbrev files : String → Source String
files file =
    if str_eq file "pool.go"
    then readable ("package agilepool" ∷ "" ∷ "func run() {" ∷ []) none
    else unreadable "no such file"

abbrev frames : List Frame
frames =
    record { counter = 10; file = "stack_trace.go"; line = 73; name = some "agilepool.Stack" }
    ∷ record { counter = 20; file = "pool.go"; line = 3; name = some "agilepool.run" }
    ∷ record { counter = 30; file = "pool.go"; line = 1; name = none }
    ∷ record { counter = 40; file = "proc.go"; line = 5; name = some "runtime.goexit" }
    ∷ []

shown :
    stack files frames 1
    ≡ location "pool.go" 3 20
      ∷ with_source "agilepool.run" "func run() {"
      ∷ location "pool.go" 1 30
      ∷ name_only "unknown"
      ∷ location "proc.go" 5 40
      ∷ with_source "runtime.goexit" "Unknown"
      ∷ []
unfolding stack
shown = refl

stack_lem_example :
    stack files frames 1
    ≡ report files "" (
        record { counter = 20; file = "pool.go"; line = 3; name = some "agilepool.run" }
        ∷ record { counter = 30; file = "pool.go"; line = 1; name = none }
        ∷ record { counter = 40; file = "proc.go"; line = 5; name = some "runtime.goexit" }
        ∷ [])
stack_lem_example = stack_lem files frames 1

-- The file has no line with number 3, and there is no error.
read_nth_line_lem_example : read_nth_line files "pool.go" (pos 3) ≡ ("", none)
read_nth_line_lem_example = read_nth_line_lem files "pool.go" 3
