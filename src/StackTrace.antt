-- ===== src/StackTrace.antt =====
-- stack_trace.go: Stack, function and readNthLine. What runtime.Caller and FuncForPC say of the
-- frames, and what the files hold, are parameters; a line of the report is the data that Fprintf gets.
pub mod Report
mod Tests
use Prim.Native.String.{String}
use text.Mathlib.Text.{◌==◌ as str_eq}
use agile_pool.Prelude.{
  ℕ, zero, suc, Bool, true, false, Option, none, some, List, [], ◌∷◌, ◌==◌, if◌then◌else◌, length,
  get_elem?,
}
use agile_pool.Prelude.Int.{ℤ, pos, negsuc}

pub record Frame : Type 0 where
  pub counter : ℕ
  pub file : String
  pub line : ℕ
  pub name : Option String  -- FuncForPC, which may be nil

-- What `os.Open` gives: an error, or the lines that the scanner finds before it ends, with its error
-- if there is one.
pub data Source (Error : Type 0) : Type 0 where
  unreadable : Error → Source Error
  readable : List String → Option Error → Source Error

-- A call of Fprintf.
pub data Printed : Type 0 where
  location : (file : String) (line counter : ℕ) → Printed
  with_source : (name text : String) → Printed
  name_only : String → Printed

-- `line-1`
abbrev pub before : ℕ → ℤ
before zero = negsuc 0
before (suc n) = pos n

abbrev pub is_number : ℕ → ℤ → Bool
is_number i (pos n) = i == n
is_number i (negsuc n) = false

unfoldable pub function : Frame → String
function f = elim f.name [ none ↦ "unknown" | some name ↦ name ]

module _ {Error : Type 0} where
  -- The loop over the lines, from number `i` on.
  unfoldable pub scan : ℤ → ℕ → List String → Option Error → String × Option Error
  scan n i [] failure = ("", failure)
  scan n i (text ∷ texts) failure =
      let rest = scan n (suc i) texts failure in if is_number i n then (text, none) else rest

  unfoldable pub read_source : Source Error → ℤ → String × Option Error
  unfolding scan
  read_source (unreadable e) n = ("", some e)
  read_source (readable texts failure) n = scan n 0 texts failure

  module _ (open_file : String → Source Error) where
    unfoldable pub read_nth_line : String → ℤ → String × Option Error
    unfolding read_source
    read_nth_line file n = read_source (open_file file) n

    -- "Unknown" for an error.
    unfoldable pub source_line : String → ℤ → String
    unfolding read_nth_line
    source_line file n =
        let (text, e) = read_nth_line file n in elim e [ none ↦ text | some error ↦ "Unknown" ]

    module _ (frames : List Frame) where
      -- The loop of Stack with `lastFile`, from frame `i` on.
      unfoldable pub trace_from : (fuel i : ℕ) → (last_file : String) → List Printed
      unfolding source_line function
      trace_from zero i last_file = []
      trace_from (suc fuel) i last_file = elim (get_elem? frames i) [
        | none ↦ []
        | some f ↦ elim (str_eq f.file last_file) [
          | false ↦
              location f.file f.line f.counter
              ∷ with_source (function f) (source_line f.file (before f.line))
              ∷ trace_from fuel (suc i) f.file
          | true ↦
              location f.file f.line f.counter
              ∷ name_only (function f)
              ∷ trace_from fuel (suc i) last_file
        ]
      ]

      -- A round for each frame, and one that finds no more.
      unfoldable pub stack : (skip : ℕ) → List Printed
      unfolding trace_from
      stack skip = trace_from (suc (length frames)) skip ""
