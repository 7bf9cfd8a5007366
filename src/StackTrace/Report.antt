-- ===== src/StackTrace/Report.antt =====
-- What a report shows.
use Prim.Native.String.{String}
use text.Mathlib.Text.{◌==◌ as str_eq}
use text.Mathlib.TextEquality.{eq_iff}
use agile_pool.Prelude.{
  ℕ, zero, suc, ◌+◌, ◌-◌, ◌<◌, ◌≡◌, refl, sym, ap, ◌∙◌, false, Bool-cases, Option-cases, inl, inr,
  Option, none, some, List, [], ◌∷◌, arith, ◌==◌, if◌then◌else◌, length, get_elem?, drop,
}
use agile_pool.Prelude.Int.{pos}
use agile_pool.StackTrace.{
  Frame, Source, unreadable, readable, Printed, location, with_source, name_only, before, function,
  scan, read_source, read_nth_line, source_line, trace_from, stack,
}

module _ {ℓ} {A : Type ℓ} where
  drop-none : (i : ℕ) (xs : List A) → get_elem? xs i ≡ none → drop i xs ≡ []
  drop-none zero [] h = refl
  drop-none zero (x ∷ xs) h = cc
  drop-none (suc i) [] h = refl
  drop-none (suc i) (x ∷ xs) h = drop-none i xs h

  drop-some :
      (i : ℕ) (xs : List A) (x : A)
      → get_elem? xs i ≡ some x
      → (drop i xs ≡ x ∷ drop (suc i) xs) × (i < length xs)
  drop-some i [] x h = cc
  drop-some zero (y ∷ xs) x h = (cc, omega arith)
  drop-some (suc i) (y ∷ xs) x h = let rest = drop-some i xs x h in (rest.0, omega (arith, rest.1))

module _ {Error : Type 0} where
  -- Line `n` of a file that can be opened, with no error; if there is none, no text and the error
  -- of the scanner, which is nil at the end of the file.
  abbrev pub line_of : Source Error → ℕ → String × Option Error
  line_of (unreadable e) n = ("", some e)
  line_of (readable texts failure) n = elim (get_elem? texts n) [
    | none ↦ ("", failure)
    | some text ↦ (text, none)
  ]

  scan_lem :
      (n i : ℕ) (texts : List String) (failure : Option Error)
      → scan (pos (i + n)) i texts failure
        ≡ elim (get_elem? texts n) [ none ↦ ("", failure) | some text ↦ (text, none) ]
  unfolding scan
  scan_lem n i [] failure = refl
  scan_lem zero i (text ∷ texts) failure = ground arith
  scan_lem (suc n) i (text ∷ texts) failure =
      let later : (i == i + suc n) ≡ false = ground arith in
      let shift : i + suc n ≡ suc i + n = omega arith in
      rw later (
        ap (λ (k : ℕ). scan (pos k) (suc i) texts failure) shift ∙ scan_lem n (suc i) texts failure)

  module _ (open_file : String → Source Error) where
    -- readNthLine gives the line with number `n`, from 0 on; when the file has fewer lines it gives
    -- no text and the error of the scanner, which at the end of the file is nil.
    pub read_nth_line_lem :
        (file : String) (n : ℕ) → read_nth_line open_file file (pos n) ≡ line_of (open_file file) n
    unfolding read_nth_line read_source
    read_nth_line_lem file n = read_source_lem (open_file file)
      where
        read_source_lem : (s : Source Error) → read_source s (pos n) ≡ line_of s n
        read_source_lem (unreadable e) = refl
        read_source_lem (readable texts failure) =
            ap (λ (k : ℕ). scan (pos k) 0 texts failure) (omega arith) ∙ scan_lem n 0 texts failure

    -- Two lines for each frame: where it is, and its function, with the line of source when the file
    -- is not that of the frame before it.
    abbrev pub report : (last_file : String) → List Frame → List Printed
    report last_file [] = []
    report last_file (f ∷ fs) =
        location f.file f.line f.counter
        ∷ (if str_eq f.file last_file
            then name_only (function f)
            else with_source (function f) (source_line open_file f.file (before f.line)))
        ∷ report f.file fs

    module _ (frames : List Frame) where
      -- From any frame on, with a round for each frame that is left and one more.
      trace_from_lem :
          (fuel i : ℕ) (last_file : String)
          → length frames - i < fuel
          → trace_from open_file frames fuel i last_file ≡ report last_file (drop i frames)
      unfolding trace_from
      trace_from_lem zero i last_file h = absurd (omega (arith, h))
      trace_from_lem (suc fuel) i last_file h = elim (Option-cases (get_elem? frames i)) [
        | inl end ↦ rw (end, trace_from) (rw (drop-none i frames end))
        | inr (f, e) ↦
            let (more, lt) = drop-some i frames f e in
            let rest = λ (file : String). trace_from_lem fuel (suc i) file (omega (arith, h, lt)) in
            rw (e, trace_from)
              (rw more (elim (Bool-cases (str_eq f.file last_file)) [
                | inl same ↦ rw same (
                    ap (λ ls. location f.file f.line f.counter ∷ name_only (function f) ∷ ls)
                      (rest last_file
                        ∙ ap (λ file. report file (drop (suc i) frames))
                            (sym ((eq_iff f.file last_file).0 same))))
                | inr other ↦ rw other (
                    ap
                      (λ ls.
                        location f.file f.line f.counter
                        ∷ with_source (function f) (source_line open_file f.file (before f.line))
                        ∷ ls)
                      (rest f.file))
              ]))
      ]

      -- Stack reports every frame from number `skip` on, in order, and no others, and shows the source
      -- of a frame just when its file is not that of the frame reported before it.
      pub stack_lem : (skip : ℕ) → stack open_file frames skip ≡ report "" (drop skip frames)
      unfolding stack
      stack_lem skip = trace_from_lem (suc (length frames)) skip "" (omega arith)
