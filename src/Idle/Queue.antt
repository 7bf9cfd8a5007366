-- ===== src/Idle/Queue.antt =====
-- What a container replies when it is a list that gives its first element: `place` says where a new
-- element goes.
use agile_pool.Prelude.{
  ℕ, ◌-◌, ◌≤◌, ◌≡◌, refl, ap, ap₂, Option, none, some, List, [], ◌∷◌, ◌++◌, length, keep, ltb,
  if◌then◌else◌,
}
use agile_pool.Idle.{IdleContainer, stays}

pub data Op {ℓ} (A : Type ℓ) : Type ℓ where
  add : A → Op A
  pop : Op A
  remove_expired : (now expiry : ℕ) → Op A
  len : Op A

pub data Reply {ℓ} (A : Type ℓ) : Type ℓ where
  added : Reply A
  popped : Option A → Reply A
  removed : ℕ → Reply A
  counted : ℕ → Reply A

-- Clocks show more than the time that an element may stay.
abbrev pub Timely {ℓ} : {A : Type ℓ} → Op A → Type 0
Timely (remove_expired now expiry) = expiry ≤ now
Timely o = Unit

abbrev pub AllTimely {ℓ} : {A : Type ℓ} → List (Op A) → Type 0
AllTimely [] = Unit
AllTimely (o ∷ os) = Timely o × AllTimely os

module _ {ℓ} {A : Type ℓ} where
  abbrev pub first : List A → Option A × List A
  first [] = (none, [])
  first (x ∷ xs) = (some x, xs)

  abbrev pub at_end : A → List A → List A
  at_end a xs = xs ++ a ∷ []

  -- Behind the elements with a date that is not later.
  abbrev pub by_date : (A → ℕ) → A → List A → List A
  by_date date a [] = a ∷ []
  by_date date a (x ∷ xs) = if ltb (date a) (date x) then a ∷ x ∷ xs else x ∷ by_date date a xs

  module _ (date : A → ℕ) (place : A → List A → List A) where
    unfoldable pub step : Op A → List A → Reply A × List A
    step (add a) xs = (added, place a xs)
    step pop xs = let (a, rest) = first xs in (popped a, rest)
    step (remove_expired now expiry) xs =
        let rest = keep (stays date now expiry) xs in (removed (length xs - length rest), rest)
    step len xs = (counted (length xs), xs)

    unfoldable pub run : List (Op A) → List A → List (Reply A) × List A
    unfolding step
    run [] xs = ([], xs)
    run (o ∷ os) xs = let (r, xs') = step o xs in let (rs, xs'') = run os xs' in (r ∷ rs, xs'')

  module _ (c : IdleContainer A) where
    unfoldable pub call : Op A → c.State → Reply A × c.State
    call (add a) s = (added, c.add a s)
    call pop s = let (a, s') = c.pop s in (popped a, s')
    call (remove_expired now expiry) s =
        let (n, s') = c.remove_expired now expiry s in (removed n, s')
    call len s = (counted (c.len s), s)

    unfoldable pub run_calls : List (Op A) → c.State → List (Reply A) × c.State
    unfolding call
    run_calls [] s = ([], s)
    run_calls (o ∷ os) s =
        let (r, s') = call o s in let (rs, s'') = run_calls os s' in (r ∷ rs, s'')

  -- The container is such a list: `Holds s xs` says that `s` holds `xs`.
  pub record IsQueue (date : A → ℕ) (place : A → List A → List A) (c : IdleContainer A)
      : Type (ℓ + 1) where
    pub Holds : c.State → List A → Type ℓ
    pub new_law : Holds c.new []
    pub add_law : (a : A) (s : c.State) (xs : List A) → Holds s xs → Holds (c.add a s) (place a xs)
    pub pop_law :
        (s : c.State) (xs : List A)
        → Holds s xs
        → ((c.pop s).0 ≡ (first xs).0) × Holds (c.pop s).1 (first xs).1
    pub remove_law :
        (now expiry : ℕ) (s : c.State) (xs : List A)
        → expiry ≤ now
        → Holds s xs
        → let rest = keep (stays date now expiry) xs in
          ((c.remove_expired now expiry s).0 ≡ length xs - length rest)
          × Holds (c.remove_expired now expiry s).1 rest
    pub len_law : (s : c.State) (xs : List A) → Holds s xs → c.len s ≡ length xs

  module _ {date : A → ℕ} {place : A → List A → List A} {c : IdleContainer A}
      (f : IsQueue date place c) where
    open f use {Holds, new_law, add_law, pop_law, remove_law, len_law}

    call-Holds :
        (o : Op A) (s : c.State) (xs : List A)
        → Timely o
        → Holds s xs
        → ((call c o s).0 ≡ (step date place o xs).0)
          × Holds (call c o s).1 (step date place o xs).1
    unfolding call step
    call-Holds (add a) s xs t h = (refl, add_law a s xs h)
    call-Holds pop s xs t h = let p = pop_law s xs h in (ap popped p.0, p.1)
    call-Holds (remove_expired now expiry) s xs t h =
        let p = remove_law now expiry s xs t h in (ap removed p.0, p.1)
    call-Holds len s xs t h = (ap counted (len_law s xs h), h)

    run-Holds :
        (os : List (Op A)) (s : c.State) (xs : List A)
        → AllTimely os
        → Holds s xs
        → ((run_calls c os s).0 ≡ (run date place os xs).0)
          × Holds (run_calls c os s).1 (run date place os xs).1
    unfolding run_calls run
    run-Holds [] s xs t h = (refl, h)
    run-Holds (o ∷ os) s xs t h =
        let p = call-Holds o s xs t.0 h in
        let q = run-Holds os (call c o s).1 (step date place o xs).1 t.1 p.1 in
        (ap₂ ◌∷◌ p.0 q.0, q.1)

    pub run_calls-new :
        (os : List (Op A))
        → AllTimely os
        → ((run_calls c os c.new).0 ≡ (run date place os []).0)
          × Holds (run_calls c os c.new).1 (run date place os []).1
    run_calls-new os t = run-Holds os c.new [] t new_law
