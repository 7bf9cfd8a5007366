-- ===== src/Idle/Sorted.antt =====
-- Lists in the order of the dates.
use agile_pool.Prelude.{
  ℕ, ◌-◌, ◌≤◌, ◌<◌, ◌≡◌, refl, ap, true, false, List, [], ◌∷◌, ◌++◌, arith, lt→ltb, le→ltb, keep,
}
use agile_pool.Prelude.All.{All, All-append, All-left, All-right, All-imp}
use agile_pool.Idle.{stays}
use agile_pool.Idle.Queue.{by_date}

module _ {ℓ} {A : Type ℓ} (date : A → ℕ) where
  abbrev pub Upto : ℕ → List A → Type 0
  Upto k xs = All (λ x. date x ≤ k) xs

  abbrev pub Past : ℕ → List A → Type 0
  Past k xs = All (λ x. k < date x) xs

  abbrev pub From : ℕ → List A → Type 0
  From k xs = All (λ x. k ≤ date x) xs

  abbrev pub Sorted : List A → Type 0
  Sorted [] = Unit
  Sorted (x ∷ xs) = From (date x) xs × Sorted xs

  pub Sorted-append :
      (k : ℕ) (xs ys : List A) → Upto k xs → From k ys → Sorted xs → Sorted ys → Sorted (xs ++ ys)
  Sorted-append k [] ys u f s t = t
  Sorted-append k (x ∷ xs) ys u f s t = (
    All-append _ xs ys s.0 (All-imp _ _ ys (λ y h. omega (arith, u.0, h)) f),
    Sorted-append k xs ys u.1 f s.1 t,
  )

  pub Sorted-left : (xs ys : List A) → Sorted (xs ++ ys) → Sorted xs
  Sorted-left [] ys s = tt
  Sorted-left (x ∷ xs) ys s = (All-left _ xs ys s.0, Sorted-left xs ys s.1)

  pub Sorted-right : (xs ys : List A) → Sorted (xs ++ ys) → Sorted ys
  Sorted-right [] ys s = s
  Sorted-right (x ∷ xs) ys s = Sorted-right xs ys s.1

  -- The element in the middle is between the two sides.
  pub Upto-middle : (xs : List A) (v : A) (ys : List A) → Sorted (xs ++ v ∷ ys) → Upto (date v) xs
  Upto-middle [] v ys s = tt
  Upto-middle (x ∷ xs) v ys s =
      ((All-right (λ y. date x ≤ date y) xs (v ∷ ys) s.0).0, Upto-middle xs v ys s.1)

  pub From-middle : (xs : List A) (v : A) (ys : List A) → Sorted (xs ++ v ∷ ys) → From (date v) ys
  From-middle xs v ys s = (Sorted-right xs (v ∷ ys) s).0

  pub by_date-between :
      (a : A) (xs ys : List A)
      → Upto (date a) xs
      → Past (date a) ys
      → by_date date a (xs ++ ys) ≡ xs ++ a ∷ ys
  by_date-between a [] [] u p = refl
  by_date-between a [] (y ∷ ys) u p = let later = lt→ltb (date a) (date y) p.0 in rw later refl
  by_date-between a (x ∷ xs) ys u p =
      let earlier = le→ltb (date a) (date x) u.0 in
      rw earlier (ap (x ∷◌) (by_date-between a xs ys u.1 p))

  pub Sorted-between :
      (a : A) (xs ys : List A)
      → Upto (date a) xs
      → Past (date a) ys
      → Sorted (xs ++ ys)
      → Sorted (xs ++ a ∷ ys)
  Sorted-between a xs ys u p s =
      let f : From (date a) ys = All-imp _ _ ys (λ y h. omega (arith, h)) p in
      Sorted-append (date a) xs (a ∷ ys) u (omega arith, f) (Sorted-left xs ys s)
        (f, Sorted-right xs ys s)

  -- What stays after a clean-up is what comes after the cutoff.
  pub keep-stays :
      (now expiry : ℕ) (xs ys : List A)
      → expiry ≤ now
      → Upto (now - expiry) xs
      → Past (now - expiry) ys
      → keep (stays date now expiry) (xs ++ ys) ≡ ys
  keep-stays now expiry [] [] h u p = refl
  keep-stays now expiry [] (y ∷ ys) h u p =
      let here : stays date now expiry y ≡ true = ground (arith, p.0) in
      rw here (ap (y ∷◌) (keep-stays now expiry [] ys h tt p.1))
  keep-stays now expiry (x ∷ xs) ys h u p =
      let gone : stays date now expiry x ≡ false = ground (arith, u.0) in
      rw gone (keep-stays now expiry xs ys h u.1 p)
