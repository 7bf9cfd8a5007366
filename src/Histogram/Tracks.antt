-- ===== src/Histogram/Tracks.antt =====
-- What the fields of a histogram say of the samples in its window.
use agile_pool.Prelude.{
  ℕ, ◌+◌, ◌-◌, ◌<◌, ◌≡◌, List, [], ◌∷◌, ◌++◌, arith, ltb, ◌==◌, if◌then◌else◌, length, get_or, take,
  drop,
}
use agile_pool.Histogram.{Histogram}

-- How often `i` stands in a list.
abbrev pub occurrences : ℕ → List ℕ → ℕ
occurrences i [] = 0
occurrences i (x ∷ xs) = (if x == i then 1 else 0) + occurrences i xs

-- The last `n` elements.
abbrev pub latest {ℓ} : {A : Type ℓ} → ℕ → List A → List A
latest n xs = drop (length xs - n) xs

-- A window that holds `n` samples takes one more.
abbrev pub slide : ℕ → List ℕ → ℕ → List ℕ
slide n recent x = (if ltb (length recent) n then recent else drop 1 recent) ++ x ∷ []

pub occurrences-append :
    (i : ℕ) (xs ys : List ℕ) → occurrences i (xs ++ ys) ≡ occurrences i xs + occurrences i ys
occurrences-append i [] ys = omega arith
occurrences-append i (x ∷ xs) ys = omega (arith, occurrences-append i xs ys)

-- The entries are numbers of buckets.
abbrev pub InRange : ℕ → List ℕ → Type 0
InRange n [] = Unit
InRange n (x ∷ xs) = (x < n) × InRange n xs

-- The bucket numbers of the window, the oldest first.
abbrev pub in_window : Histogram → List ℕ
in_window h =
    if h.filled then drop h.pos h.samples ++ take h.pos h.samples else take h.pos h.samples

pub record Tracks (h : Histogram) (n : ℕ) (recent : List ℕ) : Type 0 where
  pub size : length h.samples ≡ n
  pub inside : h.pos < n
  pub window : in_window h ≡ recent
  pub known : (i : ℕ) → get_or h.counts i 0 ≡ occurrences i recent
  pub count_of : length h.counts ≡ length h.buckets
  pub range : InRange (length h.buckets) recent
  pub all : h.total ≡ length recent
