-- ===== src/Idle/LinkedList/Cells.antt =====
-- A linked list as the cells that it stands for.
use agile_pool.Prelude.{
  ℕ, suc, ◌≤◌, ◌<◌, ◌≡◌, refl, ap, false, none, List, [], ◌∷◌, ◌++◌, arith, length,
}
use agile_pool.Prelude.All.{All, All-append, All-left, All-right, All-imp}
use agile_pool.Idle.LinkedList.{Nodes, LinkedList}
use agile_pool.Idle.LinkedList.Segment.{Cells, front, back, Seg, Off, Distinct, Apart, ==_sym}

module _ {ℓ} {A : Type ℓ} where
  abbrev pub vals : Cells A → List A
  vals [] = []
  vals ((p, v) ∷ cs) = v ∷ vals cs

  abbrev pub of_cells : Nodes A → ℕ → Cells A → LinkedList A
  of_cells m n cs = record {
    nodes = m;
    allocated = n;
    head = front cs none;
    tail = back none cs;
    length = length cs;
    faulted = false;
  }

  pub record Good (m : Nodes A) (n : ℕ) (cs : Cells A) : Type ℓ where
    pub linked : Seg m none cs none
    pub distinct : Distinct cs
    pub below : All (λ (c : ℕ × A). c.0 < n) cs
    pub enough : length cs ≤ n

  pub record Holds (l : LinkedList A) (xs : List A) : Type ℓ where
    pub nodes : Nodes A
    pub allocated : ℕ
    pub cells : Cells A
    pub shape : l ≡ of_cells nodes allocated cells
    pub good : Good nodes allocated cells
    pub values : vals cells ≡ xs

  pub vals-append : (xs ys : Cells A) → vals (xs ++ ys) ≡ vals xs ++ vals ys
  vals-append [] ys = refl
  vals-append ((p, v) ∷ xs) ys = ap (v ∷◌) (vals-append xs ys)

  pub length-vals : (cs : Cells A) → length (vals cs) ≡ length cs
  length-vals [] = refl
  length-vals ((p, v) ∷ cs) = ap suc (length-vals cs)

  pub Off-below : (p n : ℕ) (cs : Cells A) → n ≤ p → All (λ (c : ℕ × A). c.0 < n) cs → Off p cs
  Off-below p n cs le h = All-imp _ _ cs (λ c lt. ground (arith, lt, le)) h

  pub Distinct-left : (xs ys : Cells A) → Distinct (xs ++ ys) → Distinct xs
  Distinct-left [] ys d = tt
  Distinct-left ((p, v) ∷ xs) ys d = (All-left _ xs ys d.0, Distinct-left xs ys d.1)

  pub Distinct-right : (xs ys : Cells A) → Distinct (xs ++ ys) → Distinct ys
  Distinct-right [] ys d = d
  Distinct-right ((p, v) ∷ xs) ys d = Distinct-right xs ys d.1

  pub Apart-append : (xs ys : Cells A) → Distinct (xs ++ ys) → Apart xs ys
  Apart-append [] ys d = tt
  Apart-append ((p, v) ∷ xs) ys d = (All-right _ xs ys d.0, Apart-append xs ys d.1)

  pub Distinct-append :
      (xs ys : Cells A) → Distinct xs → Distinct ys → Apart xs ys → Distinct (xs ++ ys)
  Distinct-append [] ys d e a = e
  Distinct-append ((p, v) ∷ xs) ys d e a =
      (All-append _ xs ys d.0 a.0, Distinct-append xs ys d.1 e a.1)

  -- Apart, seen from the other side.
  pub Apart-sym_one : (p : ℕ) (v : A) (ys xs : Cells A) → Apart xs ((p, v) ∷ ys) → Off p xs
  Apart-sym_one p v ys xs a = All-imp _ _ xs (λ c h. ==_sym c.0 p h.0) a

  pub Apart-Off : (xs : Cells A) (p : ℕ) (v : A) → Off p xs → Apart xs ((p, v) ∷ [])
  Apart-Off xs p v off = All-imp _ _ xs (λ c h. (==_sym p c.0 h, tt)) off

  pub Apart-swap : (xs ys : Cells A) → Apart xs ys → Apart ys xs
  Apart-swap xs [] a = tt
  Apart-swap xs ((p, v) ∷ ys) a =
      (Apart-sym_one p v ys xs a, Apart-swap xs ys (All-imp _ _ xs (λ c h. h.1) a))
