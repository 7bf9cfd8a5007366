-- ===== src/Idle/Treap.antt =====
-- internal/idle/treap.go: a search tree by date. Each node has one owner, so the tree is a data type
-- and its pointers leave no trace; the pool of nodes only saves allocations. `rand k` is what call
-- number `k` of `rand.Int` returns.
pub mod Split
pub mod Order
use agile_pool.Prelude.{
  ℕ, suc, ◌+◌, ◌-◌, Bool, true, false, Option, none, some, List, [], ◌∷◌, ◌++◌, ltb,
}
use agile_pool.Idle.{IdleContainer}

-- A nil pointer is a leaf.
pub data Tree {ℓ} (A : Type ℓ) : Type ℓ where
  leaf : Tree A
  node : (left : Tree A) (value : A) (priority : ℕ) (right : Tree A) → Tree A

pub record Treap {ℓ} (A : Type ℓ) : Type ℓ where
  pub root : Tree A
  pub size : ℕ
  pub drawn : ℕ  -- calls of `rand.Int` so far

module _ {ℓ} {A : Type ℓ} where
  pub merge : Tree A → Tree A → Tree A
  merge leaf r = r
  merge (node ll lv lp lr) leaf = node ll lv lp lr
  merge (node ll lv lp lr) (node rl rv rp rr) = elim (ltb lp rp) [
    | true ↦ node ll lv lp (merge lr (node rl rv rp rr))
    | false ↦ node (merge (node ll lv lp lr) rl) rv rp rr
  ]

  -- How many nodes `removeTree` gives back.
  pub remove_tree : Tree A → ℕ
  remove_tree leaf = 0
  remove_tree (node l v p r) = suc (remove_tree l + remove_tree r)

  -- The leftmost value of a tree that has a root, and the tree without it.
  pub take_least : Tree A → A → ℕ → Tree A → A × Tree A
  take_least leaf v p r = (v, r)
  take_least (node ll lv lp lr) v p r =
      let (least, rest) = take_least ll lv lp lr in (least, node rest v p r)

  pub pop : Treap A → Option A × Treap A
  unfolding take_least
  pop t = elim t.root [
    | leaf ↦ (none, t)
    | node l v p r ↦
        let (least, rest) = take_least l v p r in
        (some least, record t { root = rest; size = t.size - 1 })
  ]

  module _ (date : A → ℕ) where
    -- Values with a date after `k` go to the right.
    pub split : Tree A → ℕ → Tree A × Tree A
    split leaf k = (leaf, leaf)
    split (node l v p r) k = elim (ltb k (date v)) [
      | true ↦ let (left, rest) = split l k in (left, node rest v p r)
      | false ↦ let (rest, right) = split r k in (node l v p rest, right)
    ]

    pub remove_expired : (now expiry : ℕ) → Treap A → ℕ × Treap A
    remove_expired now expiry t =
        let (left_tree, right_tree) = split t.root (now - expiry) in
        let size = t.size - remove_tree left_tree in
        (t.size - size, record t { root = right_tree; size = size })

    module _ (rand : ℕ → ℕ) where
      pub add : A → Treap A → Treap A
      add work t =
          let (left, right) = split t.root (date work) in
          record {
            root = merge left (merge (node leaf work (rand t.drawn) leaf) right);
            size = suc t.size;
            drawn = suc t.drawn;
          }

      pub treap : IdleContainer A
      treap = record {
        State = Treap A;
        new = record { root = leaf; size = 0; drawn = 0 };
        add = add;
        pop = pop;
        remove_expired = remove_expired;
        len = λ t. t.size;
      }

  pub inorder : Tree A → List A
  inorder leaf = []
  inorder (node l v p r) = inorder l ++ v ∷ inorder r
