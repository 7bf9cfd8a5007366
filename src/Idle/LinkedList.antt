-- ===== src/Idle/LinkedList.antt =====
-- internal/idle/linkedlist.go: a doubly linked list on a memory of nodes.
pub mod Segment
pub mod Cells
pub mod Ends
pub mod Removal
pub mod Order
use agile_pool.Prelude.{
  ℕ, zero, suc, ◌-◌, Bool, true, false, ◌&&◌, Option, none, some, ◌==◌, if◌then◌else◌,
}
use agile_pool.Prelude.Update.{update}
use agile_pool.Idle.{IdleContainer, stays}

pub record Node {ℓ} (A : Type ℓ) : Type ℓ where
  pub val : A
  pub next : Option ℕ
  pub prev : Option ℕ

abbrev pub Nodes {ℓ} : Type ℓ → Type ℓ
Nodes A = ℕ → Option (Node A)

-- The nodes below `allocated` are allocated; `none` as a pointer is nil. `faulted` is set where the
-- code goes through a nil pointer.
pub record LinkedList {ℓ} (A : Type ℓ) : Type ℓ where
  pub nodes : Nodes A
  pub allocated : ℕ
  pub head : Option ℕ
  pub tail : Option ℕ
  pub length : ℕ
  pub faulted : Bool

abbrev pub is_nil : Option ℕ → Bool
is_nil none = true
is_nil (some p) = false

abbrev pub same_pointer : Option ℕ → Option ℕ → Bool
same_pointer none none = true
same_pointer (some p) (some q) = p == q
same_pointer p q = false

module _ {ℓ} {A : Type ℓ} where
  pub with_next : Option ℕ → Option (Node A) → Option (Node A)
  with_next q none = none
  with_next q (some n) = some (record n { next = q })

  pub with_prev : Option ℕ → Option (Node A) → Option (Node A)
  with_prev q none = none
  with_prev q (some n) = some (record n { prev = q })

  pub set_next : ℕ → Option ℕ → Nodes A → Nodes A
  set_next p q m = update m p (with_next q (m p))

  pub set_prev : ℕ → Option ℕ → Nodes A → Nodes A
  set_prev p q m = update m p (with_prev q (m p))

  -- `p.next = q` and `p.prev = q`
  pub write_next : Option ℕ → Option ℕ → LinkedList A → LinkedList A
  write_next none q l = record l { faulted = true }
  write_next (some p) q l = record l { nodes = set_next p q l.nodes }

  pub write_prev : Option ℕ → Option ℕ → LinkedList A → LinkedList A
  write_prev none q l = record l { faulted = true }
  write_prev (some p) q l = record l { nodes = set_prev p q l.nodes }

  pub next_in : Option (Node A) → Option ℕ
  next_in none = none
  next_in (some n) = n.next

  pub prev_in : Option (Node A) → Option ℕ
  prev_in none = none
  prev_in (some n) = n.prev

  -- `p.next` and `p.prev`
  pub next_of : Nodes A → Option ℕ → Option ℕ
  next_of m none = none
  next_of m (some p) = next_in (m p)

  pub prev_of : Nodes A → Option ℕ → Option ℕ
  prev_of m none = none
  prev_of m (some p) = prev_in (m p)

  pub new_linked_list : LinkedList A
  new_linked_list = record {
    nodes = λ _. none;
    allocated = 0;
    head = none;
    tail = none;
    length = 0;
    faulted = false;
  }

  -- `newLLNode`, at the address `allocated`
  pub new_ll_node : A → LinkedList A → LinkedList A
  new_ll_node val l = record l {
    nodes = update l.nodes l.allocated (some (record { val = val; next = none; prev = none }));
    allocated = suc l.allocated;
  }

  pub link_back : (prev : Option ℕ) → LinkedList A → LinkedList A
  link_back prev l = let l' = write_prev l.tail prev l in record l' { length = suc l'.length }

  -- Behind a tail.
  pub append : (node : Option ℕ) → LinkedList A → LinkedList A
  append node l =
      let l' = write_next l.tail node l in
      link_back l.tail (record l' { tail = next_of l'.nodes l'.tail })

  pub add : A → LinkedList A → LinkedList A
  add w l =
      let node = some l.allocated in
      let l' = new_ll_node w l in
      if is_nil l'.head && is_nil l'.tail
      then record l' { head = node; tail = node; length = suc l'.length }
      else append node l'

  pub advance : (next : Option ℕ) → LinkedList A → LinkedList A
  advance next l =
      let l' = write_prev next none (record l { head = next }) in
      record l' { length = l'.length - 1 }

  -- The list without its head.
  pub behead : LinkedList A → LinkedList A
  behead l =
      if same_pointer l.head l.tail
      then record l { head = none; tail = none; length = l.length - 1 }
      else advance (next_of l.nodes l.head) l

  pub pop : LinkedList A → Option A × LinkedList A
  pop l = elim l.head [
    | none ↦ (none, l)
    | some p ↦ elim (l.nodes p) [
      | none ↦ (none, record l { faulted = true })
      | some n ↦ (some n.val, behead l)
    ]
  ]

  pub link_prev : Option ℕ → Option ℕ → LinkedList A → LinkedList A
  link_prev none next l = record l { head = next }
  link_prev (some p) next l = write_next (some p) next l

  pub link_next : Option ℕ → Option ℕ → LinkedList A → LinkedList A
  link_next none prev l = record l { tail = prev }
  link_next (some p) prev l = write_prev (some p) prev l

  -- The removed node loses its links.
  pub detach : ℕ → LinkedList A → LinkedList A
  detach p l =
      let l' = write_next (some p) none (write_prev (some p) none l) in
      record l' { length = l'.length - 1 }

  pub remove_node : ℕ → LinkedList A → LinkedList A
  remove_node p l =
      let l1 = link_prev (prev_of l.nodes (some p)) (next_of l.nodes (some p)) l in
      let l2 = link_next (next_of l1.nodes (some p)) (prev_of l1.nodes (some p)) l1 in detach p l2

  pub or_fault : LinkedList A → Option (ℕ × LinkedList A) → ℕ × LinkedList A
  or_fault l none = (0, record l { faulted = true })
  or_fault l (some r) = r

  module _ (date : A → ℕ) where
    -- The loop, with fuel: `none` means that it ran out.
    pub remove_loop :
        ℕ
        → (now expiry : ℕ) (node : Option ℕ) (removed : ℕ) → LinkedList A
        → Option (ℕ × LinkedList A)
    remove_loop fuel now expiry none removed l = some (removed, l)
    remove_loop zero now expiry (some p) removed l = none
    remove_loop (suc fuel) now expiry (some p) removed l = elim (l.nodes p) [
      | none ↦ some (removed, record l { faulted = true })
      | some n ↦ elim (stays date now expiry n.val) [
        | true ↦ remove_loop fuel now expiry n.next removed l
        | false ↦ remove_loop fuel now expiry n.next (suc removed) (remove_node p l)
      ]
    ]

    -- As many rounds as there are nodes in the memory are enough.
    pub remove_expired : (now expiry : ℕ) → LinkedList A → ℕ × LinkedList A
    remove_expired now expiry l = or_fault l (remove_loop l.allocated now expiry l.head 0 l)

    abbrev pub linked_list : IdleContainer A
    linked_list = record {
      State = LinkedList A;
      new = new_linked_list;
      add = add;
      pop = pop;
      remove_expired = remove_expired;
      len = λ l. l.length;
    }
