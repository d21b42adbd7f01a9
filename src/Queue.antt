-- ===== src/Queue.antt =====
-- `libsnake/queue.h`, the queue that its macros define for a type of items: nodes on the heap, with
-- a pointer to the first and to the last.
pub mod Linked
pub mod Refine
pub mod Operations
use package.snake_posix.Common.{
  ℕ, zero, suc, ◌+◌, ◌-◌, ◌*◌, ◌/◌, ◌%◌, ◌^◌, ◌≤◌, ◌<◌, ◌≡◌, refl, sym, ap, ◌∙◌, subst, ◌≢◌, ◌↔◌,
  ◌⊎◌, inl, inr, arith, Bool, true, false, not, ◌&&◌, ◌||◌, ◌==◌, ltb, leb, if◌then◌else◌, if_intro,
  Bool-cases, ==-refl, ==→≡, ==→≢, Option, none, some, Option-cases, List, [], ◌∷◌, ◌++◌,
}
use package.snake_posix.Common.Outcome.{Outcome, ok, ◌>>=◌, undefined, stuck}

-- `queue_T_node_t`. `NULL` is `none`.
pub record Node {ℓ} (A : Type ℓ) : Type ℓ where
  pub item : A
  pub next : Option ℕ

-- The nodes that are allocated.
abbrev pub Nodes {ℓ} : Type ℓ → Type ℓ
Nodes A = ℕ → Option (Node A)

-- A queue with the heap that its nodes are in.
pub record Queue {ℓ} (A : Type ℓ) : Type ℓ where
  pub nodes : Nodes A
  pub head : Option ℕ
  pub tail : Option ℕ

module _ {ℓ} {A : Type ℓ} where
  abbrev pub store : Nodes A → ℕ → Option (Node A) → Nodes A
  store nodes p content q = if q == p then content else nodes q

  unfoldable pub queue_init : Queue A → Queue A
  queue_init self = record self { head = none; tail = none }

  unfoldable pub queue_is_empty : Queue A → Bool
  queue_is_empty self = elim self.head [ none ↦ true | some p ↦ false ]

  -- The write to `next_` of the node that a pointer leads to; undefined where it leads to no node.
  unfoldable pub set_next : Nodes A → Option ℕ → Option ℕ → Outcome (Nodes A)
  set_next nodes none next = undefined
  set_next nodes (some p) next = elim (nodes p) [
    | none ↦ undefined
    | some node ↦ ok (store nodes p (some (record node { next = next })))
  ]

  -- `node` is the address that `malloc` returns.
  unfoldable pub queue_push : ℕ → Queue A → A → Outcome (Queue A)
  queue_push node self item =
      let nodes = store self.nodes node (some (record { item = item; next = none })) in
      elim self.head [
        | none ↦ ok (record { nodes = nodes; head = some node; tail = some node })
        | some p ↦
            set_next nodes self.tail (some node)
            >>= (λ linked. ok (record self { nodes = linked; tail = some node }))
      ]

  -- The item is `none` where nothing is popped.
  unfoldable pub queue_pop : Queue A → Outcome (Option A × Queue A)
  queue_pop self = elim self.head [
    | none ↦ ok (none, self)
    | some p ↦ elim (self.nodes p) [
      | none ↦ undefined
      | some node ↦
          ok (some node.item, record self { nodes = store self.nodes p none; head = node.next })
    ]
  ]

  -- The loop of `queue_T_clear`, for at most `fuel` nodes.
  unfoldable pub free_all : ℕ → Nodes A → Option ℕ → Outcome (Nodes A)
  free_all fuel nodes none = ok nodes
  free_all zero nodes (some p) = stuck
  free_all (suc fuel) nodes (some p) = elim (nodes p) [
    | none ↦ undefined
    | some node ↦ free_all fuel (store nodes p none) node.next
  ]

  unfoldable pub queue_clear : ℕ → Queue A → Outcome (Queue A)
  queue_clear fuel self =
      free_all fuel self.nodes self.head
      >>= (λ nodes. ok (record { nodes = nodes; head = none; tail = none }))
