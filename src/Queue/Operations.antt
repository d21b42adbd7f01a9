-- ===== src/Queue/Operations.antt =====
-- The operations of `libsnake/queue.h` beside those of a list.
use snake_posix.Common.{ℕ, ◌≤◌, ◌≡◌, refl, Option, none, List, [], ◌∷◌, ◌++◌}
use snake_posix.Common.{length}
use snake_posix.Common.Outcome.{Outcome, ok, ◌>>=◌, Returns, Returns->>=}
use snake_posix.Queue.{Queue, queue_push, queue_pop, queue_clear}
use snake_posix.Queue.Refine.{Holds, popped, queue_push-Holds, queue_pop-Holds, queue_clear-Holds}

-- A call of an operation; a push is at the address that `malloc` returns.
pub data Operation (A : Type 0) : Type 0 where
  push : (node : ℕ) → A → Operation A
  pop clear : Operation A

module _ {A : Type 0} where
  -- The item of a pop, and the queue after; the fuel is for `queue_clear`.
  abbrev pub perform : ℕ → Operation A → Queue A → Outcome (Option A × Queue A)
  perform fuel (push node item) self = queue_push node self item >>= (λ queue. ok (none, queue))
  perform fuel pop self = queue_pop self
  perform fuel clear self = queue_clear fuel self >>= (λ queue. ok (none, queue))

  -- The same for a list.
  abbrev pub specified : Operation A → List A → Option A × List A
  specified (push node item) xs = (none, xs ++ item ∷ [])
  specified pop xs = popped xs
  specified clear xs = (none, [])

  -- A new node is at an address that holds none.
  abbrev pub Allocates : Operation A → Queue A → Type 0
  Allocates (push node item) self = self.nodes node ≡ none
  Allocates pop self = Unit
  Allocates clear self = Unit

  -- A queue that holds the items of a list, with fuel for as many, does what the list does: no
  -- operation follows a dangling pointer, the item is that of the list, and so are the items
  -- afterwards, besides which no node is on the heap. A new node is at an address that holds
  -- none.
  pub perform-Holds :
      (fuel : ℕ) (op : Operation A) (self : Queue A) (xs : List A)
      → Holds self xs
      → length xs ≤ fuel
      → Allocates op self
      → Returns
          (perform fuel op self)
          (λ r. (r.0 ≡ (specified op xs).0) × Holds r.1 (specified op xs).1)
  perform-Holds fuel (push node item) self xs holds enough free =
      Returns->>= (queue_push node self item) _ _ _ (queue_push-Holds self xs node item holds free)
        (λ queue h. (refl, h))
  perform-Holds fuel pop self xs holds enough free = queue_pop-Holds self xs holds
  perform-Holds fuel clear self xs holds enough free =
      Returns->>= (queue_clear fuel self) _ _ _ (queue_clear-Holds fuel self xs holds enough)
        (λ queue h. (refl, h))
