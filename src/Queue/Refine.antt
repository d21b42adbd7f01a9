-- ===== src/Queue/Refine.antt =====
-- The queue as a list of items.
use snake_posix.Common.{
  ℕ, suc, ◌≤◌, ◌≡◌, refl, sym, ap, ◌∙◌, subst, true, false, Option, none, some, List, [], ◌∷◌, ◌++◌,
}
use snake_posix.Common.{length}
use snake_posix.Common.Outcome.{ok, Returns, Returns-mono, Returns->>=}
use snake_posix.Queue.{
  Node, Nodes, Queue, store, queue_init, queue_is_empty, queue_push, queue_pop, queue_clear,
  free_all,
}
use snake_posix.Queue.Linked.{
  first, last_of, items, Absent, Linked, free-Absent, store-Linked, set_next-Linked, freed-owned,
  new_node, store_self, store_ne, past, past_lem, Absent-split, free_all-Linked,
}

module _ {A : Type 0} where
  abbrev Tail : Option ℕ → List (ℕ × A) → Type 0
  Tail tail [] = Unit
  Tail tail ((a, x) ∷ l) = tail ≡ some (last_of a l)

  -- The queue has these nodes, and the heap has no other.
  pub record Represents (self : Queue A) (l : List (ℕ × A)) : Type 0 where
    pub head_first : self.head ≡ first l
    pub tail_last : Tail self.tail l
    pub linked : Linked self.nodes l
    pub owned : (q : ℕ) → Absent q l → self.nodes q ≡ none

  -- The queue has these items, first to last.
  abbrev pub Holds : Queue A → List A → Type 0
  Holds self xs = (l : List (ℕ × A)) × (items l ≡ xs) × Represents self l

  -- The first of a list of items, and the rest.
  abbrev pub popped : List A → Option A × List A
  popped [] = (none, [])
  popped (x ∷ xs) = (some x, xs)

  empty-Represents :
      (self : Queue A) → ((q : ℕ) → self.nodes q ≡ none) → self.head ≡ none → Represents self []
  empty-Represents self free e = record {
    head_first = e;
    tail_last = tt;
    linked = tt;
    owned = λ q h. free q;
  }

  pub queue_init-Holds :
      (self : Queue A) → ((q : ℕ) → self.nodes q ≡ none) → Holds (queue_init self) []
  unfolding queue_init
  queue_init-Holds self free = ([], refl, empty-Represents _ free refl)

  last_of-append : (l : List (ℕ × A)) (a p : ℕ) (y : A) → last_of a (l ++ (p, y) ∷ []) ≡ p
  last_of-append [] a p y = refl
  last_of-append ((b, z) ∷ l) a p y = last_of-append l b p y

  items-append : (l : List (ℕ × A)) (p : ℕ) (y : A) → items (l ++ (p, y) ∷ []) ≡ items l ++ y ∷ []
  items-append [] p y = refl
  items-append ((b, z) ∷ l) p y = ap (λ xs. z ∷ xs) (items-append l p y)

  length-items : (l : List (ℕ × A)) → length (items l) ≡ length l
  length-items [] = refl
  length-items ((b, z) ∷ l) = ap suc (length-items l)

  push-Represents :
      (self : Queue A) (l : List (ℕ × A)) (p : ℕ) (y : A)
      → Represents self l
      → self.nodes p ≡ none
      → Returns (queue_push p self y) (λ r. Represents r (l ++ (p, y) ∷ []))
  unfolding queue_push
  push-Represents self [] p y h free =
      rw (h.head_first, queue_push)
        (record {
          head_first = refl;
          tail_last = refl;
          linked = (store_self self.nodes p (new_node y), tt, tt);
          owned = λ q (ne, away). store_ne self.nodes p (new_node y) q ne ∙ h.owned q tt;
        })
  push-Represents self ((a, x) ∷ l) p y h free =
      let away = free-Absent self.nodes ((a, x) ∷ l) p h.linked free in
      let (n, e, h', off) = set_next-Linked self.nodes l a x p y h.linked away in
      rw (h.head_first, h.tail_last, e, queue_push)
        (record {
          head_first = h.head_first;
          tail_last = ap some (sym (last_of-append l a p y));
          linked = h';
          owned = λ q away'. off q away' ∙ h.owned q (Absent-split ((a, x) ∷ l) q p y away').0;
        })

  -- A push at a free address adds the item at the end.
  pub queue_push-Holds :
      (self : Queue A) (xs : List A) (p : ℕ) (y : A)
      → Holds self xs
      → self.nodes p ≡ none
      → Returns (queue_push p self y) (λ r. Holds r (xs ++ y ∷ []))
  queue_push-Holds self xs p y (l, e, h) free =
      Returns-mono (queue_push p self y) _ _ (push-Represents self l p y h free)
        (λ r h'. (l ++ (p, y) ∷ [], items-append l p y ∙ ap (λ zs. zs ++ y ∷ []) e, h'))

  rest-Represents :
      (self : Queue A) (a : ℕ) (x : A) (l : List (ℕ × A))
      → Represents self ((a, x) ∷ l)
      → Represents (record self { nodes = store self.nodes a none; head = first l }) l
  rest-Represents self a x l h = record {
    head_first = refl;
    tail_last = rest_tail l h.tail_last;
    linked = store-Linked self.nodes l a none h.linked.2 h.linked.1;
    owned = freed-owned self.nodes a x l h.owned;
  }
    where
      rest_tail : (r : List (ℕ × A)) → self.tail ≡ some (last_of a r) → Tail self.tail r
      rest_tail [] e = tt
      rest_tail ((b, z) ∷ r) e = e

  -- A pop takes the first item, and nothing from a queue with none.
  pub queue_pop-Holds :
      (self : Queue A) (xs : List A)
      → Holds self xs
      → Returns (queue_pop self) (λ r. (r.0 ≡ (popped xs).0) × Holds r.1 (popped xs).1)
  unfolding queue_pop
  queue_pop-Holds self [] ([], e, h) = rw (h.head_first, queue_pop) (refl, ([], refl, h))
  queue_pop-Holds self [] ((a, x) ∷ l, e, h) = absurd (cc)
  queue_pop-Holds self (y ∷ ys) ([], e, h) = absurd (cc)
  queue_pop-Holds self (y ∷ ys) ((a, x) ∷ l, e, h) =
      rw (h.head_first, h.linked.0, queue_pop) (cc, (l, cc, rest-Represents self a x l h))

  pub queue_pop-empty : (self : Queue A) → Holds self [] → queue_pop self ≡ ok (none, self)
  unfolding queue_pop
  queue_pop-empty self ([], e, h) =
      subst (λ p. queue_pop (record self { head = p }) ≡ ok (none, record self { head = p }))
        (sym h.head_first) refl
  queue_pop-empty self ((a, x) ∷ l, e, h) = absurd (cc)

  -- Clearing frees every node.
  pub queue_clear-Holds :
      (fuel : ℕ) (self : Queue A) (xs : List A)
      → Holds self xs
      → length xs ≤ fuel
      → Returns (queue_clear fuel self) (λ r. Holds r [])
  unfolding queue_clear
  queue_clear-Holds fuel self xs (l, e, h) enough =
      let enough' : length l ≤ fuel = rw (sym (length-items l) ∙ ap length e) enough in
      Returns->>= (free_all fuel self.nodes self.head) _ _ _
        (subst (λ p. Returns (free_all fuel self.nodes p) (λ n. (q : ℕ) → n q ≡ none))
          (sym h.head_first) (free_all-Linked fuel self.nodes l h.linked enough' h.owned))
        (λ n free. ([], refl, empty-Represents _ free refl))

  -- An empty queue has no node on the heap.
  pub free-Holds : (self : Queue A) (p : ℕ) → Holds self [] → self.nodes p ≡ none
  free-Holds self p ([], e, h) = h.owned p tt
  free-Holds self p ((a, x) ∷ l, e, h) = absurd (cc)

  pub queue_is_empty-Holds :
      (self : Queue A) (xs : List A)
      → Holds self xs
      → queue_is_empty self ≡ elim xs [ [] ↦ true | y ∷ ys ↦ false ]
  unfolding queue_is_empty
  queue_is_empty-Holds self xs ([], e, h) = rw (h.head_first, sym e) refl
  queue_is_empty-Holds self xs ((a, x) ∷ l, e, h) = rw (h.head_first, sym e) refl

  Linked-unique :
      (nodes : Nodes A) (k l : List (ℕ × A))
      → Linked nodes k
      → Linked nodes l
      → first k ≡ first l
      → items k ≡ items l
  Linked-unique nodes [] [] h i e = refl
  Linked-unique nodes [] ((b, y) ∷ l) h i e = absurd (cc)
  Linked-unique nodes ((a, x) ∷ k) [] h i e = absurd (cc)
  Linked-unique nodes ((a, x) ∷ k) ((b, y) ∷ l) (at_a, _, h) (at_b, _, i) e =
      let at_a' : nodes b ≡ some (record { item = x; next = first k }) = cc in
      let left_ : Node A = record { item = x; next = first k } in
      let right_ : Node A = record { item = y; next = first l } in
      let same : left_ ≡ right_ = cc in
      let rest : items k ≡ items l =
        Linked-unique nodes k l h i (ap (λ (n : Node A). n.next) same) in
      let item : x ≡ y = ap (λ (n : Node A). n.item) same in cc

  -- The items of a queue are determined.
  pub Holds-unique : (self : Queue A) (xs ys : List A) → Holds self xs → Holds self ys → xs ≡ ys
  Holds-unique self xs ys (k, d, h) (l, e, i) =
      sym d ∙ Linked-unique self.nodes k l h.linked i.linked (sym h.head_first ∙ i.head_first) ∙ e

  -- There is room for another node.
  pub free_address :
      (self : Queue A) (xs : List A) → Holds self xs → (p : ℕ) × (self.nodes p ≡ none)
  free_address self xs (l, e, h) = (past l, h.owned (past l) (past_lem l))
