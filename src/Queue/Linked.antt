-- ===== src/Queue/Linked.antt =====
-- The nodes of a queue, one after the other.
use snake_posix.Common.{
  ℕ, zero, suc, ◌+◌, ◌≤◌, ◌≡◌, refl, sym, ◌∙◌, subst, ◌≢◌, arith, ◌==◌, if_intro, ==-refl, ==→≡,
  ==→≢, Option, none, some, List, [], ◌∷◌, ◌++◌,
}
use snake_posix.Common.{length}
use snake_posix.Common.Outcome.{ok, Returns}
use snake_posix.Queue.{Node, Nodes, store, set_next, free_all}

module _ {A : Type 0} where
  -- The pointer to the first of a list of nodes, each with its address.
  abbrev pub first : List (ℕ × A) → Option ℕ
  first [] = none
  first ((a, x) ∷ l) = some a

  abbrev pub last_of : ℕ → List (ℕ × A) → ℕ
  last_of a [] = a
  last_of a ((b, y) ∷ l) = last_of b l

  abbrev pub items : List (ℕ × A) → List A
  items [] = []
  items ((a, x) ∷ l) = x ∷ items l

  abbrev pub new_node : A → Option (Node A)
  new_node y = some (record { item = y; next = none })

  -- No node of the list is at the address.
  abbrev pub Absent : ℕ → List (ℕ × A) → Type 0
  Absent a [] = Unit
  Absent a ((b, y) ∷ l) = (a ≢ b) × Absent a l

  -- The heap has the nodes of the list, each at an address of its own and leading to the next.
  abbrev pub Linked : Nodes A → List (ℕ × A) → Type 0
  Linked nodes [] = Unit
  Linked nodes ((a, x) ∷ l) =
      (nodes a ≡ some (record { item = x; next = first l })) × Absent a l × Linked nodes l

  pub store_self : (nodes : Nodes A) (p : ℕ) (c : Option (Node A)) → store nodes p c p ≡ c
  store_self nodes p c = rw (==-refl p) refl

  pub store_ne :
      (nodes : Nodes A) (p : ℕ) (c : Option (Node A)) (q : ℕ) → q ≢ p → store nodes p c q ≡ nodes q
  store_ne nodes p c q ne =
      if_intro (λ v. v ≡ nodes q) (q == p) c (nodes q) (λ e. absurd (ne (==→≡ q p e))) (λ e. refl)

  -- An address that holds no node is none of the list's.
  pub free-Absent :
      (nodes : Nodes A) (l : List (ℕ × A)) (p : ℕ) → Linked nodes l → nodes p ≡ none → Absent p l
  free-Absent nodes [] p h e = tt
  free-Absent nodes ((a, x) ∷ l) p (at_a, _, rest) e = (
    λ same. let e' : nodes a ≡ none = subst (λ q. nodes q ≡ none) same e in cc,
    free-Absent nodes l p rest e,
  )

  -- A write elsewhere keeps the nodes.
  pub store-Linked :
      (nodes : Nodes A) (l : List (ℕ × A)) (p : ℕ) (c : Option (Node A))
      → Linked nodes l
      → Absent p l
      → Linked (store nodes p c) l
  store-Linked nodes [] p c h away = tt
  store-Linked nodes ((a, x) ∷ l) p c (at_a, once, rest) (ne, away) =
      (store_ne nodes p c a (λ e. ne (sym e)) ∙ at_a, once, store-Linked nodes l p c rest away)

  Absent-append :
      (l : List (ℕ × A)) (a p : ℕ) (y : A) → Absent a l → a ≢ p → Absent a (l ++ (p, y) ∷ [])
  Absent-append [] a p y h ne = (ne, tt)
  Absent-append ((b, z) ∷ l) a p y (ne', h) ne = (ne', Absent-append l a p y h ne)

  Absent-last_of : (l : List (ℕ × A)) (a b : ℕ) (z : A) → Absent a ((b, z) ∷ l) → a ≢ last_of b l
  Absent-last_of [] a b z (ne, h) = ne
  Absent-last_of ((c, w) ∷ l) a b z (ne, h) = Absent-last_of l a c w h

  last_item : A → List (ℕ × A) → A
  last_item x [] = x
  last_item x ((b, z) ∷ l) = last_item z l

  last_node :
      (nodes : Nodes A) (l : List (ℕ × A)) (a : ℕ) (x : A)
      → Linked nodes ((a, x) ∷ l)
      → nodes (last_of a l) ≡ some (record { item = last_item x l; next = none })
  unfolding last_item
  last_node nodes [] a x (at_a, _, _) = at_a
  last_node nodes ((b, z) ∷ l) a x (_, _, rest) = last_node nodes l b z rest

  abbrev linked_on : Nodes A → ℕ → ℕ → A → A → Nodes A
  linked_on nodes t p x y =
      store (store nodes p (new_node y)) t (some (record { item = x; next = some p }))

  -- The new node is the last, once the last of before leads to it.
  append-Linked :
      (nodes : Nodes A) (l : List (ℕ × A)) (a : ℕ) (x : A) (p : ℕ) (y : A)
      → Linked nodes ((a, x) ∷ l)
      → Absent p ((a, x) ∷ l)
      → Linked (linked_on nodes (last_of a l) p (last_item x l) y) (((a, x) ∷ l) ++ (p, y) ∷ [])
  unfolding last_item
  append-Linked nodes [] a x p y (at_a, once, rest) (ne, away) = (
    store_self (store nodes p (new_node y)) a (some (record { item = x; next = some p })),
    (λ e. ne (sym e), tt),
    (
      store_ne (store nodes p (new_node y)) a (some (record { item = x; next = some p })) p ne
          ∙ store_self nodes p (new_node y),
      tt,
      tt,
    ),
  )
  append-Linked nodes ((b, z) ∷ l) a x p y (at_a, once, rest) (ne, away) = (
    store_ne (store nodes p (new_node y)) (last_of b l)
          (some (record { item = last_item z l; next = some p })) a (Absent-last_of l a b z once)
        ∙ store_ne nodes p (new_node y) a (λ e. ne (sym e))
        ∙ at_a,
    Absent-append ((b, z) ∷ l) a p y once (λ e. ne (sym e)),
    append-Linked nodes l b z p y rest away,
  )

  pub Absent-split :
      (l : List (ℕ × A)) (q p : ℕ) (y : A) → Absent q (l ++ (p, y) ∷ []) → Absent q l × (q ≢ p)
  Absent-split [] q p y (ne, h) = (tt, ne)
  Absent-split ((b, z) ∷ l) q p y (ne', h) =
      let (h', ne) = Absent-split l q p y h in ((ne', h'), ne)

  set_next_lem :
      (nodes : Nodes A) (t : ℕ) (next : Option ℕ) (node : Node A)
      → nodes t ≡ some node
      → set_next nodes (some t) next ≡ ok (store nodes t (some (record node { next = next })))
  unfolding set_next
  set_next_lem nodes t next node e = rw (e, set_next) refl

  -- The last node is there to be linked to the new one.
  pub set_next-Linked :
      (nodes : Nodes A) (l : List (ℕ × A)) (a : ℕ) (x : A) (p : ℕ) (y : A)
      → Linked nodes ((a, x) ∷ l)
      → Absent p ((a, x) ∷ l)
      → (linked : Nodes A) × (set_next (store nodes p (new_node y)) (some (last_of a l)) (some p)
          ≡ ok linked)
        × Linked linked (((a, x) ∷ l) ++ (p, y) ∷ [])
        × ((q : ℕ) → Absent q (((a, x) ∷ l) ++ (p, y) ∷ []) → linked q ≡ nodes q)
  set_next-Linked nodes l a x p y h away = (
    linked_on nodes (last_of a l) p (last_item x l) y,
    set_next_lem _ (last_of a l) (some p) _ (
        store_ne nodes p _ (last_of a l) (λ e. Absent-last_of l p a x away (sym e))
        ∙ last_node nodes l a x h),
    append-Linked nodes l a x p y h away,
    λ q off.
        let (off', ne) = Absent-split ((a, x) ∷ l) q p y off in
        store_ne (store nodes p (new_node y)) (last_of a l)
          (some (record { item = last_item x l; next = some p })) q (Absent-last_of l q a x off')
        ∙ store_ne nodes p (new_node y) q ne,
  )

  -- What is freed belongs to the list no more.
  pub freed-owned :
      (nodes : Nodes A) (a : ℕ) (x : A) (l : List (ℕ × A))
      → ((q : ℕ) → Absent q ((a, x) ∷ l) → nodes q ≡ none)
      → (q : ℕ) → Absent q l
      → store nodes a none q ≡ none
  freed-owned nodes a x l owned q away =
      if_intro (λ v. v ≡ none) (q == a) none (nodes q) (λ e. refl) (λ e. owned q (==→≢ q a e, away))

  -- The loop frees each node of the list and no other.
  pub free_all-Linked :
      (fuel : ℕ) (nodes : Nodes A) (l : List (ℕ × A))
      → Linked nodes l
      → length l ≤ fuel
      → ((q : ℕ) → Absent q l → nodes q ≡ none)
      → Returns (free_all fuel nodes (first l)) (λ n. (q : ℕ) → n q ≡ none)
  unfolding free_all
  free_all-Linked zero nodes [] h enough owned = λ q. owned q tt
  free_all-Linked (suc fuel) nodes [] h enough owned = λ q. owned q tt
  free_all-Linked zero nodes ((a, x) ∷ l) h enough owned = absurd (omega arith)
  free_all-Linked (suc fuel) nodes ((a, x) ∷ l) (at_a, once, rest) enough owned =
      rw (at_a, free_all)
        (free_all-Linked fuel (store nodes a none) l (store-Linked nodes l a none rest once)
          (omega arith) (freed-owned nodes a x l owned))

  -- An address past those of the list.
  pub past : List (ℕ × A) → ℕ
  past [] = 0
  past ((a, x) ∷ l) = suc (a + past l)

  past-Absent : (p : ℕ) (l : List (ℕ × A)) → past l ≤ p → Absent p l
  unfolding past
  past-Absent p [] h = tt
  past-Absent p ((a, x) ∷ l) h = (λ e. absurd (omega arith), past-Absent p l (omega arith))

  pub past_lem : (l : List (ℕ × A)) → Absent (past l) l
  past_lem l = past-Absent (past l) l (omega arith)
