-- ===== src/Gruppetimer/Stack/Laws.antt =====
-- gruppetimer/uke8/uke8.c: `push` and `pop` on the list are those of a stack.
use in2140_introduksjon_til.Common.Run.{ℤ}
use in2140_introduksjon_til.Common.{
  ==_ne, ℕ, ◌<◌, ◌≡◌, refl, Bool, true, false, none, some, List, [], ◌∷◌, arith,
}
use in2140_introduksjon_til.Gruppetimer.Stack.{
  ◌>>=◌, ◌>>◌, update, new_node, malloc, free_node, set_between, remove_node, push_node, push, pop,
  ran, Nodes, fault,
}
use in2140_introduksjon_til.Gruppetimer.Stack.Chain.{
  Cell, Chain, Falls, Falls-lt, Falls-le, first_of, first_of-link, first_of-lt, first_of-live,
  Chain-relink, IsList,
}

-- The heap after `set_between`.
abbrev between : (left middle right : ℕ) → Nodes → Nodes
between left middle right h = record h {
  next = update (update h.next left (some middle)) middle (some right);
  prev = update (update h.prev middle (some left)) right (some middle);
}

set_between-live :
    (left middle right : ℕ) (h : Nodes)
    → h.live left ≡ true
    → h.live middle ≡ true
    → h.live right ≡ true
    → set_between left middle right h ≡ ran tt (between left middle right h)
unfolding set_between
set_between-live left middle right h l m r = rw (l, ◌>>◌, ◌>>=◌, m, ◌>>◌, ◌>>=◌, m, r) refl

-- The heap with the new node and its value.
abbrev with_new : ℤ → Nodes → Nodes
with_new x h = record (new_node h) { value = update (new_node h).value h.top (some x) }

module _ (memory : ℕ → Bool) (head tail : ℕ) where
  unfoldable push_heap : (h : Nodes) (x : ℤ) (cells : List Cell) → Nodes
  push_heap h x cells = between head h.top (first_of cells tail) (with_new x h)

  push_ran :
      (h : Nodes) (x : ℤ) (cells : List Cell)
      → memory h.top ≡ true
      → IsList h head tail cells
      → push memory head x h ≡ ran tt (push_heap h x cells)
  unfolding push malloc push_node push_heap
  push_ran h x cells room l =
      let first = first_of cells tail in
      let before : first < h.top = first_of-lt h.top cells tail l.falls in
      let old : head < h.top = omega (arith, Falls-lt h.top cells tail l.falls, l.apart) in
      let h' = with_new x h in
      let live : (q : ℕ) → q < h.top → h.live q ≡ true → h'.live q ≡ true = λ q k e. ground arith in
      let itself : h'.live h.top ≡ true = ground arith in
      let link : h'.next head ≡ some first =
        rw (==_ne h.top head (λ e. omega arith)) (first_of-link h head cells tail l.chain) in
      let ends = live head old l.head_live in
      let starts = live first before (first_of-live h head cells tail l.chain l.tail_live) in
      rw (room, ◌>>=◌, itself, link, ◌>>=◌, ends)
        (set_between-live head h.top first h' ends itself starts)

  push-IsList :
      (h : Nodes) (x : ℤ) (cells : List Cell)
      → IsList h head tail cells
      → IsList (push_heap h x cells) head tail ((h.top, x) ∷ cells)
  unfolding push_heap Chain Falls
  push-IsList h x cells l =
      let first = first_of cells tail in
      let before : first < h.top = first_of-lt h.top cells tail l.falls in
      let above : tail < h.top = Falls-lt h.top cells tail l.falls in
      let apart = l.apart in
      let ends = l.head_live in
      let starts = l.tail_live in
      record {
        head_live = ground arith;
        tail_live = ground arith;
        apart = apart;
        falls = (omega arith, l.falls);
        chain = (
          ground arith,
          ground arith,
          ground arith,
          ground arith,
          Chain-relink h (push_heap h x cells) head h.top h.top cells tail l.falls (ground arith)
              (ground arith) (λ q i j. ground arith) (λ q i. ground arith) (λ q i j. ground arith)
              (λ q i j. ground arith) l.chain,
        );
      }

  unfoldable pop_heap : (h : Nodes) (p : ℕ) (cells : List Cell) → Nodes
  pop_heap h p cells = record h {
    next = update h.next head (some (first_of cells tail));
    prev = update h.prev (first_of cells tail) (some head);
    live = update h.live p false;
  }

  pop_ran :
      (h : Nodes) (p : ℕ) (x : ℤ) (cells : List Cell)
      → IsList h head tail ((p, x) ∷ cells)
      → pop head h ≡ ran x (pop_heap h p cells)
  unfolding pop remove_node free_node pop_heap Chain Falls
  pop_ran h p x cells l =
      let (next, prev, value, live, more) = l.chain in
      let link = first_of-link h p cells tail more in
      let right = first_of-live h p cells tail more l.tail_live in
      rw
        (
          l.head_live, next, ◌>>=◌, live, prev, ◌>>=◌, live, link, ◌>>=◌, ◌>>◌, l.head_live, ◌>>=◌,
          right, ◌>>=◌, live, value, ◌>>=◌, ◌>>◌, live,
        )
        refl

  pop-IsList :
      (h : Nodes) (p : ℕ) (x : ℤ) (cells : List Cell)
      → IsList h head tail ((p, x) ∷ cells)
      → IsList (pop_heap h p cells) head tail cells
  unfolding pop_heap Chain Falls
  pop-IsList h p x cells l =
      let (next, prev, value, live, more) = l.chain in
      let (lt, falls) = l.falls in
      let before : first_of cells tail < p = first_of-lt p cells tail falls in
      let above : tail < p = Falls-lt p cells tail falls in
      let apart = l.apart in
      let ends = l.head_live in
      let starts = l.tail_live in
      record {
        head_live = ground arith;
        tail_live = ground arith;
        apart = apart;
        falls = Falls-le p h.top cells tail (omega arith) falls;
        chain =
            Chain-relink h (pop_heap h p cells) p head p cells tail falls (ground arith)
              (ground arith) (λ q i j. ground arith) (λ q i. ground arith) (λ q i j. ground arith)
              (λ q i j. ground arith) more;
      }

  -- `push`, with memory for the node: the number is in front of all others.
  pub push_lem :
      (h : Nodes) (x : ℤ) (cells : List Cell)
      → memory h.top ≡ true
      → IsList h head tail cells
      → (h' : Nodes) × (push memory head x h ≡ ran tt h') × IsList h' head tail ((h.top, x) ∷ cells)
  push_lem h x cells room l =
      (push_heap h x cells, push_ran h x cells room l, push-IsList h x cells l)

  -- `pop` of a list with a number: it returns the number in front and leaves the others.
  pub pop_lem :
      (h : Nodes) (p : ℕ) (x : ℤ) (cells : List Cell)
      → IsList h head tail ((p, x) ∷ cells)
      → (h' : Nodes) × (pop head h ≡ ran x h') × IsList h' head tail cells
  pop_lem h p x cells l = (pop_heap h p cells, pop_ran h p x cells l, pop-IsList h p x cells l)

  -- `pop` of the empty list takes the sentinel behind it off the list: it reads a `next` that was never
  -- set.
  pub pop_empty : (h : Nodes) → IsList h head tail [] → h.next tail ≡ none → pop head h ≡ fault
  unfolding pop remove_node Chain
  pop_empty h l unset =
      rw (l.head_live, l.chain.0, ◌>>=◌, l.tail_live, l.chain.1, ◌>>=◌, l.tail_live, unset) refl
