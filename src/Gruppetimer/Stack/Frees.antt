-- ===== src/Gruppetimer/Stack/Frees.antt =====
-- gruppetimer/uke8/uke8.c: what `free_list` releases.
use in2140_introduksjon_til.Common.{
  ==_self, ==_ne, length, All, ℕ, zero, suc, ◌≤◌, ◌≡◌, refl, ◌∙◌, ◌⊎◌, inl, inr, false, List, [],
  ◌∷◌, arith,
}
use in2140_introduksjon_til.Gruppetimer.Stack.{
  ◌>>=◌, ◌>>◌, update, free_node, free_from, free_list, ran, Nodes,
}
use in2140_introduksjon_til.Gruppetimer.Stack.Chain.{
  Cell, Chain, Falls, Falls-lt, Chain-frame, first_of, first_of-link, IsList,
}

abbrev released : ℕ → Nodes → Nodes
released p h = record h { live = update h.live p false }

released-Chain :
    (h : Nodes) (p : ℕ) (cells : List Cell) (tail : ℕ)
    → Falls p cells tail
    → Chain h p cells tail
    → Chain (released p h) p cells tail
released-Chain h p cells tail f c =
    Chain-frame h (released p h) p cells tail f (λ q i j. refl) (λ q i. refl) (λ q i j. refl)
      (λ q i j. ground arith) c

-- The nodes of the cells are not allocated.
abbrev pub Released : Nodes → List Cell → Type 0
Released h = All (λ c. h.live c.0 ≡ false)

free_from-Chain :
    (fuel k tail : ℕ) (h : Nodes) (a : ℕ) (cells : List Cell)
    → Falls k cells tail
    → Chain h a cells tail
    → length cells ≤ fuel
    → (h' : Nodes) × (free_from fuel tail (first_of cells tail) h ≡ ran tt h')
      × Released h' cells
      × ((q : ℕ) → (q ≤ tail) ⊎ (k ≤ q) → h'.live q ≡ h.live q)
unfolding free_from free_node Chain Falls first_of
free_from-Chain zero k tail h a [] f c enough = (h, rw (==_self tail) refl, tt, λ q i. refl)
free_from-Chain (suc fuel) k tail h a [] f c enough = (h, rw (==_self tail) refl, tt, λ q i. refl)
free_from-Chain zero k tail h a (c ∷ cells) f l enough = absurd (omega arith)
free_from-Chain (suc fuel) k tail h a ((p, x) ∷ cells) (lt, f) (_, _, _, live, more) enough =
    let above = Falls-lt p cells tail f in
    let (h', freed, dead, same) =
      free_from-Chain fuel p tail (released p h) p cells f (released-Chain h p cells tail f more)
        (omega arith) in
    (
      h',
      rw
          (
            ==_ne p tail (λ e. omega arith),
            live,
            first_of-link h p cells tail more,
            ◌>>=◌,
            ◌>>◌,
            live,
            ◌>>=◌,
            freed,
          )
          refl,
      (same p (inr (omega arith)) ∙ rw (==_self p) refl, dead),
      λ q i. same q (ground arith) ∙ ground arith,
    )

released-All :
    (p : ℕ) (h : Nodes) (cells : List Cell) → Released h cells → Released (released p h) cells
released-All p h [] r = tt
released-All p h ((q, x) ∷ cells) (dead, r) = (ground arith, released-All p h cells r)

-- `free_list` releases the nodes of the list and both sentinels; as many rounds as the list has nodes
-- are enough.
pub free_list-IsList :
    (fuel head tail : ℕ) (h : Nodes) (cells : List Cell)
    → IsList h head tail cells
    → length cells ≤ fuel
    → (h' : Nodes) × (free_list fuel head tail h ≡ ran tt h')
      × (h'.live head ≡ false)
      × (h'.live tail ≡ false)
      × Released h' cells
unfolding free_list free_node
free_list-IsList fuel head tail h cells l enough =
    let apart = l.apart in
    let (h', freed, dead, same) =
      free_from-Chain fuel h.top tail h head cells l.falls l.chain enough in
    let ends = same head (inl (omega arith)) ∙ l.head_live in
    let starts = same tail (inl (omega arith)) ∙ l.tail_live in
    (
      released tail (released head h'),
      rw
          (
            l.head_live,
            first_of-link h head cells tail l.chain,
            ◌>>=◌,
            ◌>>◌,
            freed,
            ◌>>=◌,
            ◌>>◌,
            ends,
            ◌>>=◌,
          )
          (rw (==_ne head tail (λ e. omega arith), starts) refl),
      ground arith,
      ground arith,
      released-All tail (released head h') cells (released-All head h' cells dead),
    )
