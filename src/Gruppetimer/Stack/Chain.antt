-- ===== src/Gruppetimer/Stack/Chain.antt =====
-- gruppetimer/uke8/uke8.c: when the nodes between the sentinels hold a stack of numbers.
use in2140_introduksjon_til.Common.Run.{ℤ}
use in2140_introduksjon_til.Common.{ℕ, ◌≤◌, ◌<◌, ◌≡◌, ◌∙◌, true, some, List, [], ◌∷◌, arith}
use in2140_introduksjon_til.Gruppetimer.Stack.{Nodes}

-- A node's address and its value.
abbrev pub Cell : Type 0
Cell = ℕ × ℤ

-- From `a` to `b` by way of the cells, forwards and backwards.
unfoldable pub Chain : Nodes → ℕ → List Cell → ℕ → Type 0
Chain h a [] b = (h.next a ≡ some b) × (h.prev b ≡ some a)
Chain h a ((p, x) ∷ cells) b =
    (h.next a ≡ some p)
    × (h.prev p ≡ some a)
    × (h.value p ≡ some x)
    × (h.live p ≡ true)
    × Chain h p cells b

-- The addresses fall from below `k` to above `b`: a node in front of another one is younger.
unfoldable pub Falls : ℕ → List Cell → ℕ → Type 0
Falls k [] b = b < k
Falls k ((p, x) ∷ cells) b = (p < k) × Falls p cells b

-- The list between `head` and `tail` holds the cells.
pub record IsList (h : Nodes) (head tail : ℕ) (cells : List Cell) : Type 0 where
  pub head_live : h.live head ≡ true
  pub tail_live : h.live tail ≡ true
  pub apart : head < tail
  pub falls : Falls h.top cells tail
  pub chain : Chain h head cells tail

pub Falls-lt : (k : ℕ) (cells : List Cell) (b : ℕ) → Falls k cells b → b < k
unfolding Falls
Falls-lt k [] b f = f
Falls-lt k ((p, x) ∷ cells) b (lt, f) = omega (arith, Falls-lt p cells b f)

pub Falls-le : (k l : ℕ) (cells : List Cell) (b : ℕ) → k ≤ l → Falls k cells b → Falls l cells b
unfolding Falls
Falls-le k l [] b h f = omega arith
Falls-le k l ((p, x) ∷ cells) b h (lt, f) = (omega arith, f)

-- A change that leaves the links behind `a` alone leaves the chain from `a` on.
pub Chain-frame :
    (h h' : Nodes) (a : ℕ) (cells : List Cell) (b : ℕ)
    → Falls a cells b
    → ((q : ℕ) → b < q → q ≤ a → h'.next q ≡ h.next q)
    → ((q : ℕ) → q < a → h'.prev q ≡ h.prev q)
    → ((q : ℕ) → b < q → q < a → h'.value q ≡ h.value q)
    → ((q : ℕ) → b < q → q < a → h'.live q ≡ h.live q)
    → Chain h a cells b
    → Chain h' a cells b
unfolding Chain Falls
Chain-frame h h' a [] b f next prev value live (n, p) = (next a f (omega arith) ∙ n, prev b f ∙ p)
Chain-frame h h' a ((c, x) ∷ cells) b (lt, f) next prev value live (n, p, v, l, more) =
    let below = Falls-lt c cells b f in
    (
      next a (omega arith) (omega arith) ∙ n,
      prev c lt ∙ p,
      value c below lt ∙ v,
      live c below lt ∙ l,
      Chain-frame h h' c cells b f (λ q k m. next q k (omega arith)) (λ q k. prev q (omega arith))
          (λ q k m. value q k (omega arith)) (λ q k m. live q k (omega arith)) more,
    )

-- The address that the first link points to.
unfoldable pub first_of : List Cell → ℕ → ℕ
first_of [] b = b
first_of ((p, x) ∷ cells) b = p

pub first_of-link :
    (h : Nodes) (a : ℕ) (cells : List Cell) (b : ℕ)
    → Chain h a cells b
    → h.next a ≡ some (first_of cells b)
unfolding Chain first_of
first_of-link h a [] b c = c.0
first_of-link h a ((p, x) ∷ cells) b c = c.0

pub first_of-lt : (k : ℕ) (cells : List Cell) (b : ℕ) → Falls k cells b → first_of cells b < k
unfolding Falls first_of
first_of-lt k [] b f = f
first_of-lt k ((p, x) ∷ cells) b f = f.0

pub first_of-live :
    (h : Nodes) (a : ℕ) (cells : List Cell) (b : ℕ)
    → Chain h a cells b
    → h.live b ≡ true
    → h.live (first_of cells b) ≡ true
unfolding Chain first_of
first_of-live h a [] b c l = l
first_of-live h a ((p, x) ∷ cells) b c l = c.3

-- The chain from another node on, when that node and the first cell are linked.
pub Chain-relink :
    (h h' : Nodes) (a a' k : ℕ) (cells : List Cell) (b : ℕ)
    → Falls k cells b
    → h'.next a' ≡ some (first_of cells b)
    → h'.prev (first_of cells b) ≡ some a'
    → ((q : ℕ) → b < q → q < k → h'.next q ≡ h.next q)
    → ((q : ℕ) → q < first_of cells b → h'.prev q ≡ h.prev q)
    → ((q : ℕ) → b < q → q < k → h'.value q ≡ h.value q)
    → ((q : ℕ) → b < q → q < k → h'.live q ≡ h.live q)
    → Chain h a cells b
    → Chain h' a' cells b
unfolding Chain Falls first_of
Chain-relink h h' a a' k [] b f n p next prev value live c = (n, p)
Chain-relink h h' a a' k ((q, x) ∷ cells) b (lt, f) n p next prev value live (_, _, v, l, more) =
    let below = Falls-lt q cells b f in
    (
      n,
      p,
      value q below lt ∙ v,
      live q below lt ∙ l,
      Chain-frame h h' q cells b f (λ r i j. next r i (omega arith)) prev
          (λ r i j. value r i (omega arith)) (λ r i j. live r i (omega arith)) more,
    )
