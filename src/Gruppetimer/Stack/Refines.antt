-- ===== src/Gruppetimer/Stack/Refines.antt =====
-- gruppetimer/uke8/uke8.c: sequences of `push` and `pop`, and what is printed.
use in2140_introduksjon_til.Gruppetimer.Stack.Laws.{push_lem, pop_lem}
use in2140_introduksjon_til.Common.Run.{ℤ}
use in2140_introduksjon_til.Common.{
  ==_self, ==_ne, length, ℕ, zero, suc, ◌≤◌, ◌≡◌, refl, subst, Bool, true, Option, none, some, List,
  [], ◌∷◌, map, arith,
}
use in2140_introduksjon_til.Gruppetimer.Stack.{
  Step, pure, ◌>>=◌, ◌>>◌, push, pop, print_from, print_list, ran, Nodes, Ran,
}
use in2140_introduksjon_til.Gruppetimer.Stack.Chain.{
  Cell, Chain, Falls, Falls-lt, first_of, first_of-link, IsList,
}

-- A call, and what the calls do to a stack of numbers: the numbers that `pop` returns, and the stack
-- in the end; `none` where a call takes a number off the empty stack.
pub data Call : Type 0 where
  pushes : ℤ → Call
  pops : Call

abbrev pub with_output : ℤ → Option (List ℤ × List ℤ) → Option (List ℤ × List ℤ)
with_output x none = none
with_output x (some (out, stack)) = some (x ∷ out, stack)

unfoldable pub on_stack : List Call → List ℤ → Option (List ℤ × List ℤ)
on_stack [] stack = some ([], stack)
on_stack (pushes x ∷ cs) stack = on_stack cs (x ∷ stack)
on_stack (pops ∷ cs) [] = none
on_stack (pops ∷ cs) (x ∷ stack) = with_output x (on_stack cs stack)

-- The calls on the list.
unfoldable pub on_list : (memory : ℕ → Bool) → (head : ℕ) → List Call → Step (List ℤ)
on_list memory head [] = pure []
on_list memory head (pushes x ∷ cs) = do push memory head x; on_list memory head cs
on_list memory head (pops ∷ cs) = do x ← pop head; out ← on_list memory head cs; pure (x ∷ out)

abbrev pub values : List Cell → List ℤ
values = map (λ c. c.1)

-- What the calls return on the list, when the stack has a result.
unfoldable Refines : (head tail : ℕ) → Ran (List ℤ) → Option (List ℤ × List ℤ) → Type 0
Refines head tail r none = Unit
Refines head tail r (some (out, stack)) =
    (h : Nodes) × (cells : List Cell) × (r ≡ ran out h)
    × IsList h head tail cells
    × (values cells ≡ stack)

Refines-output :
    (head tail : ℕ) (x : ℤ) (m : Step (List ℤ)) (h : Nodes) (o : Option (List ℤ × List ℤ))
    → Refines head tail (m h) o
    → Refines head tail ((m >>= λ out. pure (x ∷ out)) h) (with_output x o)
unfolding Refines
Refines-output head tail x m h none r = tt
Refines-output head tail x m h (some (out, stack)) (h', cells, e, l, v) =
    (h', cells, rw (e, ◌>>=◌) refl, l, v)

module _ (memory : ℕ → Bool) (enough : (p : ℕ) → memory p ≡ true) (head tail : ℕ) where
  on_list-Refines :
      (cs : List Call) (h : Nodes) (cells : List Cell)
      → IsList h head tail cells
      → Refines head tail (on_list memory head cs h) (on_stack cs (values cells))
  unfolding on_list on_stack Refines
  on_list-Refines [] h cells l = (h, cells, refl, l, refl)
  on_list-Refines (pushes x ∷ cs) h cells l =
      let (h', pushed, l') = push_lem memory head tail h x cells (enough h.top) l in
      rw (pushed, ◌>>=◌) (on_list-Refines cs h' ((h.top, x) ∷ cells) l')
  on_list-Refines (pops ∷ cs) h [] l = tt
  on_list-Refines (pops ∷ cs) h ((p, x) ∷ cells) l =
      let (h', popped, l') = pop_lem memory head tail h p x cells l in
      rw (popped, ◌>>=◌)
        (Refines-output head tail x (on_list memory head cs) h' (on_stack cs (values cells))
          (on_list-Refines cs h' cells l'))

  -- Any sequence of `push` and `pop` on the list between the sentinels, as long as `malloc` has memory.
  -- Where the same calls on a stack of numbers never take a number off the empty stack, the calls on
  -- the list end, return what the calls on the stack do, and leave a list of the stack's numbers, linked
  -- in both directions.
  pub on_list-on_stack :
      (cs : List Call) (h : Nodes) (cells : List Cell) (out stack : List ℤ)
      → IsList h head tail cells
      → on_stack cs (values cells) ≡ some (out, stack)
      → (h' : Nodes) × (cells' : List Cell) × (on_list memory head cs h ≡ ran out h')
        × IsList h' head tail cells'
        × (values cells' ≡ stack)
  unfolding Refines
  on_list-on_stack cs h cells out stack l e =
      subst (Refines head tail (on_list memory head cs h)) e (on_list-Refines cs h cells l)

print_from-Chain :
    (fuel a k tail : ℕ) (h : Nodes) (cells : List Cell)
    → Falls k cells tail
    → Chain h a cells tail
    → length cells ≤ fuel
    → print_from fuel tail (first_of cells tail) h ≡ ran (values cells) h
unfolding print_from Chain Falls first_of
print_from-Chain zero a k tail h [] f c enough = rw (==_self tail) refl
print_from-Chain (suc fuel) a k tail h [] f c enough = rw (==_self tail) refl
print_from-Chain zero a k tail h (c ∷ cells) f l enough = absurd (omega arith)
print_from-Chain (suc fuel) a k tail h ((p, x) ∷ cells) (lt, f) (_, _, value, live, more) enough =
    let above = Falls-lt p cells tail f in
    rw
      (
        ==_ne p tail (λ e. omega arith),
        live,
        value,
        ◌>>=◌,
        live,
        first_of-link h p cells tail more,
        ◌>>=◌,
        print_from-Chain fuel p p tail h cells f more (omega arith),
      )
      refl

-- `print_list` prints the numbers of the list from its front on, and changes nothing; as many rounds
-- as there are numbers are enough.
pub print_list-IsList :
    (fuel head tail : ℕ) (h : Nodes) (cells : List Cell)
    → IsList h head tail cells
    → length cells ≤ fuel
    → print_list fuel head tail h ≡ ran (values cells) h
unfolding print_list
print_list-IsList fuel head tail h cells l enough =
    rw (l.head_live, first_of-link h head cells tail l.chain, ◌>>=◌)
      (print_from-Chain fuel head h.top tail h cells l.falls l.chain enough)
