-- ===== src/Gruppetimer/Examples.antt =====
-- The theorems about gruppetimer/uke8/ at concrete inputs, and a run of its `main`.
use in2140_introduksjon_til.Gruppetimer.Stack.Laws.{pop_empty}
use in2140_introduksjon_til.Common.Run.{ℤ, pos}
use in2140_introduksjon_til.Common.{
  ◌==◌, if◌then◌else◌, ℕ, ◌≡◌, refl, Bool, true, false, ◌||◌, none, some, List, [], ◌∷◌, arith,
}
use in2140_introduksjon_til.Gruppetimer.Stack.{
  malloc, free_node, set_between, remove_node, push_node, push, pop, print_from, print_list,
  free_from, free_list, sentinels, start, push_from, stack_main, Nodes, Ran, fault, ran,
}
use in2140_introduksjon_til.Gruppetimer.Stack.Chain.{Cell, Chain, Falls, IsList}
use in2140_introduksjon_til.Gruppetimer.Stack.Refines.{
  on_stack, on_list, values, on_list-on_stack, print_list-IsList, Call, pushes, pops,
}
use in2140_introduksjon_til.Gruppetimer.Stack.Frees.{Released, free_list-IsList}

abbrev everywhere : ℕ → Bool
everywhere p = true

abbrev nothing : Nodes
nothing = record {
  next = λ p. none;
  prev = λ p. none;
  value = λ p. none;
  live = λ p. false;
  top = 0;
}

-- The sentinels 0 and 1 and nothing between them.
abbrev empty_list : Nodes
empty_list = record {
  next = λ p. if p == 0 then some 1 else none;
  prev = λ p. if p == 1 then some 0 else none;
  value = λ p. none;
  live = λ p. p == 0 || p == 1;
  top = 2;
}

-- One node, at 2, with the number 9.
abbrev one_node : Nodes
one_node = record {
  next = λ p. if p == 0 then some 2 else if p == 2 then some 1 else none;
  prev = λ p. if p == 2 then some 0 else if p == 1 then some 2 else none;
  value = λ p. if p == 2 then some (pos 9) else none;
  live = λ p. p == 0 || p == 1 || p == 2;
  top = 3;
}

empty_list-IsList : IsList empty_list 0 1 []
unfolding Chain Falls
empty_list-IsList = record {
  head_live = refl;
  tail_live = refl;
  apart = omega arith;
  falls = omega arith;
  chain = (refl, refl);
}

one_node-IsList : IsList one_node 0 1 ((2, pos 9) ∷ [])
unfolding Chain Falls
one_node-IsList = record {
  head_live = refl;
  tail_live = refl;
  apart = omega arith;
  falls = (omega arith, omega arith);
  chain = (refl, refl, refl, refl, (refl, refl));
}

abbrev some_calls : List Call
some_calls = pushes (pos 3) ∷ pops ∷ pops ∷ pushes (pos 4) ∷ []

-- The stack has a result for these calls.
some_calls_fine : on_stack some_calls (pos 9 ∷ []) ≡ some (pos 3 ∷ pos 9 ∷ [], pos 4 ∷ [])
unfolding on_stack
some_calls_fine = refl

on_list-on_stack_example :
    (h' : Nodes) × (cells' : List Cell) × (on_list everywhere 0 some_calls one_node
      ≡ ran (pos 3 ∷ pos 9 ∷ []) h')
    × IsList h' 0 1 cells'
    × (values cells' ≡ pos 4 ∷ [])
on_list-on_stack_example =
    on_list-on_stack everywhere (λ p. refl) 0 1 some_calls one_node ((2, pos 9) ∷ [])
      (pos 3 ∷ pos 9 ∷ []) (pos 4 ∷ []) one_node-IsList some_calls_fine

test_print_list-IsList : print_list 1 0 1 one_node ≡ ran (pos 9 ∷ []) one_node
test_print_list-IsList =
    print_list-IsList 1 0 1 one_node ((2, pos 9) ∷ []) one_node-IsList (omega arith)

free_list-IsList_example :
    (h' : Nodes) × (free_list 1 0 1 one_node ≡ ran tt h')
    × (h'.live 0 ≡ false)
    × (h'.live 1 ≡ false)
    × Released h' ((2, pos 9) ∷ [])
free_list-IsList_example =
    free_list-IsList 1 0 1 one_node ((2, pos 9) ∷ []) one_node-IsList (omega arith)

test_pop_empty : pop 0 empty_list ≡ fault
test_pop_empty = pop_empty everywhere 0 1 empty_list empty_list-IsList refl

-- `main` prints 4, 3, 2 and 1.
abbrev printed : Ran (List ℤ) → List ℤ
printed (ran vs h) = vs
printed _ = []

main_prints : printed (stack_main everywhere 7 nothing) ≡ pos 4 ∷ pos 3 ∷ pos 2 ∷ pos 1 ∷ []
unfolding stack_main start sentinels malloc push push_node set_between push_from pop remove_node
    free_node print_list print_from free_list free_from
main_prints = refl
