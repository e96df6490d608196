-- ===== src/Plenum/FirstFit/Programs.antt =====
-- plenum/uke8/first_fit.c and plenum/uke8/test_list.c: the programs over the list of free ranges, and
-- the functions of plenum/uke8/sl_list.c that only they call.
use in2140_introduksjon_til.Common.Run.{ℤ, pos}
use in2140_introduksjon_til.Common.{
  ◌==◌, if◌then◌else◌, get_elem?, ℕ, Bool, Option, none, some, List, [], ◌∷◌, ◌++◌,
}
use in2140_introduksjon_til.Common.Ints.{◌+ℤ◌}
use in2140_introduksjon_til.Plenum.FirstFit.{
  element_new_init, list_append, list_insert, list_insert_and_merge, init, first_fit_alloc,
  first_fit_free, list_draw, Element,
}

-- `list_init`, whatever the list was, and `list_delete`, which takes every element off the list.
unfoldable pub list_init : List Element
list_init = []

unfoldable pub list_delete : List Element → List Element
list_delete [] = []
list_delete (e ∷ rest) = list_delete rest

-- A line of `list_print`: `from`, `size` and `next`. Of an empty list it prints EMPTY.
abbrev pub Row : Type 0
Row = ℤ × ℤ × ℤ

unfoldable pub list_print : List Element → List Row
list_print [] = []
list_print (e ∷ rest) = (e.start, e.size, e.start +ℤ e.size) ∷ list_print rest

-- A test function: it adds the elements one by one, deletes the list, and prints the list at first and
-- after each call.
unfoldable pub test_run :
    (add : List Element → Element → List Element)
    → (list : List Element) → List Element
    → List (List Row)
test_run add list [] = list_print list ∷ list_print (list_delete list) ∷ []
test_run add list (e ∷ es) = list_print list ∷ test_run add (add list e) es

-- The elements that each of the three functions adds.
abbrev pub test_elements : List Element
test_elements =
    element_new_init (pos 128) (pos 64)
    ∷ element_new_init (pos 0) (pos 64)
    ∷ element_new_init (pos 192) (pos 64)
    ∷ element_new_init (pos 256) (pos 64)
    ∷ element_new_init (pos 64) (pos 64)
    ∷ []

unfoldable pub test_append : List (List Row)
test_append = test_run list_append list_init test_elements

unfoldable pub test_insert : List (List Row)
test_insert = test_run list_insert list_init test_elements

unfoldable pub test_insert_and_merge : List (List Row)
test_insert_and_merge = test_run list_insert_and_merge list_init test_elements

-- `main` of test_list.c, by the character that `getchar` returns.
unfoldable pub test_main : ℕ → List (List Row)
test_main c =
    if c == b'0'
    then test_append
    else if c == b'1'
    then test_insert
    else if c == b'2'
    then test_insert_and_merge
    else []

-- `cleanup` of first_fit.c on `free_mem`.
unfoldable pub cleanup : List Element → List Element
cleanup free_mem = list_delete free_mem

-- A call of `main` of first_fit.c: `alloc n` puts its result behind the elements of `elem` that are
-- set, and `free i` gives `elem[i]` back.
pub data Call : Type 0 where
  alloc : ℤ → Call
  free : ℕ → Call

-- `free_mem`, the elements of `elem` that are set (`none` is NULL), and what `list_draw` has drawn,
-- the last drawing first.
pub record Heap : Type 0 where
  pub free_mem : List Element
  pub elem : List (Option Element)
  pub drawn : List (List Bool)

-- A call, and the drawing at its end. Freeing NULL, or an element that is not set, is `none`.
unfoldable pub call : Heap → Call → Option Heap
call h (alloc n) =
    let (retval, free_mem) = first_fit_alloc h.free_mem n in
    some (record {
      free_mem = free_mem;
      elem = h.elem ++ (retval ∷ []);
      drawn = list_draw free_mem (pos 16) ∷ h.drawn;
    })
call h (free i) = elim (get_elem? h.elem i) [
  | none ↦ none
  | some none ↦ none
  | some (some e) ↦
      let free_mem = first_fit_free h.free_mem e in
      some (record h { free_mem = free_mem; drawn = list_draw free_mem (pos 16) ∷ h.drawn })
]

unfoldable pub calls : Heap → List Call → Option Heap
calls h [] = some h
calls h (c ∷ cs) = elim (call h c) [ none ↦ none | some h' ↦ calls h' cs ]

abbrev pub main_calls : List Call
main_calls =
    alloc (pos 1)
    ∷ alloc (pos 5)
    ∷ alloc (pos 5)
    ∷ alloc (pos 6)
    ∷ alloc (pos 5)
    ∷ alloc (pos 1)
    ∷ free 1
    ∷ free 4
    ∷ alloc (pos 1)
    ∷ alloc (pos 1)
    ∷ alloc (pos 1)
    ∷ alloc (pos 1)
    ∷ free 6
    ∷ alloc (pos 2)
    ∷ alloc (pos 2)
    ∷ free 8
    ∷ free 0
    ∷ []

-- `main` of first_fit.c: what is left of `free_mem`, and the heap before `cleanup`.
unfoldable pub first_fit_main : Option (List Element × Heap)
first_fit_main =
    let start = init (pos 16) in
    let heap : Heap = record {
      free_mem = start;
      elem = [];
      drawn = list_draw start (pos 16) ∷ [];
    } in
    elim (calls heap main_calls) [ none ↦ none | some h ↦ some (cleanup h.free_mem, h) ]
