-- ===== src/Plenum/FirstFit.antt =====
-- plenum/uke8/sl_list.c and plenum/uke8/first_fit.c: a first-fit allocator that keeps the free ranges
-- of memory in a list. Every element stands in one list at most, and an element that is given to
-- a list points to no other, as `element_new_init` and `find_first` make it; so the list that
-- starts at `first` is a list of ranges. `malloc` has memory, which the code relies on.
use in2140_introduksjon_til.Common.Run.{ℤ, pos, negsuc}
use in2140_introduksjon_til.Common.{
  if◌then◌else◌, replicate, ℕ, ◌+◌, ◌-◌, Bool, true, false, Option, none, some, List, [], ◌∷◌, ◌++◌,
}
use in2140_introduksjon_til.Common.Ints.{lt, eq, ◌+ℤ◌, ◌-ℤ◌}
pub mod Draw
pub mod Find
pub mod Merge
pub mod Programs

pub record Element : Type 0 where
  pub start : ℤ
  pub size : ℤ

abbrev pub element_new_init : ℤ → ℤ → Element
element_new_init from length_of = record { start = from; size = length_of }

unfoldable pub element_new : Element
element_new = element_new_init (pos 0) (pos 0)

unfoldable pub list_append : List Element → Element → List Element
list_append list elem = list ++ (elem ∷ [])

-- The loop of `list_insert` from `iterator` on, whose `next` starts the second list. Behind the last
-- element nothing is inserted.
unfoldable pub insert_after : Element → List Element → Element → List Element
insert_after iterator [] elem = iterator ∷ []
insert_after iterator (n ∷ rest) elem =
    if lt n.start elem.start
    then iterator ∷ insert_after n rest elem
    else iterator ∷ elem ∷ n ∷ rest

unfoldable pub list_insert : List Element → Element → List Element
list_insert [] elem = elem ∷ []
list_insert (f ∷ rest) elem =
    if lt elem.start f.start then elem ∷ f ∷ rest else insert_after f rest elem

-- `list_compress`: `base` and what its `next` starts.
unfoldable pub list_compress : Element → List Element → List Element
list_compress base [] = base ∷ []
list_compress base (n ∷ rest) =
    if eq (base.start +ℤ base.size) n.start
    then element_new_init base.start (base.size +ℤ n.size) ∷ rest
    else base ∷ n ∷ rest

-- The loop of `list_insert_and_merge` from `iterator` on.
unfoldable pub merge_after : Element → List Element → Element → List Element
merge_after iterator [] elem = list_compress iterator (elem ∷ [])
merge_after iterator (n ∷ rest) elem =
    if lt n.start elem.start
    then iterator ∷ merge_after n rest elem
    else list_compress iterator (list_compress elem (n ∷ rest))

unfoldable pub list_insert_and_merge : List Element → Element → List Element
list_insert_and_merge [] elem = elem ∷ []
list_insert_and_merge (f ∷ rest) elem =
    if lt elem.start f.start then list_compress elem (f ∷ rest) else merge_after f rest elem

-- An element that nothing is left of is taken out of the list.
abbrev pub keep_rest : Element → List Element → List Element
keep_rest e rest = if eq e.size (pos 0) then rest else e ∷ rest

-- The loop of `find_first` from `iterator` on: the element that fits gets its start and size from
-- `iterator`, the element before it.
unfoldable pub find_after : Element → List Element → ℤ → Option Element × List Element
find_after iterator [] wanted = (none, iterator ∷ [])
find_after iterator (n ∷ rest) wanted =
    let (found, list) = find_after n rest wanted in
    let left = element_new_init (iterator.start +ℤ wanted) (iterator.size -ℤ wanted) in
    if lt n.size wanted
    then (found, iterator ∷ list)
    else (some (element_new_init n.start wanted), iterator ∷ keep_rest left rest)

-- `find_first`: the element that is returned, and the list.
unfoldable pub find_first : List Element → ℤ → Option Element × List Element
find_first [] wanted = (none, [])
find_first (f ∷ rest) wanted =
    let left = element_new_init (f.start +ℤ wanted) (f.size -ℤ wanted) in
    if lt f.size wanted
    then find_after f rest wanted
    else (some (element_new_init f.start wanted), keep_rest left rest)

-- `init`, `first_fit_alloc` and `first_fit_free` of first_fit.c on `free_mem`.
unfoldable pub init : ℤ → List Element
init n = list_insert_and_merge [] (element_new_init (pos 0) n)

unfoldable pub first_fit_alloc : List Element → ℤ → Option Element × List Element
first_fit_alloc free_mem n = find_first free_mem n

unfoldable pub first_fit_free : List Element → Element → List Element
first_fit_free free_mem elem = list_insert_and_merge free_mem elem

-- How many rounds a loop from `i` up to the bound makes.
abbrev pub rounds : ℕ → ℤ → ℕ
rounds i (pos bound) = bound - i
rounds i (negsuc bound) = 0

-- The loop of `list_draw` from `i` on; `true` is a dot, for a free place, and `false` an X.
unfoldable pub draw_from : ℕ → List Element → ℤ → List Bool
draw_from i [] limit = replicate (rounds i limit) false
draw_from i (e ∷ rest) limit =
    let used = rounds i e.start in
    let free = rounds (i + used) (e.start +ℤ e.size) in
    replicate used false ++ (replicate free true ++ draw_from (i + used + free) rest limit)

unfoldable pub list_draw : List Element → ℤ → List Bool
list_draw list limit = draw_from 0 list limit
