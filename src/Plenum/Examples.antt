-- ===== src/Plenum/Examples.antt =====
-- The theorems about plenum/uke8/ at concrete inputs.
use in2140_introduksjon_til.Plenum.FirstFit.Programs.{
  list_init, list_delete, Row, list_print, test_run, test_insert, test_insert_and_merge, test_main,
  cleanup, call, calls, first_fit_main, Heap,
}
use in2140_introduksjon_til.Common.Run.{pos, negsuc}
use in2140_introduksjon_til.Common.{
  get_elem?, drop, ℕ, ◌+◌, ◌≡◌, refl, inl, inr, ◌||◌, Option, none, some, List, [], ◌∷◌, arith,
}
use in2140_introduksjon_til.Plenum.FirstFit.{
  element_new_init, insert_after, list_insert, list_compress, merge_after, list_insert_and_merge,
  find_after, find_first, init, first_fit_alloc, first_fit_free, draw_from, list_draw, Element,
}
use in2140_introduksjon_til.Plenum.FirstFit.Merge.{
  Range, range, ranges, inside, covers, Separated, first_fit_free-covers,
}
use in2140_introduksjon_til.Plenum.FirstFit.Draw.{list_draw-covers}
use in2140_introduksjon_til.Plenum.FirstFit.Find.{
  first_fit_free-first_fit_alloc, first_fit_alloc_too_large, first_fit_alloc_second,
  list_insert_largest,
}

-- Memory of 16 places, of which 3 to 5 and 8 to 9 are in use.
abbrev free_ranges : List Range
free_ranges = (0, 3) ∷ (6, 2) ∷ (10, 6) ∷ []

free_ranges-Separated : Separated 0 free_ranges
unfolding Separated
free_ranges-Separated =
    (omega arith, omega arith, (omega arith, omega arith, (omega arith, omega arith, tt)))

first_fit_free-covers_example :
    (rs' : List Range) × (first_fit_free (ranges free_ranges) (range 8 2) ≡ ranges rs')
    × Separated 0 rs'
    × ((x : ℕ) → covers rs' x ≡ (inside 8 2 x || covers free_ranges x))
first_fit_free-covers_example =
    first_fit_free-covers free_ranges 8 2 free_ranges-Separated (omega arith)
      (inr (omega arith), (inr (omega arith), (inl (omega arith), tt)))

-- The freed range closes the gap between its neighbours.
gap_closed : first_fit_free (ranges free_ranges) (range 8 2) ≡ ranges ((0, 3) ∷ (6, 10) ∷ [])
unfolding first_fit_free list_insert_and_merge merge_after list_compress ranges
gap_closed = refl

first_fit_free-first_fit_alloc_example :
    (free_mem : List Element) × (first_fit_alloc (ranges free_ranges) (pos 2)
      ≡ (some (range 0 2), free_mem))
    × (first_fit_free free_mem (range 0 2) ≡ ranges free_ranges)
first_fit_free-first_fit_alloc_example =
    first_fit_free-first_fit_alloc 0 3 ((6, 2) ∷ (10, 6) ∷ []) 2 free_ranges-Separated (omega arith)
      (omega arith)

test_too_large : first_fit_alloc (ranges free_ranges) (pos 7) ≡ (none, ranges free_ranges)
test_too_large =
    first_fit_alloc_too_large free_ranges 7 (omega arith, (omega arith, (omega arith, tt)))

test_first_fit_alloc_second :
    first_fit_alloc (ranges ((0, 3) ∷ (6, 5) ∷ (12, 4) ∷ [])) (pos 4)
    ≡ (some (range 6 4), range 0 3 ∷ element_new_init (pos 4) (negsuc 0) ∷ ranges ((12, 4) ∷ []))
test_first_fit_alloc_second =
    first_fit_alloc_second 0 3 6 5 ((12, 4) ∷ []) 4 (omega arith) (omega arith)

test_list_insert_largest :
    list_insert (range 0 3 ∷ range 6 2 ∷ []) (range 9 1) ≡ range 0 3 ∷ range 6 2 ∷ []
test_list_insert_largest =
    list_insert_largest (range 0 3) (range 6 2 ∷ []) (range 9 1) refl (refl, tt)

list_draw-covers_example :
    get_elem? (list_draw (ranges free_ranges) (pos 16)) 7 ≡ some (covers free_ranges 7)
list_draw-covers_example =
    list_draw-covers free_ranges 16 7 free_ranges-Separated
      (omega arith, (omega arith, (omega arith, tt))) (omega arith)

abbrev row : ℕ → Row
row n = (pos n, pos 64, pos (n + 64))

-- `test_insert` loses the elements from 192 and 256 on, which start behind all others.
test_insert_loses :
    test_insert
    ≡ []
      ∷ (row 128 ∷ [])
      ∷ (row 0 ∷ row 128 ∷ [])
      ∷ (row 0 ∷ row 128 ∷ [])
      ∷ (row 0 ∷ row 128 ∷ [])
      ∷ (row 0 ∷ row 64 ∷ row 128 ∷ [])
      ∷ []
      ∷ []
unfolding test_insert test_run list_insert insert_after list_print list_delete list_init
test_insert_loses = refl

-- `test_insert_and_merge` ends with one range.
test_merge_joins :
    test_main b'2'
    ≡ []
      ∷ (row 128 ∷ [])
      ∷ (row 0 ∷ row 128 ∷ [])
      ∷ (row 0 ∷ (pos 128, pos 128, pos 256) ∷ [])
      ∷ (row 0 ∷ (pos 128, pos 192, pos 320) ∷ [])
      ∷ ((pos 0, pos 320, pos 320) ∷ [])
      ∷ []
      ∷ []
unfolding test_main test_insert_and_merge test_run list_insert_and_merge merge_after list_compress
    list_print list_delete list_init
test_merge_joins = refl

-- What `main` of first_fit.c gets from its calls: after its second allocation of two places from 11
-- on, the next one fails, although the places from 13 on are free.
abbrev got_elements : Option (List Element × Heap) → List (Option Element)
got_elements none = []
got_elements (some (left, h)) = h.elem

main_elements :
    drop 10 (got_elements first_fit_main) ≡ some (element_new_init (pos 11) (pos 2)) ∷ none ∷ []
unfolding first_fit_main calls call first_fit_alloc first_fit_free init find_first find_after
    list_insert_and_merge merge_after list_compress list_draw draw_from cleanup list_delete
main_elements = refl
