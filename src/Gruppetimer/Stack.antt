-- ===== src/Gruppetimer/Stack.antt =====
-- gruppetimer/uke8/uke8.c: a doubly linked list between two sentinels, with `push` and `pop` at its
-- front. A pointer is an address; `malloc` never gives out an address a second time.
pub mod Chain
pub mod Frees
pub mod Laws
pub mod Refines
use in2140_introduksjon_til.Common.Run.{ℤ, pos}
use in2140_introduksjon_til.Common.{
  ◌==◌, if◌then◌else◌, ℕ, zero, suc, ◌+◌, Bool, true, false, Option, none, some, List, [], ◌∷◌,
}

-- The fields of each node, where they are set, which nodes are allocated, and the address of the next
-- one.
pub record Nodes : Type 0 where
  pub next : ℕ → Option ℕ
  pub prev : ℕ → Option ℕ
  pub value : ℕ → Option ℤ
  pub live : ℕ → Bool
  pub top : ℕ

-- `fault`: an access to a node that is not allocated, or a read of a field that is not set. `exited`:
-- a call of `exit( -1 )`. `no_fuel` is no outcome of
-- the code.
pub data Ran (A : Type 0) : Type 0 where
  fault exited no_fuel : Ran A
  ran : A → Nodes → Ran A

abbrev pub Step : Type 0 → Type 0
Step A = Nodes → Ran A

abbrev pub pure : {A : Type 0} → A → Step A
pure a h = ran a h

infixl 5 ◌>>=◌ ◌>>◌
abbrev pub ◌>>=◌ : {A B : Type 0} → Step A → (A → Step B) → Step B
◌>>=◌ m k h = elim (m h) [ fault ↦ fault | exited ↦ exited | no_fuel ↦ no_fuel | ran a h' ↦ k a h' ]

abbrev pub ◌>>◌ : {B : Type 0} → Step (Unit {0}) → Step B → Step B
m >> k = m >>= λ _. k

abbrev pub update : {A : Type 0} → (ℕ → A) → ℕ → A → ℕ → A
update f p v q = if p == q then v else f q

abbrev pub read : {A : Type 0} → Option A → Step A
read none h = fault
read (some a) h = ran a h

abbrev pub get_next : ℕ → Step ℕ
get_next p h = if h.live p then read (h.next p) h else fault

abbrev pub get_prev : ℕ → Step ℕ
get_prev p h = if h.live p then read (h.prev p) h else fault

abbrev pub get_value : ℕ → Step ℤ
get_value p h = if h.live p then read (h.value p) h else fault

abbrev pub set_next : ℕ → ℕ → Step (Unit {0})
set_next p q h = if h.live p then ran tt (record h { next = update h.next p (some q) }) else fault

abbrev pub set_prev : ℕ → ℕ → Step (Unit {0})
set_prev p q h = if h.live p then ran tt (record h { prev = update h.prev p (some q) }) else fault

abbrev pub set_value : ℕ → ℤ → Step (Unit {0})
set_value p v h =
    if h.live p then ran tt (record h { value = update h.value p (some v) }) else fault

abbrev pub new_node : Nodes → Nodes
new_node h = record {
  next = update h.next h.top none;
  prev = update h.prev h.top none;
  value = update h.value h.top none;
  live = update h.live h.top true;
  top = h.top + 1;
}

-- `malloc`, where `memory` says whether there is room for the node with an address.
unfoldable pub malloc : (memory : ℕ → Bool) → Step (Option ℕ)
malloc memory h = if memory h.top then ran (some h.top) (new_node h) else ran none h

unfoldable pub free_node : ℕ → Step (Unit {0})
free_node p h = if h.live p then ran tt (record h { live = update h.live p false }) else fault

unfoldable pub set_between : (left middle right : ℕ) → Step (Unit {0})
set_between left middle right = do
  set_next left middle
  set_prev middle left
  set_next middle right
  set_prev right middle

unfoldable pub remove_node : ℕ → Step (Unit {0})
remove_node node = do
  prev ← get_prev node
  next ← get_next node
  set_next prev next
  set_prev next prev

-- What `push` does with the result of `malloc`.
unfoldable pub push_node : (head : ℕ) → ℤ → Option ℕ → Step (Unit {0})
push_node head number none h = exited
push_node head number (some new) h =
    (do set_value new number; right ← get_next head; set_between head new right) h

module _ (memory : ℕ → Bool) where
  unfoldable pub push : (head : ℕ) → ℤ → Step (Unit {0})
  push head number = do new ← malloc memory; push_node head number new

-- `pop` removes the first node and returns its value.
unfoldable pub pop : (head : ℕ) → Step ℤ
pop head = do
  popped ← get_next head
  remove_node popped
  data' ← get_value popped
  free_node popped
  pure data'

-- The loop of `print_list` from `temp` on: the values that are printed. The fuel is for the nodes.
unfoldable pub print_from : (fuel tail temp : ℕ) → Step (List ℤ)
print_from zero tail temp h = if temp == tail then ran [] h else no_fuel
print_from (suc f) tail temp h =
    let more =
      (do v ← get_value temp; next ← get_next temp; vs ← print_from f tail next; pure (v ∷ vs)) h in
    if temp == tail then ran [] h else more

unfoldable pub print_list : (fuel head tail : ℕ) → Step (List ℤ)
print_list fuel head tail = do first ← get_next head; print_from fuel tail first

-- The loop of `free_list` from `node` on.
unfoldable pub free_from : (fuel tail node : ℕ) → Step (Unit {0})
free_from zero tail node h = if node == tail then ran tt h else no_fuel
free_from (suc f) tail node h =
    let more = (do next ← get_next node; free_node node; free_from f tail next) h in
    if node == tail then ran tt h else more

unfoldable pub free_list : (fuel head tail : ℕ) → Step (Unit {0})
free_list fuel head tail = do
  first ← get_next head
  free_from fuel tail first
  free_node head
  free_node tail

-- The start of `main`: the two sentinels, with a fault where `malloc` has no memory.
unfoldable pub sentinels : Option ℕ → Option ℕ → Step (ℕ × ℕ)
sentinels none tail h = fault
sentinels (some head) none h = fault
sentinels (some head) (some tail) h =
    (do set_next head tail; set_prev tail head; pure (head, tail)) h

unfoldable pub start : (memory : ℕ → Bool) → Step (ℕ × ℕ)
start memory = do head ← malloc memory; tail ← malloc memory; sentinels head tail

-- The loop of `main`, with `n` numbers left, from `i` on.
unfoldable pub push_from : (memory : ℕ → Bool) → (head n i : ℕ) → Step (Unit {0})
push_from memory head zero i = pure tt
push_from memory head (suc n) i = do push memory head (pos i); push_from memory head n (i + 1)

-- `main`: the values that are printed.
unfoldable pub stack_main : (memory : ℕ → Bool) → (fuel : ℕ) → Step (List ℤ)
stack_main memory fuel = do
  (head, tail) ← start memory
  push_from memory head 7 1
  _ ← pop head
  _ ← pop head
  _ ← pop head
  vs ← print_list fuel head tail
  free_list fuel head tail
  pure vs
