-- ===== src/Oblig/System/Consistent.antt =====
-- oblig/inode.c as the programs use it: the trees in memory agree with the block allocation table.
use in2140_introduksjon_til.Oblig.Directory.Held.{use_count, Owned, FairAfter}
use in2140_introduksjon_til.Oblig.Blocks.{BlockStore}
use in2140_introduksjon_til.Oblig.System.{placed, target, stored, Fs}
use in2140_introduksjon_til.Oblig.Inode.{Inode, inode, nil}
use in2140_introduksjon_til.Oblig.Directory.{State}
use in2140_introduksjon_til.Oblig.Tree.{inode_at, put_inode, times, held, held_in, held-put_inode}
use in2140_introduksjon_til.Common.{
  Option-cases, get_elem?, set, ℕ, zero, suc, ◌+◌, ◌≤◌, ◌≡◌, ap, inl, inr, Option, none, some, List,
  [], ◌∷◌, ◌++◌, arith,
}

-- How often a block stands in the trees.
unfoldable pub held_all : ℕ → List Inode → ℕ
held_all b [] = 0
held_all b (root ∷ trees) = held b root + held_all b trees

held_all-set :
    (b : ℕ) (trees : List Inode) (k : ℕ) (r r' : Inode)
    → get_elem? trees k ≡ some r
    → held_all b (set trees k r') + held b r ≡ held_all b trees + held b r'
unfolding held_all
held_all-set b [] k r r' h = ground arith
held_all-set b (t ∷ trees) zero r r' h = let same : t ≡ r = cc in omega (arith, ap (held b) same)
held_all-set b (t ∷ trees) (suc k) r r' h = omega (arith, held_all-set b trees k r r' h)

pub held_all-snoc :
    (b : ℕ) (trees : List Inode) (r : Inode)
    → held_all b (trees ++ (r ∷ [])) ≡ held_all b trees + held b r
unfolding held_all
held_all-snoc b [] r = omega arith
held_all-snoc b (t ∷ trees) r = omega (arith, held_all-snoc b trees r)

held_all_elem :
    (b : ℕ) (trees : List Inode) (k : ℕ) (r : Inode)
    → get_elem? trees k ≡ some r
    → held b r ≤ held_all b trees
unfolding held_all
held_all_elem b [] k r h = ground arith
held_all_elem b (t ∷ trees) zero r h = let same : t ≡ r = cc in omega (arith, ap (held b) same)
held_all_elem b (t ∷ trees) (suc k) r h = omega (arith, held_all_elem b trees k r h)

empty_inode : Inode
empty_inode = inode 0 [] 1 nil 0 []

held-inode_at :
    (b : ℕ) (root : Inode) (p : List ℕ) (x : Inode)
    → inode_at root p ≡ some x
    → held b x ≤ held b root
unfolding held held_in times empty_inode
held-inode_at b root p x h = omega (arith, held-put_inode b root p x empty_inode h)

module _ {B : BlockStore} where
  open B use {Store, IsSound, used}

  -- The table is sound, and no block stands in the trees twice, or at all unless it is in use.
  pub record Consistent (fs : Fs B) : Type 0 where
    pub sound : IsSound fs.state.store
    pub owned : (b : ℕ) → held_all b fs.trees ≤ use_count B fs.state.store b

  pub target-inode_at :
      (fs : Fs B) (k : ℕ) (p : List ℕ) (x : Inode)
      → target fs k p ≡ some x
      → (root : Inode) × (get_elem? fs.trees k ≡ some root) × (inode_at root p ≡ some x)
  unfolding target
  target-inode_at fs k p x h = elim (Option-cases (get_elem? fs.trees k)) [
    | inl e ↦ cc (rw (e, target) at h)
    | inr (root, e) ↦ (root, e, rw (e, target) at h)
  ]

  pub target-Owned :
      (fs : Fs B) (k : ℕ) (p : List ℕ) (x : Inode)
      → Consistent fs
      → target fs k p ≡ some x
      → Owned B x fs.state.store
  target-Owned fs k p x c h =
      let (root, e, e') = target-inode_at fs k p x h in
      λ b. omega (arith, held-inode_at b root p x e', held_all_elem b fs.trees k root e, c.owned b)

  held_all-placed :
      (b : ℕ) (fs : Fs B) (k : ℕ) (p : List ℕ) (x y : Inode)
      → target fs k p ≡ some x
      → held_all b (placed fs.trees k p y) + held b x ≡ held_all b fs.trees + held b y
  unfolding placed
  held_all-placed b fs k p x y h =
      let (root, e, e') = target-inode_at fs k p x h in
      rw (e, placed)
        (omega (
          arith,
          held_all-set b fs.trees k root (put_inode root p y) e,
          held-put_inode b root p x y e',
        ))

  -- A call that changes one inode and the store fairly keeps everything consistent.
  pub stored-Consistent :
      (fs : Fs B) (k : ℕ) (p : List ℕ) (x : Inode) (y : Option Inode) (st : State B)
      → Consistent fs
      → target fs k p ≡ some x
      → FairAfter B x fs.state.store y st.store
      → Consistent (stored fs k p y st)
  unfolding stored
  stored-Consistent fs k p x none st c h f = absurd f
  stored-Consistent fs k p x (some y) st c h (sound, fair) = record {
    sound = sound;
    owned = λ b. omega (arith, held_all-placed b fs k p x y h, fair b, c.owned b);
  }
