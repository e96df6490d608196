-- ===== src/Oblig/Programs/Load.antt =====
-- The program oblig/load_fs.c.
use in2140_introduksjon_til.Oblig.System.Consistent.{target-inode_at}
use in2140_introduksjon_til.Oblig.System.Live.{target_of}
use in2140_introduksjon_til.Oblig.Tree.Paths.{inode_at_child}
use in2140_introduksjon_til.Oblig.Blocks.{BlockStore}
use in2140_introduksjon_til.Oblig.Tree.{child_at, inode_at}
use in2140_introduksjon_til.Common.Words.{Bytes, codes}
use in2140_introduksjon_til.Oblig.System.{
  child_place, find_place, Action, ◌>>=◌, pure, target, find, load, Fs, Pointer, null, dangling, to,
  returned,
}
use in2140_introduksjon_til.Oblig.Inode.{
  name, is_directory, children, strcmp_eq, find_child, find_inode_by_name, Inode, Inodes, nil, cons,
}
use in2140_introduksjon_til.Common.{
  ◌==◌, Bool-cases, Option-cases, ℕ, suc, ◌+◌, ◌≡◌, refl, ap, ◌∙◌, ◌⊎◌, inl, inr, Bool, true, false,
  none, some, List, [], ◌∷◌, ◌++◌, arith,
}

-- The nine paths that the program tries.
abbrev pub wanted : List (List Bytes)
wanted =
    (codes "kernel" ∷ [])
    ∷ (codes "var" ∷ codes "log" ∷ codes "message" ∷ [])
    ∷ (codes "share" ∷ codes "man" ∷ codes "read.2" ∷ [])
    ∷ (codes "etc" ∷ codes "hosts" ∷ [])
    ∷ (codes "etc" ∷ codes "host.conf" ∷ [])
    ∷ (codes "etc" ∷ codes "httpd" ∷ codes "conf" ∷ [])
    ∷ (codes "home" ∷ codes "user" ∷ codes "Download" ∷ codes "oblig2" ∷ [])
    ∷ (codes "home" ∷ codes "guest" ∷ codes "bashrc" ∷ [])
    ∷ (codes "root" ∷ codes "bashrc" ∷ [])
    ∷ []

-- `if( dir )`
abbrev pub is_found : Pointer → Bool
is_found null = false
is_found dangling = true
is_found (to k p) = true

-- Whether the names lead from an inode to another one.
unfoldable pub reaches : Inode → List Bytes → Bool
reaches x [] = true
reaches x (n ∷ ns) = elim (find_inode_by_name (some x) n) [ none ↦ false | some y ↦ reaches y ns ]

module _ {B : BlockStore} where
  -- `dir = find_inode_by_name( dir, … ); if( dir ) dir = find_inode_by_name( dir, … ); …`
  unfoldable pub walk : Pointer → List Bytes → Action B Pointer
  walk dir [] = pure dir
  walk dir (n ∷ ns) = find dir n >>= λ next. elim next [
    | null ↦ pure null
    | dangling ↦ walk dangling ns
    | to k p ↦ walk (to k p) ns
  ]

  unfoldable pub walk_all : Pointer → List (List Bytes) → Action B (List Bool)
  walk_all root [] = pure []
  walk_all root (path ∷ paths) = do
    dir ← walk root path
    rest ← walk_all root paths
    pure (is_found dir ∷ rest)

  -- `main` of load_fs.c: which of the paths it prints as found.
  unfoldable pub load_fs : (memory : ℕ → Bool) → Action B (List Bool)
  load_fs memory = do root ← load memory; walk_all root wanted

child_place-find_child :
    (i : ℕ) (cs : Inodes) (n : Bytes)
    → ((child_place i cs n ≡ none) × (find_child cs n ≡ none))
      ⊎ ((j : ℕ) × (c : Inode) × (child_place i cs n ≡ some ((i + j) ∷ []))
          × (child_at cs j ≡ some c)
          × (find_child cs n ≡ some c))
unfolding child_place find_child child_at
child_place-find_child i nil n = inl (refl, refl)
child_place-find_child i (cons c cs) n = elim (Bool-cases (strcmp_eq (name c) n)) [
  | inl e ↦ inr (0, c, rw e (ap (λ m. some (m ∷ [])) (omega arith)), refl, rw e refl)
  | inr e ↦ rw e (elim (child_place-find_child (i + 1) cs n) [
    | inl (e', e'') ↦ inl (e', e'')
    | inr (j, d, e', e'', e3) ↦ inr (suc j, d, e' ∙ ap (λ m. some (m ∷ [])) (omega arith), e'', e3)
  ])
]

find_place_cases :
    (x : Inode) (n : Bytes)
    → ((find_place x n ≡ none) × (find_inode_by_name (some x) n ≡ none))
      ⊎ ((p : List ℕ) × (y : Inode) × (find_place x n ≡ some p)
          × (inode_at x p ≡ some y)
          × (find_inode_by_name (some x) n ≡ some y))
unfolding find_place find_inode_by_name inode_at
find_place_cases x n = elim (Bool-cases (strcmp_eq (name x) n)) [
  | inl e ↦ rw e (inr ([], x, refl, refl, refl))
  | inr e ↦ elim (Bool-cases (is_directory x == 0)) [
    | inl file ↦ rw (e, file) (inl (refl, refl))
    | inr dir ↦
        rw (e, dir)
          (elim (child_place-find_child 0 (children x) n) [
            | inl none_there ↦ inl none_there
            | inr (j, c, e', e'', e3) ↦ inr (
              j ∷ [],
              c,
              e' ∙ ap (λ m. some (m ∷ [])) (omega arith),
              inode_at_child x c j [] e'',
              e3,
            )
          ])
  ]
]

inode_at-append :
    (root x : Inode) (p q : List ℕ)
    → inode_at root p ≡ some x
    → inode_at root (p ++ q) ≡ inode_at x q
unfolding inode_at
inode_at-append root x [] q h = let same : root ≡ x = cc in ap (λ r. inode_at r q) same
inode_at-append root x (i ∷ p) q h = elim (Option-cases (child_at (children root) i)) [
  | inl e ↦ cc (rw (e, inode_at) at h)
  | inr (c, e) ↦
      inode_at_child root c i (p ++ q) e ∙ inode_at-append c x p q (rw (e, inode_at) at h)
]

module _ {B : BlockStore} where
  pub find_returns :
      (fs : Fs B) (k : ℕ) (p : List ℕ) (x : Inode) (n : Bytes)
      → target fs k p ≡ some x
      → ((find (to k p) n fs ≡ returned (null, fs)) × (find_inode_by_name (some x) n ≡ none))
        ⊎ ((q : List ℕ) × (y : Inode) × (find (to k p) n fs ≡ returned (to k (p ++ q), fs))
            × (target fs k (p ++ q) ≡ some y)
            × (find_inode_by_name (some x) n ≡ some y))
  unfolding find
  find_returns fs k p x n h = elim (find_place_cases x n) [
    | inl (e, e') ↦ inl (rw (h, find, e) refl, e')
    | inr (q, y, e, e', e3) ↦
        let (root, f, f') = target-inode_at fs k p x h in
        inr (
          q,
          y,
          rw (h, find, e) refl,
          target_of fs k (p ++ q) root f ∙ inode_at-append root x p q f' ∙ e',
          e3,
        )
  ]
