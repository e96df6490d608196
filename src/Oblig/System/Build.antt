-- ===== src/Oblig/System/Build.antt =====
-- oblig/inode.c as the create programs use it: the calls that make inodes return, keep the trees
-- consistent with the table, and keep every pointer good.
use in2140_introduksjon_til.Oblig.Directory.Create.{with_name_lem}
use in2140_introduksjon_til.Oblig.System.Consistent.{
  held_all-snoc, target-inode_at, stored-Consistent, Consistent,
}
use in2140_introduksjon_til.Oblig.Blocks.{BlockStore}
use in2140_introduksjon_til.Oblig.System.Live.{
  get_elem?-snoc, get_elem?-snoc_last, Live, Kept, target_of, stored-Kept, stored-child,
}
use in2140_introduksjon_til.Oblig.Tree.Paths.{children_with, child_at-snoc, Extends}
use in2140_introduksjon_til.Oblig.Tree.{child_at, inode_at, times, held, held_in}
use in2140_introduksjon_til.Oblig.Directory.Held.{FairResult, create_file-Fair, create_dir-Fair}
use in2140_introduksjon_til.Common.Words.{Bytes}
use in2140_introduksjon_til.Oblig.System.{
  target, called, rooted, linked, make_dir, make_file, to, returned, made, Machine, Fs, Pointer,
  null, dangling, Outcome, ended, broken,
}
use in2140_introduksjon_til.Oblig.Inode.{children, with_children, snoc, Inode, inode, nil}
use in2140_introduksjon_til.Oblig.Directory.{
  Created, create_file_copied, create_dir_copied, create_dir, Memory, State,
}
use in2140_introduksjon_til.Common.Run.{Run, exited, unchecked_null, ok}
use in2140_introduksjon_til.Common.{
  Bool-cases, length, ℕ, ◌+◌, ◌≡◌, sym, ap, ◌∙◌, subst, inl, inr, true, Option, none, some, List,
  [], ◌∷◌, ◌++◌, arith,
}

Extends-refl : (x : Inode) → Extends x x
Extends-refl x i c h = h

Extends-snoc : (x c : Inode) → Extends x (with_children x (snoc (children x) c))
Extends-snoc x c i d h =
    ap (λ cs. child_at cs i) (children_with x (snoc (children x) c))
    ∙ child_at-snoc (children x) c i d h

-- `strdup` returns a copy in every call.
abbrev pub Copies : Machine → Type 0
Copies w = (k : ℕ) → let m = w.memory k in m.name_copy ≡ true

module _ {B : BlockStore} where
  open B use {Store, IsSound, used}

  -- The call returns, everything is consistent, and the old pointers and the new one are good.
  abbrev pub Built : Fs B → Outcome (Pointer × Fs B) → Type 0
  Built fs ended = ⊥
  Built fs broken = ⊥
  Built fs (returned (q, fs')) = Consistent fs' × Kept fs fs' × Live fs' q

  linked-Built :
      (fs : Fs B) (k : ℕ) (p : List ℕ) (x : Inode) (c y : Option Inode) (st : State B)
      → Consistent fs
      → target fs k p ≡ some x
      → FairResult B x fs.state.store (ok (c, y, st))
      → Built fs (returned (linked fs k p x (c, y, st)))
  linked-Built fs k p x c none st con h (fair, added) = absurd added
  linked-Built fs k p x none (some y) st con h (fair, added) = (
    stored-Consistent fs k p x (some y) st con h fair,
    stored-Kept fs k p x y st h (subst (Extends x) (sym added) (Extends-refl x)),
    tt,
  )
  linked-Built fs k p x (some c) (some y) st con h (fair, added) = (
    stored-Consistent fs k p x (some y) st con h fair,
    stored-Kept fs k p x y st h (subst (Extends x) (sym added) (Extends-snoc x c)),
    (c, rw added (stored-child fs k p x c st h)),
  )

  made-Built :
      (fs : Fs B) (k : ℕ) (p : List ℕ) (x : Inode) (r : Run (Created B))
      → Consistent fs
      → target fs k p ≡ some x
      → FairResult B x fs.state.store r
      → Built fs (made (linked fs k p x) r)
  made-Built fs k p x exited con h f = absurd f
  made-Built fs k p x unchecked_null con h f = absurd f
  made-Built fs k p x (ok (c, y, st)) con h f = linked-Built fs k p x c y st con h f

  called-Consistent : (fs : Fs B) → Consistent fs → Consistent (called fs)
  called-Consistent fs c = record { sound = c.sound; owned = c.owned }

  called-Kept : (fs : Fs B) → Kept fs (called fs)
  unfolding target
  called-Kept fs null h = tt
  called-Kept fs dangling h = h
  called-Kept fs (to k p) h = h

  pub make_file-Built :
      (w : Machine) (q : Pointer) (n : Bytes) (size : ℕ) (fs : Fs B)
      → Copies w
      → Consistent fs
      → Live fs q
      → Built fs (make_file w q n size fs)
  unfolding make_file create_file_copied
  make_file-Built w null n size fs cp c l =
      rw (with_name_lem B (w.memory fs.calls) (ok (none, none, fs.state)) (cp fs.calls))
        (called-Consistent fs c, called-Kept fs, tt)
  make_file-Built w dangling n size fs cp c l = absurd l
  make_file-Built w (to k p) n size fs cp c (x, h) =
      rw
        (
          h,
          make_file,
          with_name_lem B (w.memory fs.calls)
              (create_file_copied B (w.memory fs.calls) (some x) n size fs.state) (cp fs.calls),
        )
        (made-Built (called fs) k p x _ (called-Consistent fs c) h
          (create_file-Fair B (w.memory fs.calls) x n size fs.state c.sound))

  grown : (fs : Fs B) → Inode → State B → Fs B
  grown fs root st = record fs { trees = fs.trees ++ (root ∷ []); state = st }

  grown-Kept : (fs : Fs B) (root : Inode) (st : State B) → Kept fs (grown fs root st)
  unfolding grown
  grown-Kept fs root st null h = tt
  grown-Kept fs root st dangling h = h
  grown-Kept fs root st (to k p) (x, h) =
      let (r, e, e') = target-inode_at fs k p x h in
      (x, target_of (grown fs root st) k p r (get_elem?-snoc fs.trees k root r e) ∙ e')

  rooted-Built :
      (fs : Fs B) (m : Memory) (n : Bytes)
      → Consistent fs
      → m.name_copy ≡ true
      → Built fs (made (rooted (called fs)) (create_dir B m none n fs.state))
  unfolding create_dir_copied grown inode_at held held_in times
  rooted-Built fs m n c copied =
      rw (with_name_lem B m (ok (create_dir_copied B m none n fs.state)) copied)
        (elim (Bool-cases m.node) [
          | inr e ↦ rw e (called-Consistent fs c, called-Kept fs, tt)
          | inl e ↦
              let root = inode fs.state.num_inode_ids n 1 nil 0 [] in
              let st = record fs.state { num_inode_ids = fs.state.num_inode_ids + 1 } in
              rw e (
                record {
                  sound = c.sound;
                  owned = λ b. omega (arith, held_all-snoc b fs.trees root, c.owned b);
                },
                (λ q h. grown-Kept (called fs) root st q (called-Kept fs q h)),
                (
                  root,
                  target_of (grown (called fs) root st) (length fs.trees) [] root
                      (get_elem?-snoc_last fs.trees root),
                ),
              )
        ])

  pub make_dir-Built :
      (w : Machine) (q : Pointer) (n : Bytes) (fs : Fs B)
      → Copies w
      → Consistent fs
      → Live fs q
      → Built fs (make_dir w q n fs)
  unfolding make_dir
  make_dir-Built w null n fs cp c l = rooted-Built fs (w.memory fs.calls) n c (cp fs.calls)
  make_dir-Built w dangling n fs cp c l = absurd l
  make_dir-Built w (to k p) n fs cp c (x, h) =
      rw
        (
          h,
          make_dir,
          with_name_lem B (w.memory fs.calls)
              (ok (create_dir_copied B (w.memory fs.calls) (some x) n fs.state)) (cp fs.calls),
        )
        (linked-Built (called fs) k p x _ _ _ (called-Consistent fs c) h
          (create_dir-Fair B (w.memory fs.calls) x n fs.state c.sound))
