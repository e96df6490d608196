-- ===== src/Oblig/Directory/Delete.antt =====
-- oblig/inode.c: `delete_file` and `delete_dir`, against the creation of what they delete.
use in2140_introduksjon_til.Common.{
  ◌==◌, ==_ne, Bool-cases, Option-cases, ℕ, ◌+◌, ◌≡◌, refl, sym, ◌∙◌, ◌≢◌, inl, inr, true, false,
  ◌&&◌, none, some, List, arith,
}
use in2140_introduksjon_til.Common.Run.{pos, ok}
use in2140_introduksjon_til.Common.Words.{Bytes}
use in2140_introduksjon_til.Oblig.Blocks.{BlockStore}
use in2140_introduksjon_til.Oblig.Inode.{
  name, is_directory, children, with_children, count, snoc, strcmp_eq, find_child,
  find_inode_by_name, Inode, inode, Inodes, nil, cons,
}
use in2140_introduksjon_til.Oblig.Directory.{
  free_blocks, create_file_copied, create_file, delete_file_shrunk, delete_file, delete_child,
  Memory, State,
}
use in2140_introduksjon_til.Oblig.Directory.Reserve.{free_blocks-Freed, Taken}
use in2140_introduksjon_til.Oblig.Directory.Create.{
  file_inode, state, handed_out, with_name_lem, create_file_copied_taken, create_file_copied_cases,
}
use in2140_introduksjon_til.Oblig.Directory.Names.{strcmp_eq_self, take_child-snoc}

count-snoc : (cs : Inodes) (c : Inode) → (count (snoc cs c) == 0) ≡ false
count-snoc nil c = refl
count-snoc (cons d cs) c = ground arith

not_found→find_child :
    (parent : Inode) (n : Bytes)
    → is_directory parent ≢ 0
    → find_inode_by_name (some parent) n ≡ none
    → find_child (children parent) n ≡ none
unfolding find_inode_by_name
not_found→find_child parent n dir h = elim (Bool-cases (strcmp_eq (name parent) n)) [
  | inl e ↦ cc (rw e at h)
  | inr e ↦ rw (e, ==_ne (is_directory parent) 0 dir) at h
]

module _ (B : BlockStore) where
  open B use {Store, IsSound, used}

  delete_file-snoc :
      (parent : Inode) (n : Bytes) (size i : ℕ) (bs : List ℕ) (s s' : Store)
      → is_directory parent ≢ 0
      → find_child (children parent) n ≡ none
      → free_blocks B bs s ≡ ok s'
      → delete_file_shrunk B
          (some (with_children parent (snoc (children parent) (file_inode B n size bs i))))
          (some (file_inode B n size bs i))
          s
        ≡ ok (pos 0, some parent, s')
  unfolding delete_file_shrunk
  delete_file-snoc (inode pi pn pd cs ps pb) n size i bs s s' dir new freed = rw (
    ==_ne pd 0 dir,
    count-snoc cs (file_inode B n size bs i),
    take_child-snoc cs (file_inode B n size bs i) n new (strcmp_eq_self n),
    delete_child,
    freed,
  )

  undone :
      (bs : List ℕ) (s s' : Store) (parent : Inode) (n : Bytes) (size i : ℕ)
      → is_directory parent ≢ 0
      → find_child (children parent) n ≡ none
      → IsSound s'
      → Taken B bs s s'
      → (s'' : Store) × (delete_file_shrunk B
            (some (with_children parent (snoc (children parent) (file_inode B n size bs i))))
            (some (file_inode B n size bs i))
            s'
          ≡ ok (pos 0, some parent, s''))
        × ((c : ℕ) → used s'' c ≡ used s c)
  undone bs s s' parent n size i dir new sound t =
      let (s'', freed, sound'', back) =
        free_blocks-Freed B bs s' sound t.distinct (λ c h. t.now c ∙ rw h) in
      (
        s'',
        delete_file-snoc parent n size i bs s' s'' dir new freed,
        λ c. back c ∙ ground (arith, t.now c, t.fresh c),
      )

  pub create_file_no_memory :
      (m : Memory) (parent : Inode) (n : Bytes) (size : ℕ) (st : State B)
      → find_inode_by_name (some parent) n ≡ none
      → (m.node && m.block_array) ≡ false
      → create_file_copied B m (some parent) n size st ≡ ok (none, some parent, st)
  unfolding create_file_copied
  create_file_no_memory m parent n size st new e = rw (new, create_file_copied, e)

  handed :
      (m : Memory) (parent child parent' : Inode) (n : Bytes) (size i : ℕ) (bs : List ℕ)
      (s s' : Store) (st : State B)
      → is_directory parent ≢ 0
      → find_child (children parent) n ≡ none
      → IsSound s'
      → Taken B bs s s'
      → ok (handed_out B m parent (file_inode B n size bs i) i s')
        ≡ ok (some child, some parent', st)
      → (s'' : Store) × (delete_file_shrunk B (some parent') (some child) st.store
          ≡ ok (pos 0, some parent, s''))
        × ((c : ℕ) → used s'' c ≡ used s c)
  handed m parent child parent' n size i bs s s' st dir new sound t e =
      elim (Bool-cases m.child_array) [
        | inr none_left ↦ cc (rw none_left at e)
        | inl room ↦
            let e' = rw room at e in
            let same_child : file_inode B n size bs i ≡ child = cc e' in
            let same_parent : with_children parent
                  (snoc (children parent) (file_inode B n size bs i))
                ≡ parent' =
              cc e' in
            let same_state : state B (i + 1) s' ≡ st = cc e' in
            rw (← same_child, ← same_parent, ← same_state)
              (undone bs s s' parent n size i dir new sound t)
      ]

  deleted-created :
      (m : Memory) (parent child parent' : Inode) (n : Bytes) (size i : ℕ) (s : Store)
      (st : State B)
      → IsSound s
      → is_directory parent ≢ 0
      → create_file_copied B m (some parent) n size (state B i s)
        ≡ ok (some child, some parent', st)
      → (s'' : Store) × (delete_file_shrunk B (some parent') (some child) st.store
          ≡ ok (pos 0, some parent, s''))
        × ((c : ℕ) → used s'' c ≡ used s c)
  deleted-created m parent child parent' n size i s st sound dir made =
      elim (Option-cases (find_inode_by_name (some parent) n)) [
        | inr (other, e) ↦
            cc (made, create_file_copied_taken B m parent other n size (state B i s) e)
        | inl new ↦ elim (Bool-cases (m.node && m.block_array)) [
          | inr e ↦ cc (made, create_file_no_memory m parent n size (state B i s) new e)
          | inl e ↦
              elim (create_file_copied_cases B m parent n size i s sound (ground arith)
                (ground arith) new) [
                  | inr (s', failed, sound', same, few) ↦ cc (made, failed)
                  | inl (bs, s', done, sound', long, t) ↦
                      handed m parent child parent' n size i bs s s' st dir
                        (not_found→find_child parent n dir new) sound' t (sym done ∙ made)
                ]
        ]
      ]

  -- If `create_file` in a directory, with a copy of the name, hands out an inode, `delete_file` of that
  -- inode, with memory for the smaller array, returns 0, gives back the parent as it was, and leaves
  -- every block in use or not as it was before the creation.
  pub delete_file-create_file :
      (m : Memory) (parent child parent' : Inode) (n : Bytes) (size i : ℕ) (s : Store)
      (st : State B)
      → IsSound s
      → is_directory parent ≢ 0
      → m.name_copy ≡ true
      → create_file B m (some parent) n size (state B i s) ≡ ok (some child, some parent', st)
      → (s'' : Store) × (delete_file B true (some parent') (some child) st.store
          ≡ ok (pos 0, some parent, s''))
        × ((c : ℕ) → used s'' c ≡ used s c)
  delete_file-create_file m parent child parent' n size i s st sound dir copied made =
      deleted-created m parent child parent' n size i s st sound dir (
        sym (with_name_lem B m (create_file_copied B m (some parent) n size (state B i s)) copied)
        ∙ made)
