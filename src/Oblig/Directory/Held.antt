-- ===== src/Oblig/Directory/Held.antt =====
-- oblig/inode.c: what the operations on a directory do to the blocks that its tree holds, against the
-- blocks that the table marks as used.
pub mod Deleted
use in2140_introduksjon_til.Oblig.Directory.Delete.{create_file_no_memory}
use in2140_introduksjon_til.Oblig.Directory.{
  add_inode_to_parent, Created, create_file_copied, create_dir_copied, link_child, Memory, State,
}
use in2140_introduksjon_til.Oblig.Directory.Create.{
  file_inode, handed_out, create_file_copied_taken, create_file_copied_cases,
}
use in2140_introduksjon_til.Common.Run.{ℤ, Run, exited, unchecked_null, ok}
use in2140_introduksjon_til.Common.Words.{Bytes}
use in2140_introduksjon_til.Common.{
  ◌==◌, if◌then◌else◌, ==_self, ==_eq, Bool-cases, Option-cases, ℕ, ◌+◌, ◌≤◌, ◌≡◌, refl, ap, ◌∙◌,
  inl, inr, true, false, ◌&&◌, Option, none, some, List, [], ◌∷◌, arith,
}
use in2140_introduksjon_til.Oblig.Inode.{
  children, with_children, snoc, find_inode_by_name, Inode, inode, nil,
}
use in2140_introduksjon_til.Oblig.Blocks.{BlockStore}
use in2140_introduksjon_til.Oblig.Tree.{times, held, held_in, held-with_children, held_in-snoc}
use in2140_introduksjon_til.Oblig.Directory.Reserve.{has, Distinct, Taken}

pub times_of_has : (b : ℕ) (bs : List ℕ) → has b bs ≡ true → 1 ≤ times b bs
unfolding times
times_of_has b [] h = cc
times_of_has b (c ∷ bs) h = ground (arith, times_of_has b bs)

times_of_not : (b : ℕ) (bs : List ℕ) → has b bs ≡ false → times b bs ≡ 0
unfolding times
times_of_not b [] h = refl
times_of_not b (c ∷ bs) h = ground (arith, times_of_not b bs)

times-le-one : (b : ℕ) (bs : List ℕ) → Distinct bs → times b bs ≤ 1
unfolding times
times-le-one b [] d = omega arith
times-le-one b (c ∷ bs) (out, d) = elim (Bool-cases (b == c)) [
  | inl e ↦
      let zero_left : times b bs ≡ 0 = times_of_not b bs (ap (λ x. has x bs) (==_eq b c e) ∙ out) in
      ground (arith, e, zero_left)
  | inr e ↦ ground (arith, e, times-le-one b bs d)
]

pub Distinct-of_times : (bs : List ℕ) → ((b : ℕ) → times b bs ≤ 1) → Distinct bs
unfolding times
Distinct-of_times [] h = tt
Distinct-of_times (c ∷ bs) h = (once, Distinct-of_times bs (λ b. omega (arith, h b)))
  where
    once : has c bs ≡ false
    once = elim (Bool-cases (has c bs)) [
      | inr e ↦ e
      | inl e ↦ absurd (ground (arith, h c, ==_self c, times_of_has c bs e))
    ]

module _ (B : BlockStore) where
  open B use {Store, used}

  abbrev pub use_count : Store → ℕ → ℕ
  use_count s b = if used s b then 1 else 0

  -- From `x` and `s` to `y` and `s'`, what the tree holds grew by no more than what is in use.
  abbrev pub Fair : Inode → Store → Inode → Store → Type 0
  Fair x s y s' = (b : ℕ) → held b y + use_count s b ≤ held b x + use_count s' b

  -- Every block of the tree is in use, and stands in it once.
  abbrev pub Owned : Inode → Store → Type 0
  Owned x s = (b : ℕ) → held b x ≤ use_count s b

module _ (B : BlockStore) where
  open B use {Store, IsSound, used}

  Fair-Taken :
      (x : Inode) (c : Inode) (bs : List ℕ) (s s' : Store)
      → ((b : ℕ) → held b c ≡ times b bs)
      → Taken B bs s s'
      → Fair B x s (with_children x (snoc (children x) c)) s'
  Fair-Taken x c bs s s' h t b =
      let more : held b (with_children x (snoc (children x) c)) ≡ held b x + times b bs =
        omega (
          arith,
          held-with_children b x (snoc (children x) c),
          held_in-snoc b (children x) c,
          h b,
        ) in
      elim (Bool-cases (has b bs)) [
        | inl e ↦ ground (arith, more, e, t.now b, t.fresh b, times-le-one b bs t.distinct)
        | inr e ↦ ground (arith, more, e, t.now b, times_of_not b bs e)
      ]

  pub Fair-refl : (x : Inode) (s s' : Store) → ((b : ℕ) → used s' b ≡ used s b) → Fair B x s x s'
  Fair-refl x s s' h b = ground (arith, h b)

  Fair-more_used : (x : Inode) (bs : List ℕ) (s s' : Store) → Taken B bs s s' → Fair B x s x s'
  Fair-more_used x bs s s' t b = ground (arith, t.now b)

  -- What a call leaves behind: the parent is there, and its tree and the store are fair.
  abbrev pub FairAfter : Inode → Store → Option Inode → Store → Type 0
  FairAfter x s none s' = ⊥
  FairAfter x s (some y) s' = IsSound s' × Fair B x s y s'

  -- The parent is as it was, or has the new inode as one more child.
  abbrev pub Added : Inode → Option Inode → Option Inode → Type 0
  Added x c none = ⊥
  Added x none (some y) = y ≡ x
  Added x (some c) (some y) = y ≡ with_children x (snoc (children x) c)

  abbrev pub FairResult : Inode → Store → Run (Created B) → Type 0
  FairResult x s exited = ⊥
  FairResult x s unchecked_null = ⊥
  FairResult x s (ok (c, y, st)) = FairAfter x s y st.store × Added x c y

  abbrev pub FairDelete : Inode → Store → Run (ℤ × Option Inode × Store) → Type 0
  FairDelete x s exited = ⊥
  FairDelete x s unchecked_null = ⊥
  FairDelete x s (ok (r, y, s')) = FairAfter x s y s'

  file_held :
      (b : ℕ) (n : Bytes) (size i : ℕ) (bs : List ℕ)
      → held b (file_inode B n size bs i) ≡ times b bs
  unfolding held held_in
  file_held b n size i bs = omega arith

  handed_out-Fair :
      (m : Memory) (parent : Inode) (n : Bytes) (size i : ℕ) (bs : List ℕ) (s s' : Store)
      → IsSound s'
      → Taken B bs s s'
      → FairResult parent s (ok (handed_out B m parent (file_inode B n size bs i) i s'))
  handed_out-Fair m parent n size i bs s s' sound t = elim (Bool-cases m.child_array) [
    | inl e ↦ rw e (
      (
        sound,
        Fair-Taken parent (file_inode B n size bs i) bs s s' (λ b. file_held b n size i bs) t,
      ),
      refl,
    )
    | inr e ↦ rw e ((sound, Fair-more_used parent bs s s' t), refl)
  ]

  pub create_file-Fair :
      (m : Memory) (parent : Inode) (n : Bytes) (size : ℕ) (st : State B)
      → IsSound st.store
      → FairResult parent st.store (create_file_copied B m (some parent) n size st)
  create_file-Fair m parent n size st sound =
      elim (Option-cases (find_inode_by_name (some parent) n)) [
        | inr (other, e) ↦
            rw (create_file_copied_taken B m parent other n size st e)
              ((sound, Fair-refl parent st.store st.store (λ b. refl)), refl)
        | inl new ↦ elim (Bool-cases (m.node && m.block_array)) [
          | inr e ↦
              rw (create_file_no_memory B m parent n size st new e)
                ((sound, Fair-refl parent st.store st.store (λ b. refl)), refl)
          | inl e ↦
              elim (create_file_copied_cases B m parent n size st.num_inode_ids st.store sound
                (ground arith) (ground arith) new) [
                  | inl (bs, s', done, sound', long, t) ↦
                      rw done
                        (handed_out-Fair m parent n size st.num_inode_ids bs st.store s' sound' t)
                  | inr (s', failed, sound', same, few) ↦
                      rw failed ((sound', Fair-refl parent st.store s' same), refl)
                ]
        ]
      ]

  pub create_dir-Fair :
      (m : Memory) (parent : Inode) (n : Bytes) (st : State B)
      → IsSound st.store
      → FairResult parent st.store (ok (create_dir_copied B m (some parent) n st))
  unfolding create_dir_copied link_child add_inode_to_parent held held_in times
  create_dir-Fair m parent n st sound =
      let same = Fair-refl parent st.store st.store (λ b. refl) in
      elim (Option-cases (find_inode_by_name (some parent) n)) [
        | inr (other, e) ↦ rw (e, create_dir_copied) ((sound, same), refl)
        | inl new ↦ elim (Bool-cases m.node) [
          | inr e ↦ rw (new, create_dir_copied, e) ((sound, same), refl)
          | inl e ↦ elim (Bool-cases m.child_array) [
            | inr full ↦ rw (new, create_dir_copied, e, full) ((sound, same), refl)
            | inl room ↦
                rw (new, create_dir_copied, e, room)
                  (
                    (
                      sound,
                      λ b. omega (
                        arith,
                        held-with_children b parent
                            (snoc (children parent) (inode st.num_inode_ids n 1 nil 0 [])),
                        held_in-snoc b (children parent) (inode st.num_inode_ids n 1 nil 0 []),
                      ),
                    ),
                    refl,
                  )
          ]
        ]
      ]
