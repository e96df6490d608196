-- ===== src/Oblig/Programs/Delete/Sections.antt =====
-- oblig/del_fs.c: how its parts end, and the whole.
use in2140_introduksjon_til.Oblig.Table.RoundTrip.{load_inodes-save_inodes}
use in2140_introduksjon_til.Oblig.Inode.{Inode}
use in2140_introduksjon_til.Oblig.System.Live.{get_elem?-snoc_last, Live, target_of}
use in2140_introduksjon_til.Oblig.Tree.{inode_at}
use in2140_introduksjon_til.Oblig.System.Consistent.{Consistent}
use in2140_introduksjon_til.Oblig.Blocks.{BlockStore}
use in2140_introduksjon_til.Oblig.Programs.Delete.Rules.{find_cases, try_delete_file_cases}
use in2140_introduksjon_til.Oblig.Programs.Delete.Ends.{
  Ended, Ends-pure, Ends-up, Ends-find, Ends-try_delete_dir, Ends-try_delete_file, Ends-last_dir,
  Ended-then, Ends-then, Ends-find_null, Ends-save, then_assoc, Ends,
}
use in2140_introduksjon_til.Common.Words.{Bytes, codes}
use in2140_introduksjon_til.Oblig.Programs.Delete.{
  when, try_delete_dir, try_delete_file, delete_found, delete_log_dir, delete_log, delete_man,
  delete_in_etc, delete_httpd, delete_download, delete_home, clean, del_fs,
}
use in2140_introduksjon_til.Oblig.System.{
  Action, ◌>>=◌, ◌>>◌, pure, find, save, load, Machine, Fs, Pointer, dangling, to, Outcome, ended,
  broken, returned,
}
use in2140_introduksjon_til.Oblig.Table.Format.{size, IsSaved}
use in2140_introduksjon_til.Oblig.Table.{save_inodes, always, load_inodes}
use in2140_introduksjon_til.Common.{
  length, ℕ, ◌+◌, ◌≡◌, refl, ap, ◌∙◌, ◌≢◌, inl, inr, true, Option, some, List, [], ◌∷◌, ◌++◌,
}

module _ {B : BlockStore} {A : Type 0} {E : Type 0} where
  Ends-delete_found :
      (k : ℕ) (p : List ℕ) (n : Bytes) (m : Action B A)
      → Ends E k p m
      → Ends E k p (delete_found (to k p) n >> m)
  unfolding delete_found ◌>>=◌ ◌>>◌ pure
  Ends-delete_found k p n m e = record {
    ends = λ fs c l. elim (find_cases fs k p n l) [
      | inl r ↦ rw (r, ◌>>=◌) (e.ends fs c l)
      | inr (q, r, l') ↦
          let (b, fs', r', c', l2) = try_delete_file_cases fs k p q c l' in
          rw (r, ◌>>=◌, r', ◌>>=◌) (e.ends fs' c' l2)
    ];
  }

module _ {B : BlockStore} where
  found-Ends :
      {E : Type 0} (k : ℕ) (p : List ℕ) (n : Bytes) → Ends {B = B} E k p (delete_found (to k p) n)
  unfolding delete_found
  found-Ends k p n =
      Ends-find k p n _ (Ends-pure k p tt)
        (λ q. Ends-try_delete_file k p q (pure tt) (Ends-pure k p tt))

  -- The first `try_delete_dir` may release the directory that the rest goes on with.
  log_dir-Ends :
      (k : ℕ) (p q : List ℕ)
      → Ends {B = B} (Unit {0}) k (p ++ q) (delete_log_dir (to k p) (to k (p ++ q)))
  unfolding delete_log_dir
  log_dir-Ends k p q =
      Ends-try_delete_dir k p q _
        (Ends-delete_found k (p ++ q) (codes "message") _ (
          Ends-delete_found k (p ++ q) (codes "warn") _ (
            Ends-delete_found k (p ++ q) (codes "fail") _
              (Ends-last_dir k p q (pure tt) (Ends-pure k p tt)))))
        released
    where
      released : Ends {B = B} (Unit {0}) k p (
          delete_found dangling (codes "message")
          >> (delete_found dangling (codes "warn")
              >> (delete_found dangling (codes "fail")
                  >> (try_delete_dir (to k p) dangling >> pure tt))))
      released =
          unfold delete_found in
          unfold find in unfold ◌>>=◌ in unfold ◌>>◌ in (record { ends = λ fs c l. tt })

  pub log-Ends : (k : ℕ) → Ends {B = B} (Unit {0}) k [] (delete_log (to k []))
  unfolding delete_log
  log-Ends k =
      Ends-find k [] (codes "var") _ (Ends-pure k [] tt)
        (λ p. Ends-find k p (codes "log") _ (Ends-pure k p tt) (λ q. log_dir-Ends k p q))

  man-Ends : (k : ℕ) → Ends {B = B} ⊥ k [] (delete_man (to k []))
  unfolding delete_man
  man-Ends k = Ends-find k [] (codes "share") _ (Ends-pure k [] tt) (λ p.
      Ends-find k p (codes "man") _ (Ends-pure k p tt)
        (λ q. found-Ends k (p ++ q) (codes "read.2")))

  etc-Ends : (k : ℕ) (n : Bytes) → Ends {B = B} ⊥ k [] (delete_in_etc (to k []) n)
  unfolding delete_in_etc
  etc-Ends k n = Ends-find k [] (codes "etc") _ (Ends-pure k [] tt) (λ p. found-Ends k p n)

  httpd-Ends : (k : ℕ) → Ends {B = B} ⊥ k [] (delete_httpd (to k []))
  unfolding delete_httpd
  httpd-Ends k = Ends-find k [] (codes "etc") _ (Ends-pure k [] tt) (λ p.
      Ends-find k p (codes "httpd") _ (Ends-pure k p tt)
        (λ q. Ends-try_delete_dir k p q _ (Ends-up k p q _ (again p)) (again p)))
    where
      again :
          (p : List ℕ)
          → Ends {B = B} ⊥ k p (
              find (to k p) (codes "httpd") >>= λ again. when again (
                find again (codes "conf") >>= λ node.
                when node
                  (try_delete_file again node >> (try_delete_dir (to k p) again >> pure tt))))
      again p = Ends-find k p (codes "httpd") _ (Ends-pure k p tt) (λ q.
          Ends-find k (p ++ q) (codes "conf") _ (Ends-pure k (p ++ q) tt)
            (λ r. Ends-try_delete_file k (p ++ q) r _ (Ends-last_dir k p q _ (Ends-pure k p tt))))

  download-Ends :
      (k : ℕ) (p q r : List ℕ)
      → Ends {B = B} ⊥ k
          ((p ++ q) ++ r)
          (delete_download (to k p) (to k (p ++ q)) (to k ((p ++ q) ++ r)))
  unfolding delete_download
  download-Ends k p q r = Ends-try_delete_dir k (p ++ q) r _ (Ends-up k (p ++ q) r _ again) again
    where
      again : Ends {B = B} ⊥ k (p ++ q) (
          find (to k (p ++ q)) (codes "Download") >>= λ again. when again (
            find again (codes "oblig2") >>= λ ob_node. when ob_node (
              try_delete_file again ob_node
              >> (try_delete_dir (to k (p ++ q)) again
                  >> (try_delete_dir (to k p) (to k (p ++ q)) >> pure tt)))))
      again = Ends-find k (p ++ q) (codes "Download") _ (Ends-pure k (p ++ q) tt) (λ s.
          Ends-find k ((p ++ q) ++ s) (codes "oblig2") _ (Ends-pure k ((p ++ q) ++ s) tt) (λ t.
            Ends-try_delete_file k ((p ++ q) ++ s) t _
              (Ends-last_dir k (p ++ q) s _ (Ends-last_dir k p q _ (Ends-pure k p tt)))))

  home-Ends : (k : ℕ) → Ends {B = B} ⊥ k [] (delete_home (to k []))
  unfolding delete_home
  home-Ends k = Ends-find k [] (codes "home") _ (Ends-pure k [] tt) (λ p.
      Ends-find k p (codes "user") _ (Ends-pure k p tt)
        (λ q. Ends-try_delete_dir k p q _ (Ends-up k p q _ (again p)) (again p)))
    where
      again :
          (p : List ℕ)
          → Ends {B = B} ⊥ k p (
              find (to k p) (codes "user") >>= λ udir. find udir (codes "Download") >>= λ dl_dir.
              when dl_dir (delete_download (to k p) udir dl_dir))
      again p =
          Ends-find k p (codes "user") _
            (Ends-find_null k p (codes "Download") _ (Ends-pure k p tt))
            (λ q.
              Ends-find k (p ++ q) (codes "Download") _ (Ends-pure k (p ++ q) tt)
                (λ r. download-Ends k p q r))

  -- The program behind the part on `/var/log`.
  rest-Ends :
      (k : ℕ) (w : Machine)
      → Ends {B = B} ⊥ k [] (
          delete_man (to k [])
          >> (delete_in_etc (to k []) (codes "hosts")
              >> (delete_in_etc (to k []) (codes "host.conf")
                  >> (delete_httpd (to k []) >> (delete_home (to k []) >> save w (to k []))))))
  rest-Ends k w = Ends-then k [] _ _ (man-Ends k) (
      Ends-then k [] _ _ (etc-Ends k (codes "hosts")) (
        Ends-then k [] _ _ (etc-Ends k (codes "host.conf"))
          (Ends-then k [] _ _ (httpd-Ends k) (Ends-then k [] _ _ (home-Ends k) (Ends-save k w)))))

  -- The part up to the deletions in `/var/log`.
  unfoldable pub clean_log : Pointer → Action B (Unit {0})
  clean_log root = delete_found root (codes "kernel") >> delete_log root

  clean-split :
      (w : Machine) (root : Pointer) (fs : Fs B)
      → clean w root fs
        ≡ (clean_log root
              >> (delete_man root
                  >> (delete_in_etc root (codes "hosts")
                      >> (delete_in_etc root (codes "host.conf")
                          >> (delete_httpd root >> (delete_home root >> save w root))))))
            fs
  unfolding clean clean_log
  clean-split w root fs =
      then_assoc (delete_found root (codes "kernel")) (delete_log root) _ fs _ refl

  unbroken :
      {A : Type 0} (k : ℕ) (o : Outcome (A × Fs B))
      → o ≢ broken
      → Ended (Unit {0}) k o
      → Ended ⊥ k o
  unbroken k ended n h = h
  unbroken k broken n h = absurd (n refl)
  unbroken k (returned (a, fs)) n h = h

  clean-Ended :
      (w : Machine) (k : ℕ) (fs : Fs B)
      → Consistent fs
      → Live fs (to k [])
      → clean_log (to k []) fs ≢ broken
      → Ended ⊥ k (clean w (to k []) fs)
  unfolding clean_log
  clean-Ended w k fs c l n = rw (clean-split w (to k []) fs) (
      Ended-then k (clean_log (to k [])) _ fs _ refl
        (unbroken k _ n ((Ends-delete_found k [] (codes "kernel") _ (log-Ends k)).ends fs c l))
        (rest-Ends k w))

  -- The state behind `load_inodes` of a file that `save_inodes` wrote.
  abbrev pub with_loaded : Fs B → Inode → Fs B
  with_loaded fs t = record fs {
    trees = fs.trees ++ (t ∷ []);
    state = record fs.state { num_inode_ids = fs.state.num_inode_ids + size t };
  }

  -- With memory for the inodes, on a master file table that `save_inodes` wrote for a tree that the format
  -- can hold and that agrees with the block allocation table: unless the part up to the deletions in
  -- `/var/log` follows a bad pointer, the program returns, without following one, and the trees in memory
  -- agree with the block allocation table again.
  pub del_fs-Ended :
      (w : Machine) (fs : Fs B) (t : Inode) (before : Option Bytes)
      → IsSaved t
      → fs.mft ≡ save_inodes true (some t) before
      → Consistent (with_loaded fs t)
      → clean_log (to (length fs.trees) []) (with_loaded fs t) ≢ broken
      → Ended ⊥ (length fs.trees) (del_fs always w fs)
  unfolding del_fs load ◌>>=◌ inode_at
  del_fs-Ended w fs t before saved e c n =
      let there =
        ap (λ m. load_inodes always m fs.state.num_inode_ids) e
        ∙ load_inodes-save_inodes t before fs.state.num_inode_ids saved in
      rw (there, ◌>>=◌, load)
        (clean-Ended w (length fs.trees) (with_loaded fs t) c
          (t, target_of (with_loaded fs t) (length fs.trees) [] t (get_elem?-snoc_last fs.trees t))
          n)
