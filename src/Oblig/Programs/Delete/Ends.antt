-- ===== src/Oblig/Programs/Delete/Ends.antt =====
-- Rules by which the deletions of oblig/del_fs.c end.
use in2140_introduksjon_til.Oblig.System.Consistent.{Consistent}
use in2140_introduksjon_til.Oblig.Programs.Delete.Rules.{
  Live-prefix, find_cases, try_delete_dir_cases, try_delete_file_cases,
}
use in2140_introduksjon_til.Oblig.Blocks.{BlockStore}
use in2140_introduksjon_til.Oblig.System.Live.{Live}
use in2140_introduksjon_til.Common.Words.{Bytes}
use in2140_introduksjon_til.Oblig.Programs.Delete.{try_delete_dir, try_delete_file}
use in2140_introduksjon_til.Oblig.System.{
  Action, ◌>>=◌, ◌>>◌, pure, target, seen, find, save, Machine, Fs, Pointer, null, to, Outcome,
  ended, broken, returned,
}
use in2140_introduksjon_til.Common.{ℕ, ◌≡◌, refl, inl, inr, Bool, true, false, List, [], ◌++◌}

module _ {B : BlockStore} where
  -- The code does not exit; it follows a bad pointer only if `E` holds; and if it returns, the trees
  -- are consistent with the table and the root of tree `k` is there.
  abbrev pub Ended : {A : Type 0} → Type 0 → ℕ → Outcome (A × Fs B) → Type 0
  Ended E k ended = ⊥
  Ended E k broken = E
  Ended E k (returned (a, fs)) = Consistent fs × Live fs (to k [])

  -- From a consistent state with an inode at the end of this path, `m` ends.
  pub record Ends {A : Type 0} (E : Type 0) (k : ℕ) (p : List ℕ) (m : Action B A) : Type 0 where
    pub ends : (fs : Fs B) → Consistent fs → Live fs (to k p) → Ended E k (m fs)

module _ {B : BlockStore} {A : Type 0} {E : Type 0} where
  pub Ends-pure : (k : ℕ) (p : List ℕ) (a : A) → Ends E k p (pure {B = B} a)
  unfolding pure
  Ends-pure k p a = record { ends = λ fs c l. (c, Live-prefix fs k [] p l) }

  -- The end of a path is further down than its start.
  pub Ends-up : (k : ℕ) (p q : List ℕ) (m : Action B A) → Ends E k p m → Ends E k (p ++ q) m
  Ends-up k p q m e = record { ends = λ fs c l. e.ends fs c (Live-prefix fs k p q l) }

  pub Ends-find :
      (k : ℕ) (p : List ℕ) (n : Bytes) (f : Pointer → Action B A)
      → Ends E k p (f null)
      → ((q : List ℕ) → Ends E k (p ++ q) (f (to k (p ++ q))))
      → Ends E k p (find (to k p) n >>= f)
  unfolding ◌>>=◌
  Ends-find k p n f e g = record {
    ends = λ fs c l. elim (find_cases fs k p n l) [
      | inl r ↦ rw (r, ◌>>=◌) (e.ends fs c l)
      | inr (q, r, l') ↦ rw (r, ◌>>=◌) ((g q).ends fs c l')
    ];
  }

  pub Ends-try_delete_dir :
      (k : ℕ) (p q : List ℕ) (f : Bool → Action B A)
      → Ends E k (p ++ q) (f false)
      → Ends E k p (f true)
      → Ends E k (p ++ q) (try_delete_dir (to k p) (to k (p ++ q)) >>= f)
  unfolding ◌>>=◌
  Ends-try_delete_dir k p q f e g = record {
    ends = λ fs c l.
        let (fs', c', cases) = try_delete_dir_cases fs k p q c l in
        elim cases [
          | inl (r, l') ↦ rw (r, ◌>>=◌) (e.ends fs' c' l')
          | inr (r, l') ↦ rw (r, ◌>>=◌) (g.ends fs' c' l')
        ];
  }

  pub Ends-try_delete_file :
      (k : ℕ) (p q : List ℕ) (m : Action B A)
      → Ends E k p m
      → Ends E k (p ++ q) (try_delete_file (to k p) (to k (p ++ q)) >> m)
  unfolding ◌>>=◌ ◌>>◌
  Ends-try_delete_file k p q m e = record {
    ends = λ fs c l.
        let (b, fs', r, c', l') = try_delete_file_cases fs k p q c l in
        rw (r, ◌>>=◌) (e.ends fs' c' l');
  }

  -- The same of the last deletion of a directory, whose result is not used.
  pub Ends-last_dir :
      (k : ℕ) (p q : List ℕ) (m : Action B A)
      → Ends E k p m
      → Ends E k (p ++ q) (try_delete_dir (to k p) (to k (p ++ q)) >> m)
  unfolding ◌>>◌
  Ends-last_dir k p q m e = Ends-try_delete_dir k p q (λ _. m) (Ends-up k p q m e) e

  pub Ended-then :
      (k : ℕ) {C : Type 0} (m : Action B C) (m' : Action B A) (fs : Fs B) (o : Outcome (C × Fs B))
      → m fs ≡ o
      → Ended E k o
      → Ends E k [] m'
      → Ended E k ((m >> m') fs)
  unfolding ◌>>=◌ ◌>>◌
  Ended-then k m m' fs ended r h e = absurd h
  Ended-then k m m' fs broken r h e = rw (r, ◌>>=◌) h
  Ended-then k m m' fs (returned (a, fs')) r (c, l) e = rw (r, ◌>>=◌) (e.ends fs' c l)

  pub Ends-then :
      (k : ℕ) (p : List ℕ) {C : Type 0} (m : Action B C) (m' : Action B A)
      → Ends E k p m
      → Ends E k [] m'
      → Ends E k p (m >> m')
  Ends-then k p m m' e e' = record {
    ends = λ fs c l. Ended-then k m m' fs (m fs) refl (e.ends fs c l) e';
  }

  pub Ends-find_null :
      (k : ℕ) (p : List ℕ) (n : Bytes) (f : Pointer → Action B A)
      → Ends E k p (f null)
      → Ends E k p (find null n >>= f)
  unfolding ◌>>=◌ find
  Ends-find_null k p n f e = record { ends = λ fs c l. e.ends fs c l }

module _ {B : BlockStore} {E : Type 0} where
  pub Ends-save : (k : ℕ) (w : Machine) → Ends {B = B} E k [] (save w (to k []))
  unfolding save seen target
  Ends-save k w = record {
    ends = λ fs c (x, h).
        let there = h in
        rw (h, save, seen) (record { sound = c.sound; owned = c.owned }, (x, there));
  }

module _ {B : BlockStore} {A C D : Type 0} where
  pub then_assoc :
      (a : Action B A) (b : Action B C) (r : Action B D) (fs : Fs B) (o : Outcome (A × Fs B))
      → a fs ≡ o
      → (a >> (b >> r)) fs ≡ ((a >> b) >> r) fs
  unfolding ◌>>=◌ ◌>>◌
  then_assoc a b r fs ended e = rw (e, ◌>>=◌) refl
  then_assoc a b r fs broken e = rw (e, ◌>>=◌) refl
  then_assoc a b r fs (returned (x, fs')) e = rw (e, ◌>>=◌) refl
