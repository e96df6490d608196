-- ===== src/Plenum/Arp/Ages.antt =====
-- plenum/uke11/arpjob.c: which entries the table holds after replacements.
use native.Mathlib.Bridge.{le_prop}
use mathlib.Core.List.{
  Mem, Perm, Pairwise, forall_mem-cons, mem-cons_self, mem-cons_of_mem, perm_append_singleton,
  not-mem-nil,
}
use mathlib.Core.List.Perm
use in2140_introduksjon_til.Common.Ints.{lt}
use in2140_introduksjon_til.Common.Run.{pos}
use in2140_introduksjon_til.Common.{
  ℕ, zero, suc, ◌+◌, ◌≤◌, ◌≡◌, refl, sym, ap, ◌∙◌, subst, false, List, [], ◌∷◌, ◌++◌, map, arith,
}
use in2140_introduksjon_til.Plenum.Arp.{oldest, ArpEntry}

-- What the C library says of `qsort` with the comparison `oldest`: the entries are the same, and none
-- stands before one with a smaller age.
pub record IsAgeSort (by_age : List ArpEntry → List ArpEntry) : Type 0 where
  pub rearranges : (t : List ArpEntry) → Perm (by_age t) t
  pub ascends : (t : List ArpEntry) → Pairwise (λ a b. lt (oldest b a) (pos 0) ≡ false) (by_age t)

-- The numbers from `start` on.
unfoldable pub upto : (start n : ℕ) → List ℕ
upto start zero = []
upto start (suc n) = start ∷ upto (suc start) n

upto_end : (start n : ℕ) → upto start (suc n) ≡ upto start n ++ ((start + n) ∷ [])
unfolding upto
upto_end start zero = ap (λ k. k ∷ []) (omega arith)
upto_end start (suc n) =
    ap (λ xs. start ∷ xs)
      (upto_end (suc start) n ∙ ap (λ k. upto (suc start) n ++ (k ∷ [])) (omega arith))

abbrev IsBelow : ℕ → List ℕ → Type 0
IsBelow a l = (x : ℕ) → Mem x l → a ≤ x

IsBelow-cons : {a b : ℕ} {l : List ℕ} → a ≤ b → IsBelow a l → IsBelow a (b ∷ l)
IsBelow-cons p h = (forall_mem-cons (λ x. le_prop)).1 (p, h)

IsBelow-upto : (a start n : ℕ) → a ≤ start → IsBelow a (upto start n)
unfolding upto
IsBelow-upto a start zero h = λ x m. absurd (not-mem-nil m)
IsBelow-upto a start (suc n) h = IsBelow-cons h (IsBelow-upto a (suc start) n (omega arith))

abbrev pub ages : List ArpEntry → List ℕ
ages = map (λ e. e.age)

-- The ages of the table are the `n` numbers from `start` on, in some order.
abbrev pub Ages : (start n : ℕ) → List ArpEntry → Type 0
Ages start n t = Perm (ages t) (upto start n)

-- One more number at the end.
pub upto_one_more :
    (x start n : ℕ) (xs : List ℕ)
    → Perm xs (upto start n)
    → x ≡ start + n
    → Perm (x ∷ xs) (upto start (suc n))
upto_one_more x start n xs p e = Perm.trans (Perm.cons x p) (
    subst (λ l. Perm (x ∷ upto start n) l)
      (ap (λ k. upto start n ++ (k ∷ [])) e ∙ sym (upto_end start n))
      (Perm.symm (perm_append_singleton x (upto start n))))

IsBelow-ages :
    (a : ℕ) (t : List ArpEntry) → ((b : ArpEntry) → Mem b t → a ≤ b.age) → IsBelow a (ages t)
IsBelow-ages a [] h = λ x m. absurd (not-mem-nil m)
IsBelow-ages a (b ∷ t) h =
    IsBelow-cons (h b mem-cons_self) (IsBelow-ages a t (λ c m. h c (mem-cons_of_mem b m)))

not_older : (a b : ArpEntry) → lt (oldest b a) (pos 0) ≡ false → a.age ≤ b.age
unfolding oldest
not_older a b h = ground arith

-- The first of the sorted entries is the oldest.
pub first-oldest :
    (start m : ℕ) (t : List ArpEntry) (sorted : List ArpEntry)
    → Pairwise (λ a b. lt (oldest b a) (pos 0) ≡ false) sorted
    → Perm sorted t
    → Ages start (suc m) t
    → (old : ArpEntry) × (rest : List ArpEntry) × (sorted ≡ old ∷ rest)
      × (old.age ≡ start)
      × Ages (suc start) m rest
unfolding upto
first-oldest start m t [] up p q =
    let none_left : [] ≡ start ∷ upto (suc start) m =
      Perm.nil-eq (Perm.trans (Perm.map (λ e. e.age) p) q) in
    absurd cc
first-oldest start m t (old ∷ rest) (Pairwise.cons h _) p q =
    let same : Perm (old.age ∷ ages rest) (start ∷ upto (suc start) m) =
      Perm.trans (Perm.map (λ e. e.age) p) q in
    let above : start ≤ old.age =
      IsBelow-upto start start (suc m) (omega arith) old.age
        ((Perm.mem_iff same).0 mem-cons_self) in
    let below : old.age ≤ start =
      IsBelow-cons (omega arith) (IsBelow-ages old.age rest (λ b i. not_older old b (h b i))) start
        ((Perm.mem_iff same).1 mem-cons_self) in
    let age : old.age ≡ start = omega arith in
    (
      old,
      rest,
      refl,
      age,
      Perm.cons_inv (subst (λ a. Perm (a ∷ ages rest) (start ∷ upto (suc start) m)) age same),
    )
