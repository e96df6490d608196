-- ===== src/Oblig/System/Builds.antt =====
-- Rules by which a do block of calls that make inodes returns in a consistent state.
use in2140_introduksjon_til.Oblig.System.Consistent.{Consistent}
use in2140_introduksjon_til.Oblig.System.Live.{Live, Kept}
use in2140_introduksjon_til.Oblig.Blocks.{BlockStore}
use in2140_introduksjon_til.Oblig.System.Build.{Copies, Built, make_file-Built, make_dir-Built}
use in2140_introduksjon_til.Common.Words.{Bytes}
use in2140_introduksjon_til.Oblig.System.{
  Action, ◌>>=◌, ◌>>◌, pure, seen, make_dir, make_file, save, to, returned, Machine, Fs, Pointer,
  null, dangling, Outcome, ended, broken,
}
use in2140_introduksjon_til.Common.{ℕ, ◌≡◌, refl, List, [], ◌∷◌}

-- The pointer is one of those that the block has at hand.
pub data In (q : Pointer) : List Pointer → Type 0 where
  here : {L : List Pointer} → In q (q ∷ L)
  there : {L : List Pointer} → (r : Pointer) → In q L → In q (r ∷ L)

module _ {B : BlockStore} where
  abbrev AllLive : Fs B → List Pointer → Type 0
  AllLive fs [] = Unit
  AllLive fs (q ∷ L) = Live fs q × AllLive fs L

  AllLive-In : (fs : Fs B) (q : Pointer) (L : List Pointer) → In q L → AllLive fs L → Live fs q
  AllLive-In fs q [] i ls = elim i [ ]
  AllLive-In fs q (_ ∷ L) here (l, ls) = l
  AllLive-In fs q (_ ∷ L) (there r i) (l, ls) = AllLive-In fs q L i ls

  AllLive-Kept : (fs fs' : Fs B) (L : List Pointer) → Kept fs fs' → AllLive fs L → AllLive fs' L
  AllLive-Kept fs fs' [] k ls = tt
  AllLive-Kept fs fs' (q ∷ L) k (l, ls) = (k q l, AllLive-Kept fs fs' L k ls)

  -- `m` returns, and leaves the trees consistent with the table.
  abbrev pub Finishes : {A : Type 0} → Outcome (A × Fs B) → Type 0
  Finishes ended = ⊥
  Finishes broken = ⊥
  Finishes (returned (a, fs')) = Consistent fs'

  -- From any consistent state in which the pointers are good, `m` finishes.
  pub record Builds {A : Type 0} (L : List Pointer) (m : Action B A) : Type 0 where
    pub finishes : (fs : Fs B) → Consistent fs → AllLive fs L → Finishes (m fs)

module _ {B : BlockStore} {A : Type 0} where
  pub Builds-pure : (L : List Pointer) (a : A) → Builds L (pure {B = B} a)
  unfolding pure
  Builds-pure L a = record { finishes = λ fs c ls. c }

  Built-then :
      (L : List Pointer) (fs : Fs B) (o : Outcome (Pointer × Fs B)) (m : Action B Pointer)
      (k : Pointer → Action B A)
      → m fs ≡ o
      → Built fs o
      → AllLive fs L
      → ((q : Pointer) → Builds (q ∷ L) (k q))
      → Finishes ((m >>= k) fs)
  unfolding ◌>>=◌
  Built-then L fs ended m k e b ls f = absurd b
  Built-then L fs broken m k e b ls f = absurd b
  Built-then L fs (returned (q, fs')) m k e (c, kept, l) ls f =
      rw (e, ◌>>=◌) ((f q).finishes fs' c (l, AllLive-Kept fs fs' L kept ls))

  pub Builds-make_dir :
      (L : List Pointer) (w : Machine) (q : Pointer) (n : Bytes) (k : Pointer → Action B A)
      → Copies w
      → In q L
      → ((c : Pointer) → Builds (c ∷ L) (k c))
      → Builds L (make_dir w q n >>= k)
  Builds-make_dir L w q n k cp i f = record {
    finishes = λ fs c ls.
        Built-then L fs _ (make_dir w q n) k refl
          (make_dir-Built w q n fs cp c (AllLive-In fs q L i ls)) ls f;
  }

  pub Builds-make_file :
      (L : List Pointer) (w : Machine) (q : Pointer) (n : Bytes) (size : ℕ) (m : Action B A)
      → Copies w
      → In q L
      → Builds L m
      → Builds L (make_file w q n size >> m)
  unfolding ◌>>◌
  Builds-make_file L w q n size m cp i b = record {
    finishes = λ fs c ls.
        Built-then L fs _ (make_file w q n size) (λ _. m) refl
          (make_file-Built w q n size fs cp c (AllLive-In fs q L i ls)) ls
          (λ c. record { finishes = λ fs c (l, ls). b.finishes fs c ls });
  }

module _ {B : BlockStore} where
  pub Builds-save :
      (L : List Pointer) (w : Machine) (q : Pointer) → In q L → Builds L (save {B = B} w q)
  unfolding save seen
  Builds-save L w q i = record { finishes = λ fs c ls. saved fs q c (AllLive-In fs q L i ls) }
    where
      saved : (fs : Fs B) (q : Pointer) → Consistent fs → Live fs q → Finishes (save w q fs)
      saved fs null c l =
          unfold save in unfold seen in (record { sound = c.sound; owned = c.owned })
      saved fs dangling c l = absurd l
      saved fs (to k p) c (x, h) = rw (h, save, seen) (record { sound = c.sound; owned = c.owned })

pub ruleset builds_rules =
    (Builds-pure, Builds-make_dir, Builds-make_file, Builds-save, here, there)
