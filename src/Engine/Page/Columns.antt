-- ===== src/Engine/Page/Columns.antt =====
-- The columns of a page: in order, the same ones as the row's, and the same for every order of the row.
use replicron.Base.{
  Text, List, [], ◌∷◌, ◌≡◌, refl, ap, ◌∙◌, true, false, All, All_imp, Bool-cases, inl, inr, arith,
  keys, text_lt, text_lt_irrefl, text_lt_trans, text_lt_total,
}
use mathlib.Core.List.{Permᴰ}
use mathlib.Core.List.Permᴰ
use replicron.Model.{Row}
use replicron.Engine.Page.{insert_sorted, sort, sorted_cols}

-- No name stands before one that is smaller.
abbrev pub AllAbove : Text → List Text → Type 0
AllAbove c = All (λ d. text_lt d c ≡ false)

abbrev pub IsSorted : List Text → Type 0
IsSorted [] = Unit
IsSorted (c ∷ cs) = AllAbove c cs × IsSorted cs

lt_le : (a b : Text) → text_lt a b ≡ true → text_lt b a ≡ false
lt_le a b h = ground (arith, text_lt_irrefl a, text_lt_trans a b a)

le_trans : (a b c : Text) → text_lt b a ≡ false → text_lt c b ≡ false → text_lt c a ≡ false
le_trans a b c h k = elim (text_lt_total a b) [
  | inl lt ↦ ground (arith, text_lt_trans c a b)
  | inr (inl e) ↦ rw e k
  | inr (inr gt) ↦ absurd (ground arith)
]

-- The order of two insertions does not matter.
insert_sorted_commutes :
    (a b : Text) (cs : List Text)
    → insert_sorted a (insert_sorted b cs) ≡ insert_sorted b (insert_sorted a cs)
unfolding insert_sorted
insert_sorted_commutes a b [] = ground (arith, text_lt_total a b, lt_le a b, lt_le b a)
insert_sorted_commutes a b (c ∷ cs) = ground (
  arith,
  insert_sorted_commutes a b cs,
  text_lt_total a b,
  text_lt_trans c a b,
  text_lt_trans c b a,
  text_lt_trans a b c,
  text_lt_trans b a c,
  lt_le a b,
  lt_le b a,
  le_trans a b c,
  le_trans b a c,
)

sort_canonical : (xs ys : List Text) → Permᴰ xs ys → sort xs ≡ sort ys
unfolding sort
sort_canonical _ _ Permᴰ.nil = refl
sort_canonical _ _ (Permᴰ.cons {a} {b} {l₁} {l₂} e p) =
    rw e (ap (insert_sorted b) (sort_canonical l₁ l₂ p))
sort_canonical _ _ (Permᴰ.swap {a} {b} {a'} {b'} {l} e f) =
    rw (e, f) (insert_sorted_commutes b' a' (sort l))
sort_canonical _ _ (Permᴰ.trans {l₁} {l₂} {l₃} p q) =
    sort_canonical l₁ l₂ p ∙ sort_canonical l₂ l₃ q

insert_sorted-perm : (c : Text) (cs : List Text) → Permᴰ (insert_sorted c cs) (c ∷ cs)
unfolding insert_sorted
insert_sorted-perm c [] = Permᴰ.cons refl Permᴰ.nil
insert_sorted-perm c (d ∷ ds) = elim (Bool-cases (text_lt d c)) [
  | inl lt ↦ rw lt (Permᴰ.trans (Permᴰ.cons refl (insert_sorted-perm c ds)) (Permᴰ.swap refl refl))
  | inr ge ↦ rw ge (Permᴰ.refl (c ∷ d ∷ ds))
]

sort-perm : (cs : List Text) → Permᴰ (sort cs) cs
unfolding sort
sort-perm [] = Permᴰ.nil
sort-perm (c ∷ cs) = Permᴰ.trans (insert_sorted-perm c (sort cs)) (Permᴰ.cons refl (sort-perm cs))

AllAbove-le : (a b : Text) (cs : List Text) → text_lt b a ≡ false → AllAbove b cs → AllAbove a cs
AllAbove-le a b cs h = All_imp (λ c k. le_trans a b c h k) cs

insert_sorted-AllAbove :
    (a c : Text) (cs : List Text)
    → text_lt c a ≡ false
    → AllAbove a cs
    → AllAbove a (insert_sorted c cs)
unfolding insert_sorted
insert_sorted-AllAbove a c [] h k = (h, tt)
insert_sorted-AllAbove a c (d ∷ ds) h (k, ks) = elim (Bool-cases (text_lt d c)) [
  | inl lt ↦ rw lt (k, insert_sorted-AllAbove a c ds h ks)
  | inr ge ↦ rw ge (h, (k, ks))
]

insert_sorted-IsSorted : (c : Text) (cs : List Text) → IsSorted cs → IsSorted (insert_sorted c cs)
unfolding insert_sorted
insert_sorted-IsSorted c [] h = (tt, tt)
insert_sorted-IsSorted c (d ∷ ds) (k, ks) = elim (Bool-cases (text_lt d c)) [
  | inl lt ↦ rw lt (insert_sorted-AllAbove d c ds (lt_le d c lt) k, insert_sorted-IsSorted c ds ks)
  | inr ge ↦ rw ge ((ge, AllAbove-le c d ds ge k), (k, ks))
]

sort-IsSorted : (cs : List Text) → IsSorted (sort cs)
unfolding sort
sort-IsSorted [] = tt
sort-IsSorted (c ∷ cs) = insert_sorted-IsSorted c (sort cs) (sort-IsSorted cs)

-- The columns of a row are its keys in ascending order, each as often as in the row, and two rows whose
-- keys differ in order only have the same columns: the order of Go's map iteration does not show.
pub sorted_cols_canonical :
    (r r' : Row)
    → Permᴰ (keys r) (keys r')
    → IsSorted (sorted_cols r) × Permᴰ (sorted_cols r) (keys r) × (sorted_cols r ≡ sorted_cols r')
unfolding sorted_cols
sorted_cols_canonical r r' p =
    (sort-IsSorted (keys r), sort-perm (keys r), sort_canonical (keys r) (keys r') p)
