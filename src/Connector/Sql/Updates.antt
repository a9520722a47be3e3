-- ===== src/Connector/Sql/Updates.antt =====
-- Which columns an upsert updates.
use replicron.Base.{
  ℕ, Text, codes, List, [], ◌∷◌, ◌++◌, map, ◌≡◌, refl, sym, ap, ◌∙◌, ◌↔◌, inl, inr, true, false,
  arith, All, Any, Bool-cases, text_eq, text_eq_iff, append_assoc, subst,
}
use replicron.Base.Strings.{join}
use replicron.Connector.Sql.{in_keys, updates, quoted_list, insert_with, upsert_on_conflict}

-- The name stands in the list.
infix 50 ◌∈◌
abbrev pub ◌∈◌ : Text → List Text → Type 0
c ∈ cs = Any (λ k. k ≡ c) cs

in_keys→∈ : (c : Text) (ks : List Text) → in_keys c ks ≡ true → c ∈ ks
unfolding in_keys
in_keys→∈ c [] h = cc
in_keys→∈ c (k ∷ ks) h = elim (Bool-cases (text_eq k c)) [
  | inl e ↦ inl ((text_eq_iff k c).0 e)
  | inr e ↦ inr (in_keys→∈ c ks (rw e at h))
]

∈→in_keys : (c : Text) (ks : List Text) → c ∈ ks → in_keys c ks ≡ true
unfolding in_keys
∈→in_keys c [] m = absurd m
∈→in_keys c (k ∷ ks) (inl e) = rw ((text_eq_iff k c).1 e)
∈→in_keys c (k ∷ ks) (inr m) = ground (arith, ∈→in_keys c ks m)

-- The columns that the update sets, before they are put into text.
abbrev pub updated : List Text → List Text → List Text
updated = updates (λ c. c)

updates-map :
    (f : Text → Text) (keys cols : List Text) → updates f keys cols ≡ map f (updated keys cols)
unfolding updates
updates-map f keys [] = refl
updates-map f keys (c ∷ cs) = elim (Bool-cases (in_keys c keys)) [
  | inl e ↦ rw e (updates-map f keys cs)
  | inr e ↦ rw e (ap (λ r. f c ∷ r) (updates-map f keys cs))
]

mem-kept :
    (keys ds : List Text) (d c : Text)
    → in_keys d keys ≡ false
    → (c ∈ updated keys ds → (c ∈ ds) × ¬ (c ∈ keys))
    → c ∈ (d ∷ updated keys ds)
    → (c ∈ (d ∷ ds)) × ¬ (c ∈ keys)
mem-kept keys ds d c h rec (inl e) =
    (inl e, λ m. cc (sym h ∙ ∈→in_keys d keys (subst (λ x. x ∈ keys) (sym e) m)))
mem-kept keys ds d c h rec (inr m) = let (there, out) = rec m in (inr there, out)

mem-updated : (keys cols : List Text) (c : Text) → c ∈ updated keys cols → (c ∈ cols) × ¬ (c ∈ keys)
unfolding updates
mem-updated keys [] c m = absurd m
mem-updated keys (d ∷ ds) c m = elim (Bool-cases (in_keys d keys)) [
  | inl h ↦ let (there, out) = mem-updated keys ds c (rw h at m) in (inr there, out)
  | inr h ↦ mem-kept keys ds d c h (mem-updated keys ds c) (rw h at m)
]

updated-mem : (keys cols : List Text) (c : Text) → c ∈ cols → ¬ (c ∈ keys) → c ∈ updated keys cols
unfolding updates
updated-mem keys [] c m out = absurd m
updated-mem keys (d ∷ ds) c (inl e) out = elim (Bool-cases (in_keys d keys)) [
  | inl h ↦ absurd (out (subst (λ x. x ∈ keys) e (in_keys→∈ d keys h)))
  | inr h ↦ rw h (inl e)
]
updated-mem keys (d ∷ ds) c (inr m) out = elim (Bool-cases (in_keys d keys)) [
  | inl h ↦ rw h (updated-mem keys ds c m out)
  | inr h ↦ rw h (inr (updated-mem keys ds c m out))
]

-- An upsert sets exactly the columns that are not keys: the list in its SET clause is their images
-- under the assignment's text `f`, and a column is among them if and only if it is a column and no key.
pub updates_iff_not_key :
    (f : Text → Text) (keys cols : List Text)
    → (updates f keys cols ≡ map f (updated keys cols))
      × ((c : Text) → (c ∈ updated keys cols) ↔ ((c ∈ cols) × ¬ (c ∈ keys)))
updates_iff_not_key f keys cols =
    (updates-map f keys cols, λ c. (mem-updated keys cols c, λ p. updated-mem keys cols c p.0 p.1))

updates_all_keys :
    (f : Text → Text) (keys cols : List Text) → All (λ c. c ∈ keys) cols → updates f keys cols ≡ []
unfolding updates
updates_all_keys f keys [] h = refl
updates_all_keys f keys (c ∷ cs) (h, hs) = rw (∈→in_keys c keys h) (updates_all_keys f keys cs hs)

-- The upsert of PostgreSQL and SQLite is the insert statement followed by the conflict clause. Where
-- every column is a key the clause ends behind SET, with no assignment.
pub upsert_of_only_keys :
    (q : Text → Text) (parts keys cols : List Text) (n : ℕ) (ph : ℕ → Text)
    → All (λ c. c ∈ keys) cols
    → upsert_on_conflict q parts keys cols n ph
      ≡ insert_with q parts cols n ph
        ++ (codes " ON CONFLICT (" ++ (quoted_list keys q ++ codes ") DO UPDATE SET "))
unfolding upsert_on_conflict insert_with
upsert_of_only_keys q parts keys cols n ph h =
    rw (updates_all_keys (λ c. q c ++ (codes " = excluded." ++ q c)) keys cols h)
      (unfold join in simp append_assoc)
