-- ===== src/Base/Strings.antt =====
-- The functions of Go's `strings` that the program uses, over bytes.
use replicron.Base.{
  ℕ, zero, suc, ◌-◌, ◌≡◌, refl, Text, List, [], ◌∷◌, ◌++◌, Bool, true, false, ◌&&◌, arith, length,
  ◌==◌, if◌then◌else◌, append_assoc, append-nil, ◌≢◌, sym, ap, ◌∙◌, Bool-cases, inl, inr, ==_iff,
  All,
}

unfoldable pub has_prefix : Text → Text → Bool
has_prefix [] s = true
has_prefix (a ∷ p) [] = false
has_prefix (a ∷ p) (c ∷ s) = (a == c) && has_prefix p s

-- `strings.Contains(s, sub)`
unfoldable pub contains : Text → Text → Bool
unfolding has_prefix
contains sub [] = has_prefix sub []
contains sub (c ∷ s) = if has_prefix sub (c ∷ s) then true else contains sub s

-- `strings.ReplaceAll(s, old, new)` for an `old` that is not empty: the leftmost occurrences that do
-- not overlap. `skip` bytes belong to an occurrence already replaced.
replace_from : Text → Text → ℕ → Text → Text
unfolding has_prefix
replace_from old new skip [] = []
replace_from old new (suc skip) (c ∷ s) = replace_from old new skip s
replace_from old new zero (c ∷ s) =
    let hit = has_prefix old (c ∷ s) in
    (if hit then new else c ∷ []) ++ replace_from old new (if hit then length old - 1 else 0) s

unfoldable pub replace_all : Text → Text → Text → Text
unfolding replace_from
replace_all s old new = replace_from old new 0 s

-- `strings.Join(parts, sep)`
unfoldable pub join : List Text → Text → Text
join [] sep = []
join (p ∷ []) sep = p
join (p ∷ q ∷ ps) sep = p ++ (sep ++ join (q ∷ ps) sep)

-- `strings.Split(s, sep)` at a separator of one byte; `cur` is the part that is being read.
split_from : ℕ → Text → Text → List Text
split_from sep cur [] = cur ∷ []
split_from sep cur (c ∷ s) =
    let cut = cur ∷ split_from sep [] s in
    let more = split_from sep (cur ++ c ∷ []) s in if c == sep then cut else more

unfoldable pub split : Text → ℕ → List Text
unfolding split_from
split s sep = split_from sep [] s

-- The doubling of one byte, as every quoting function of the program does it.
unfoldable pub double : ℕ → Text → Text
double q [] = []
double q (c ∷ s) = (if c == q then q ∷ q ∷ [] else c ∷ []) ++ double q s

replace_from-double : (q : ℕ) (s : Text) → replace_from (q ∷ []) (q ∷ q ∷ []) 0 s ≡ double q s
unfolding replace_from double
replace_from-double q [] = refl
replace_from-double q (c ∷ s) = ground (arith, replace_from-double q s)

-- Replacing a byte by two of it is the doubling, byte by byte.
pub replace_all-double : (q : ℕ) (s : Text) → replace_all s (q ∷ []) (q ∷ q ∷ []) ≡ double q s
unfolding replace_all
replace_all-double q s = replace_from-double q s

join-cons :
    (p : Text) (ps : List Text) (sep : Text)
    → ps ≢ []
    → join (p ∷ ps) sep ≡ p ++ (sep ++ join ps sep)
unfolding join
join-cons p [] sep h = absurd (h refl)
join-cons p (q ∷ ps) sep h = refl

split_from-ne-nil : (sep : ℕ) (cur s : Text) → split_from sep cur s ≢ []
unfolding split_from
split_from-ne-nil sep cur [] = λ e. cc
split_from-ne-nil sep cur (c ∷ s) = ground (arith, split_from-ne-nil sep (cur ++ c ∷ []) s)

join-split_from : (sep : ℕ) (cur s : Text) → join (split_from sep cur s) (sep ∷ []) ≡ cur ++ s
unfolding split_from
join-split_from sep cur [] = unfold join in sym (append-nil cur)
join-split_from sep cur (c ∷ s) = elim (Bool-cases (c == sep)) [
  | inl cut ↦ rw cut (
      join-cons cur (split_from sep [] s) (sep ∷ []) (split_from-ne-nil sep [] s)
      ∙ ap (λ t. cur ++ (sep ∷ t)) (join-split_from sep [] s)
      ∙ ap (λ x. cur ++ (x ∷ s)) (sym ((==_iff c sep).0 cut)))
  | inr more ↦ rw more (join-split_from sep (cur ++ c ∷ []) s ∙ append_assoc cur (c ∷ []) s)
]

-- The parts of a split, joined by the separator, are the text.
pub join-split : (s : Text) (sep : ℕ) → join (split s sep) (sep ∷ []) ≡ s
unfolding split
join-split s sep = join-split_from sep [] s

-- The byte does not occur.
abbrev pub Lacks : ℕ → Text → Type 0
Lacks sep = All (λ c. c ≢ sep)

split_from-Lacks : (sep : ℕ) (cur s : Text) → Lacks sep s → split_from sep cur s ≡ (cur ++ s) ∷ []
unfolding split_from
split_from-Lacks sep cur [] h = rw append-nil
split_from-Lacks sep cur (c ∷ s) (h, hs) =
    ground (arith, split_from-Lacks sep (cur ++ c ∷ []) s hs, append_assoc cur (c ∷ []) s)

split_from_at :
    (sep : ℕ) (cur s t : Text)
    → Lacks sep s
    → split_from sep cur (s ++ sep ∷ t) ≡ (cur ++ s) ∷ split_from sep [] t
unfolding split_from
split_from_at sep cur [] t h = rw append-nil (ground arith)
split_from_at sep cur (c ∷ s) t (h, hs) =
    ground (arith, split_from_at sep (cur ++ c ∷ []) s t hs, append_assoc cur (c ∷ []) s)

pub split-Lacks : (s : Text) (sep : ℕ) → Lacks sep s → split s sep ≡ s ∷ []
unfolding split
split-Lacks s sep h = split_from-Lacks sep [] s h

pub split-pair :
    (s t : Text) (sep : ℕ) → Lacks sep s → Lacks sep t → split (s ++ sep ∷ t) sep ≡ s ∷ t ∷ []
unfolding split
split-pair s t sep h k =
    split_from_at sep [] s t h ∙ ap (λ ps. s ∷ ps) (split_from-Lacks sep [] t k)
