-- ===== src/Connector/Sql/Values.antt =====
-- The VALUES list holds one parenthesis to a row, with the placeholders of that row in order.
use replicron.Base.{
  ℕ, zero, suc, ◌+◌, ◌*◌, Text, codes, List, [], ◌∷◌, ◌++◌, map, ◌≡◌, refl, sym, ap, append_assoc,
  append-nil,
}
use replicron.Base.Strings.{join}
use replicron.Connector.Sql.{values_row, values_group, values_rows, values_clause}

-- The numbers from `i` on, `n` of them.
abbrev pub range : ℕ → ℕ → List ℕ
range i zero = []
range i (suc n) = i ∷ range (i + 1) n

-- The parts behind the first one, each after the separator.
separated : Text → List Text → Text
separated sep [] = []
separated sep (p ∷ ps) = sep ++ (p ++ separated sep ps)

join-separated :
    (p : Text) (ps : List Text) (sep : Text) → join (p ∷ ps) sep ≡ p ++ separated sep ps
unfolding join separated
join-separated p [] sep = sym (append-nil p)
join-separated p (r ∷ ps) sep = ap (λ t. p ++ (sep ++ t)) (join-separated r ps sep)

values_row-separated :
    (left i : ℕ) (ph : ℕ → Text)
    → values_row left i ph ≡ separated (codes ",") (map ph (range i left))
unfolding values_row separated
values_row-separated zero i ph = refl
values_row-separated (suc left) i ph = rw (values_row-separated left (i + 1) ph)

-- The placeholders of one row, from number `i` on.
abbrev pub group : ℕ → (ℕ → Text) → ℕ → Text
group cols ph i = codes "(" ++ (join (map ph (range i cols)) (codes ",") ++ codes ")")

values_group-group : (cols i : ℕ) (ph : ℕ → Text) → values_group cols i ph ≡ group cols ph i
unfolding values_group
values_group-group zero i ph = unfold join in refl
values_group-group (suc left) i ph = simp (values_row-separated, join-separated, append_assoc)

values_rows-separated :
    (left r cols : ℕ) (ph : ℕ → Text)
    → values_rows left r cols ph
      ≡ separated (codes ",") (map (λ k. group cols ph (k * cols)) (range r left))
unfolding values_rows separated
values_rows-separated zero r cols ph = refl
values_rows-separated (suc left) r cols ph =
    rw (values_group-group, values_rows-separated left (r + 1) cols ph)

-- The VALUES list of `n` rows and `cols` columns is the rows' parentheses with commas between, and row
-- `r` holds the placeholders from number `r * cols` on, one to a column.
pub values_clause-groups :
    (cols n : ℕ) (ph : ℕ → Text)
    → values_clause cols n ph ≡ join (map (λ r. group cols ph (r * cols)) (range 0 n)) (codes ",")
unfolding values_clause
values_clause-groups cols zero ph = unfold join in refl
values_clause-groups cols (suc left) ph =
    rw (values_group-group, values_rows-separated, join-separated)
