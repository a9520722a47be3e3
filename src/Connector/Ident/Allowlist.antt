-- ===== src/Connector/Ident/Allowlist.antt =====
-- What the allowlist accepts: exactly the lists of identifiers, which no quoting has to change.
use replicron.Base.{
  Text, List, [], ◌∷◌, ◌++◌, ◌≡◌, refl, ◌↔◌, true, all, All, length, arith, ◌≤◌, Bool-cases, inl,
  inr, subst, codes, sym, ap, ◌≢◌, ◌∙◌,
}
use replicron.Base.Strings.{split, join, join-split, Lacks, split-Lacks, split-pair}
use replicron.Model.{ok}
use replicron.Connector.Ident.{
  is_part, is_identifier, check_parts, split_table_path, validate_columns,
}

-- Every name matches the allowlist.
abbrev pub AllIdentifiers : List Text → Type 0
AllIdentifiers = All (λ c. is_identifier c ≡ true)

-- A list of column names is accepted if and only if each of them matches the allowlist.
pub validate_columns_iff : (cs : List Text) → (validate_columns cs ≡ ok tt) ↔ AllIdentifiers cs
unfolding validate_columns
validate_columns_iff [] = (λ _. tt, λ _. refl)
validate_columns_iff (c ∷ cs) = (
  λ h. ground (arith, (validate_columns_iff cs).0),
  λ h. ground (arith, (validate_columns_iff cs).1),
)

check_parts_sound :
    (table : Text) (parts ps : List Text) (r : List Text)
    → check_parts table parts ps ≡ ok r
    → (parts ≡ r) × AllIdentifiers ps
unfolding check_parts
check_parts_sound table parts [] r h = (ground arith, tt)
check_parts_sound table parts (p ∷ ps) r h = elim (Bool-cases (is_identifier p)) [
  | inl fits ↦
      let (same, rest) = check_parts_sound table parts ps r (rw fits at h) in (same, (fits, rest))
  | inr bad ↦ absurd (cc (rw bad at h))
]

check_parts_complete :
    (table : Text) (parts ps : List Text)
    → AllIdentifiers ps
    → check_parts table parts ps ≡ ok parts
unfolding check_parts
check_parts_complete table parts [] h = refl
check_parts_complete table parts (p ∷ ps) (h, hs) = rw h (check_parts_complete table parts ps hs)

split_table_path_unchecked :
    (table : Text) (parts : List Text)
    → split_table_path table ≡ ok parts
    → (check_parts table (split table b'.') (split table b'.') ≡ ok parts)
      × (length (split table b'.') ≤ 2)
unfolding split_table_path
split_table_path_unchecked table parts h = ground arith

-- A table name that is accepted is its parts joined by a dot, at most two, each an identifier.
pub split_table_path_sound :
    (table : Text) (parts : List Text)
    → split_table_path table ≡ ok parts
    → (join parts (codes ".") ≡ table) × AllIdentifiers parts × (length parts ≤ 2)
split_table_path_sound table parts h =
    let (checked, few) = split_table_path_unchecked table parts h in
    let (same, safe) =
      check_parts_sound table (split table b'.') (split table b'.') parts checked in
    (
      subst (λ ps. join ps (codes ".") ≡ table) same (join-split table b'.'),
      subst AllIdentifiers same safe,
      subst (λ ps. length ps ≤ 2) same few,
    )

all_part-Lacks : (s : Text) → all is_part s ≡ true → Lacks b'.' s
unfolding is_part
all_part-Lacks [] h = tt
all_part-Lacks (c ∷ s) h = (ground arith, all_part-Lacks s (ground arith))

identifier-Lacks : (s : Text) → is_identifier s ≡ true → Lacks b'.' s
unfolding is_identifier
identifier-Lacks [] h = tt
identifier-Lacks (c ∷ s) h = (ground arith, all_part-Lacks s (ground arith))

-- An identifier is accepted as a table name, and so are two of them with a dot between.
pub split_table_path_complete :
    (schema table : Text)
    → is_identifier schema ≡ true
    → is_identifier table ≡ true
    → (split_table_path table ≡ ok (table ∷ []))
      × (split_table_path (schema ++ b'.' ∷ table) ≡ ok (schema ∷ table ∷ []))
unfolding split_table_path
split_table_path_complete schema table h k = (
  rw (split-Lacks table b'.' (identifier-Lacks table k))
      (check_parts_complete table (table ∷ []) (table ∷ []) (k, tt)),
  rw (split-pair schema table b'.' (identifier-Lacks schema h) (identifier-Lacks table k)) (
      check_parts_complete (schema ++ b'.' ∷ table) (schema ∷ table ∷ []) (schema ∷ table ∷ [])
        (h, (k, tt))),
)

-- The path of a table: one or two identifiers, with a dot between two.
abbrev pub IsTablePath : Text → List Text → Type 0
IsTablePath table parts =
    (parts ≢ []) × (length parts ≤ 2) × AllIdentifiers parts × (join parts (codes ".") ≡ table)

no_parts : split_table_path [] ≢ ok []
unfolding split_table_path check_parts is_identifier split
no_parts h = cc h

table_of_parts :
    (table : Text) (parts : List Text) → IsTablePath table parts → split_table_path table ≡ ok parts
unfolding join
table_of_parts table [] (some_part, few, safe, joined) = absurd (some_part refl)
table_of_parts table (a ∷ []) (some_part, few, (h, _), joined) =
    rw (← joined) (split_table_path_complete a a h h).0
table_of_parts table (a ∷ b ∷ []) (some_part, few, (h, (k, _)), joined) =
    rw (← joined) (split_table_path_complete a b h k).1
table_of_parts table (a ∷ b ∷ c ∷ parts) (some_part, few, safe, joined) = absurd (omega arith)

-- `SplitTablePath` accepts a name with exactly the parts that are its path: one or two identifiers, which the
-- name joins by a dot.
pub split_table_path_iff :
    (table : Text) (parts : List Text)
    → (split_table_path table ≡ ok parts) ↔ IsTablePath table parts
unfolding join
split_table_path_iff table parts = (
  λ h.
      let (joined, safe, few) = split_table_path_sound table parts h in
      (
        λ none_there.
            let empty : table ≡ [] = sym joined ∙ ap (λ ps. join ps (codes ".")) none_there in
            no_parts (rw (← empty) (h ∙ ap ok none_there)),
        few,
        safe,
        joined,
      ),
  table_of_parts table parts,
)
