-- ===== src/Connector/Ident.antt =====
-- internal/connector/connector.go: the identifier allowlist.
pub mod Allowlist
use replicron.Base.{
  ℕ, Text, List, [], ◌∷◌, Bool, true, false, ◌&&◌, ◌||◌, all, length, ltb, leb, ◌==◌, if◌then◌else◌,
  codes,
}
use replicron.Base.Strings.{split}
use replicron.Model.{Result, ok, err, too_many_dots, invalid_identifier, invalid_column, ◌>>=◌}

-- `[A-Za-z_]`
unfoldable pub is_start : ℕ → Bool
is_start c = (leb b'A' c && leb c b'Z') || (leb b'a' c && leb c b'z') || (c == b'_')

-- `[A-Za-z0-9_]`
unfoldable pub is_part : ℕ → Bool
unfolding is_start
is_part c = is_start c || (leb b'0' c && leb c b'9')

-- `identRe.MatchString`: `^[A-Za-z_][A-Za-z0-9_]*$`
unfoldable pub is_identifier : Text → Bool
unfolding is_start is_part
is_identifier [] = false
is_identifier (c ∷ s) = is_start c && all is_part s

-- The loop of `SplitTablePath` over the parts.
check_parts : Text → List Text → List Text → Result (List Text)
check_parts table parts [] = ok parts
check_parts table parts (p ∷ ps) =
    if is_identifier p then check_parts table parts ps else err (invalid_identifier p table)

unfoldable pub split_table_path : Text → Result (List Text)
unfolding check_parts
split_table_path table =
    let parts = split table b'.' in
    if ltb 2 (length parts) then err (too_many_dots table) else check_parts table parts parts

-- `ValidateColumns`
unfoldable pub validate_columns : List Text → Result (Unit {0})
validate_columns [] = ok tt
validate_columns (c ∷ cs) = if is_identifier c then validate_columns cs else err (invalid_column c)
