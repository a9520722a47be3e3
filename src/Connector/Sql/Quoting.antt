-- ===== src/Connector/Sql/Quoting.antt =====
-- Quoted identifiers read back as the name that was quoted, whatever its bytes.
use replicron.Base.{
  ℕ, Text, [], ◌∷◌, ◌++◌, ◌≡◌, ◌≢◌, refl, Option, none, some, Bool, true, false, arith, ◌==◌,
  if◌then◌else◌, append_assoc, append-nil,
}
use replicron.Base.Strings.{double, replace_all-double}
use replicron.Connector.Sql.{quote_double, quote_backtick, quote_bracket}

-- How an SQL lexer reads quoted text behind its opening mark: the closing mark `q` twice is one byte
-- of the name, and once it ends it. `ended` says that the last byte was a `q` not yet paired. The
-- result is the name and the rest of the statement.
unfoldable pub read_quoted : ℕ → Text → Bool → Text → Option (Text × Text)
read_quoted q [] false name = none
read_quoted q [] true name = some (name, [])
read_quoted q (c ∷ s) false name =
    let mark = read_quoted q s true name in
    let plain = read_quoted q s false (name ++ c ∷ []) in if c == q then mark else plain
read_quoted q (c ∷ s) true name =
    let pair = read_quoted q s false (name ++ c ∷ []) in if c == q then pair else some (name, c ∷ s)

-- The text does not go on with the mark.
abbrev pub NotHead : ℕ → Text → Type 0
NotHead q [] = Unit
NotHead q (c ∷ s) = c ≢ q

read-end :
    (q : ℕ) (rest name : Text) → NotHead q rest → read_quoted q rest true name ≡ some (name, rest)
unfolding read_quoted
read-end q [] name h = refl
read-end q (c ∷ s) name h = ground arith

pub read-double :
    (q : ℕ) (s rest name : Text)
    → NotHead q rest
    → read_quoted q (double q s ++ q ∷ rest) false name ≡ some (name ++ s, rest)
unfolding read_quoted double
read-double q [] rest name h = rw append-nil (ground (arith, read-end q rest name h))
read-double q (c ∷ s) rest name h =
    ground (arith, read-double q s rest (name ++ c ∷ []) h, append_assoc name (c ∷ []) s)

-- Behind the opening mark of a quoted name the lexer of each dialect reads the name itself, and goes
-- on with what follows, if that is not the closing mark again.
pub quoted_names_read_back :
    (s rest : Text)
    → NotHead b'"' rest
    → NotHead b'`' rest
    → NotHead b']' rest
    → ((t : Text) × (quote_double s ++ rest ≡ b'"' ∷ t)
        × (read_quoted b'"' t false [] ≡ some (s, rest)))
      × ((t : Text) × (quote_backtick s ++ rest ≡ b'`' ∷ t)
          × (read_quoted b'`' t false [] ≡ some (s, rest)))
      × ((t : Text) × (quote_bracket s ++ rest ≡ b'[' ∷ t)
          × (read_quoted b']' t false [] ≡ some (s, rest)))
unfolding quote_double quote_backtick quote_bracket
quoted_names_read_back s rest h k l = (
  (
    double b'"' s ++ b'"' ∷ rest,
    simp (replace_all-double, append_assoc),
    read-double b'"' s rest [] h,
  ),
  (
    double b'`' s ++ b'`' ∷ rest,
    simp (replace_all-double, append_assoc),
    read-double b'`' s rest [] k,
  ),
  (
    double b']' s ++ b']' ∷ rest,
    simp (replace_all-double, append_assoc),
    read-double b']' s rest [] l,
  ),
)
