-- ===== src/Engine/Watermark/Literal.antt =====
-- The literal of a text watermark reads back as the text.
use replicron.Base.{Text, [], ◌∷◌, ◌++◌, ◌≡◌, refl, some, false, append_assoc}
use replicron.Base.Strings.{double, replace_all-double}
use replicron.Model.{text, ok}
use replicron.Connector.Sql.Quoting.{read_quoted, NotHead, read-double}
use replicron.Runlog.Watermark.{FloatText}
use replicron.Engine.Watermark.{quote_literal, watermark_literal}

-- A text watermark is always rendered, as an opening quote behind which an SQL lexer for which a quote is
-- escaped by another one, and nothing else is an escape, reads that very text, whatever its bytes, and then
-- the rest of the query, if that does not begin with a quote.
pub watermark_literal-reads_back :
    (ft : FloatText) (x rest : Text)
    → NotHead b'\'' rest
    → (lit tail : Text) × (watermark_literal ft (text x) ≡ ok lit)
      × (lit ++ rest ≡ b'\'' ∷ tail)
      × (read_quoted b'\'' tail false [] ≡ some (x, rest))
unfolding watermark_literal quote_literal
watermark_literal-reads_back ft x rest h = (
  _,
  double b'\'' x ++ b'\'' ∷ rest,
  refl,
  simp (replace_all-double, append_assoc),
  read-double b'\'' x rest [] h,
)
