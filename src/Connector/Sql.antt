-- ===== src/Connector/Sql.antt =====
-- internal/connector/connector.go, mysql.go, sqlserver.go, postgres_bulk.go and sqlserver_bulk.go: the
-- texts of the statements. A `strings.Builder` is the text written so far.
pub mod Quoting
pub mod Values
pub mod Updates
use replicron.Base.{
  ℕ, zero, suc, ◌+◌, ◌*◌, Text, codes, List, [], ◌∷◌, ◌++◌, map, length, Bool, true, false, ◌||◌,
  text_eq, if◌then◌else◌,
}
use replicron.Base.Strings.{join, replace_all}

-- `quoteDouble`, `quoteBacktick` and `quoteBracket`: the closing mark is doubled.
unfoldable pub quote_double : Text → Text
quote_double s = codes "\"" ++ (replace_all s (codes "\"") (codes "\"\"") ++ codes "\"")

unfoldable pub quote_backtick : Text → Text
quote_backtick s = codes "`" ++ (replace_all s (codes "`") (codes "``") ++ codes "`")

unfoldable pub quote_bracket : Text → Text
quote_bracket s = codes "[" ++ (replace_all s (codes "]") (codes "]]") ++ codes "]")

unfoldable pub qualify : List Text → (Text → Text) → Text
qualify parts q = join (map q parts) (codes ".")

unfoldable pub quoted_list : List Text → (Text → Text) → Text
quoted_list cols q = join (map q cols) (codes ", ")

-- The inner loop of `valuesClause`, from column `c` with `left` columns to write.
values_row : ℕ → ℕ → (ℕ → Text) → Text
values_row zero i ph = []
values_row (suc left) i ph = codes "," ++ (ph i ++ values_row left (i + 1) ph)

-- One parenthesis: the first placeholder has no comma.
values_group : ℕ → ℕ → (ℕ → Text) → Text
unfolding values_row
values_group zero i ph = codes "()"
values_group (suc left) i ph = codes "(" ++ (ph i ++ (values_row left (i + 1) ph ++ codes ")"))

-- The outer loop of `valuesClause`, from row `r` with `left` rows to write.
values_rows : ℕ → ℕ → ℕ → (ℕ → Text) → Text
values_rows zero r cols ph = []
values_rows (suc left) r cols ph =
    codes "," ++ (values_group cols (r * cols) ph ++ values_rows left (r + 1) cols ph)

unfoldable pub values_clause : ℕ → ℕ → (ℕ → Text) → Text
unfolding values_group values_rows
values_clause cols zero ph = []
values_clause cols (suc left) ph = values_group cols (0 * cols) ph ++ values_rows left 1 cols ph

-- Membership in `keySet`.
unfoldable pub in_keys : Text → List Text → Bool
in_keys c [] = false
in_keys c (k ∷ ks) = text_eq k c || in_keys c ks

-- The loop over `cols` that builds `sets`: the columns outside `keySet`, each put into `f`.
unfoldable pub updates : (Text → Text) → List Text → List Text → List Text
unfolding in_keys
updates f keys [] = []
updates f keys (c ∷ cs) =
    let rest = updates f keys cs in if in_keys c keys then rest else f c ∷ rest

-- `insertWith`
unfoldable pub insert_with : (Text → Text) → List Text → List Text → ℕ → (ℕ → Text) → Text
insert_with q parts cols n ph =
    codes "INSERT INTO "
    ++ (qualify parts q
        ++ (codes " ("
            ++ (quoted_list cols q ++ (codes ") VALUES " ++ values_clause (length cols) n ph))))

-- `conflictSets`
unfoldable pub conflict_sets : List Text → List Text → (Text → Text) → Text
conflict_sets keys cols q =
    join (updates (λ c. q c ++ (codes " = excluded." ++ q c)) keys cols) (codes ", ")

-- `upsertOnConflict`: the shape of PostgreSQL and SQLite.
unfoldable pub upsert_on_conflict :
    (Text → Text) → List Text → List Text → List Text → ℕ → (ℕ → Text) → Text
upsert_on_conflict q parts keys cols n ph =
    codes "INSERT INTO "
    ++ (qualify parts q
        ++ (codes " ("
            ++ (quoted_list cols q
                ++ (codes ") VALUES "
                    ++ (values_clause (length cols) n ph
                        ++ (codes " ON CONFLICT ("
                            ++ (quoted_list keys q
                                ++ (codes ") DO UPDATE SET "
                                    ++ join
                                        (updates (λ c. q c ++ (codes " = excluded." ++ q c)) keys
                                          cols)
                                        (codes ", ")))))))))

-- `upsertMySQL`
unfoldable pub upsert_mysql : List Text → List Text → List Text → ℕ → (ℕ → Text) → Text
upsert_mysql parts keys cols n ph =
    let q = quote_backtick in
    codes "INSERT INTO "
    ++ (qualify parts q
        ++ (codes " ("
            ++ (quoted_list cols q
                ++ (codes ") VALUES "
                    ++ (values_clause (length cols) n ph
                        ++ (codes " ON DUPLICATE KEY UPDATE "
                            ++ join
                                (updates (λ c. q c ++ (codes " = VALUES(" ++ (q c ++ codes ")")))
                                  keys cols)
                                (codes ", ")))))))

-- What the two MERGE builders share: the match condition, the update and the insert.
merge_tail : List Text → List Text → Text
merge_tail keys cols =
    let q = quote_bracket in
    codes " ON "
    ++ (join (map (λ k. codes "tgt." ++ (q k ++ (codes " = src." ++ q k))) keys) (codes " AND ")
        ++ (codes " WHEN MATCHED THEN UPDATE SET "
            ++ (join (updates (λ c. q c ++ (codes " = src." ++ q c)) keys cols) (codes ", ")
                ++ (codes " WHEN NOT MATCHED THEN INSERT ("
                    ++ (quoted_list cols q
                        ++ (codes ") VALUES ("
                            ++ (join (map (λ c. codes "src." ++ q c) cols) (codes ", ")
                                ++ codes ");")))))))

-- `mergeMSSQL`: a MERGE over a row constructor.
unfoldable pub merge_mssql : List Text → List Text → List Text → ℕ → (ℕ → Text) → Text
unfolding merge_tail
merge_mssql parts keys cols n ph =
    codes "MERGE INTO "
    ++ (qualify parts quote_bracket
        ++ (codes " AS tgt USING (VALUES "
            ++ (values_clause (length cols) n ph
                ++ (codes ") AS src ("
                    ++ (quoted_list cols quote_bracket ++ (codes ")" ++ merge_tail keys cols))))))

-- `mergeFromStage`: the same over the staging table.
unfoldable pub merge_from_stage : List Text → Text → List Text → List Text → Text
unfolding merge_tail
merge_from_stage parts stage keys cols =
    codes "MERGE INTO "
    ++ (qualify parts quote_bracket
        ++ (codes " AS tgt USING "
            ++ (quote_bracket stage ++ (codes " AS src" ++ merge_tail keys cols))))
