-- ===== src/Connector/Conn/Writes.antt =====
-- What `UpsertRows` and `InsertRows` send.
use replicron.Base.{
  get_elem?, ℕ, zero, suc, ◌+◌, ◌*◌, ◌<◌, ◌≡◌, refl, ap, ◌∙◌, Text, List, [], ◌∷◌, ◌++◌, map,
  length, some, arith, length-append, codes, ◌⊎◌, inl, inr,
}
use replicron.Base.Strings.{join}
use replicron.Connector.Ident.Allowlist.{
  AllIdentifiers, validate_columns_iff, split_table_path_sound,
}
use replicron.Model.{
  Row, Error, Result, ok, err, upsert_failed, insert_failed, Result-cases, ◌>>=◌, ◌>>◌,
}
use replicron.Connector.Ident.{split_table_path, validate_columns}
use replicron.Connector.Dialect.{Dialect}
use replicron.Connector.Conn.{
  Driver, get_value, row_args, flat_args, exec_rows, upsert_statement, upsert_rows,
  insert_statement, insert_rows,
}

get_elem?-append_left {ℓ} :
    {A : Type ℓ} (xs ys : List A) (i : ℕ) → i < length xs → get_elem? (xs ++ ys) i ≡ get_elem? xs i
get_elem?-append_left [] ys i h = elim h [ ]
get_elem?-append_left (x ∷ xs) ys zero h = refl
get_elem?-append_left (x ∷ xs) ys (suc i) h = get_elem?-append_left xs ys i (omega arith)

get_elem?-append_right {ℓ} :
    {A : Type ℓ} (xs ys : List A) (i j : ℕ)
    → i ≡ length xs + j
    → get_elem? (xs ++ ys) i ≡ get_elem? ys j
get_elem?-append_right [] ys i j h = ap (get_elem? ys) (omega arith)
get_elem?-append_right (x ∷ xs) ys zero j h = absurd (omega arith)
get_elem?-append_right (x ∷ xs) ys (suc i) j h = get_elem?-append_right xs ys i j (omega arith)

length-map {ℓ κ} :
    {A : Type ℓ} {B : Type κ} (f : A → B) (xs : List A) → length (map f xs) ≡ length xs
length-map f [] = refl
length-map f (x ∷ xs) = ap suc (length-map f xs)

get_elem?-map {ℓ κ} :
    {A : Type ℓ} {B : Type κ} (f : A → B) (xs : List A) (i : ℕ) (a : A)
    → get_elem? xs i ≡ some a
    → get_elem? (map f xs) i ≡ some (f a)
get_elem?-map f [] i a h = cc
get_elem?-map f (x ∷ xs) zero a h = cc
get_elem?-map f (x ∷ xs) (suc i) a h = get_elem?-map f xs i a h

get_elem?-lt {ℓ} :
    {A : Type ℓ} (xs : List A) (i : ℕ) (a : A) → get_elem? xs i ≡ some a → i < length xs
get_elem?-lt [] i a h = cc
get_elem?-lt (x ∷ xs) zero a h = omega arith
get_elem?-lt (x ∷ xs) (suc i) a h = omega (arith, get_elem?-lt xs i a h)

length-flat_args :
    (cols : List Text) (rows : List Row) → length (flat_args cols rows) ≡ length rows * length cols
unfolding flat_args row_args
length-flat_args cols [] = omega arith
length-flat_args cols (r ∷ rows) = omega (
  arith,
  length-append (map (get_value r) cols) (flat_args cols rows),
  length-map (get_value r) cols,
  length-flat_args cols rows,
)

get_elem?-flat_args :
    (cols : List Text) (rows : List Row) (r c : ℕ) (row : Row) (col : Text)
    → get_elem? rows r ≡ some row
    → get_elem? cols c ≡ some col
    → get_elem? (flat_args cols rows) (r * length cols + c) ≡ some (get_value row col)
unfolding flat_args row_args
get_elem?-flat_args cols [] r c row col h k = cc
get_elem?-flat_args cols (x ∷ rows) zero c row col h k =
    let here : zero * length cols + c ≡ c = omega arith in
    rw here (
      get_elem?-append_left (map (get_value x) cols) (flat_args cols rows) c
        (omega (arith, length-map (get_value x) cols, get_elem?-lt cols c col k))
      ∙ get_elem?-map (get_value x) cols c col k
      ∙ ap (λ v. some (get_value v col)) (some_eq h))
  where
    some_eq : some x ≡ some row → x ≡ row
    some_eq e = cc
get_elem?-flat_args cols (x ∷ rows) (suc r) c row col h k =
    get_elem?-append_right (map (get_value x) cols) (flat_args cols rows) (suc r * length cols + c)
      (r * length cols + c) (omega (arith, length-map (get_value x) cols))
    ∙ get_elem?-flat_args cols rows r c row col h k

-- The argument bound to the placeholder of row `r` and column `c`, whose number `valuesClause` makes
-- `r * len(cols) + c`, is that row's value of that column; and there are no further arguments.
pub flat_args-placed :
    (cols : List Text) (rows : List Row) (r c : ℕ) (row : Row) (col : Text)
    → get_elem? rows r ≡ some row
    → get_elem? cols c ≡ some col
    → (length (flat_args cols rows) ≡ length rows * length cols)
      × (get_elem? (flat_args cols rows) (r * length cols + c) ≡ some (get_value row col))
flat_args-placed cols rows r c row col h k =
    (length-flat_args cols rows, get_elem?-flat_args cols rows r c row col h k)

-- The answer to a statement that was sent for `n` rows.
abbrev pub sent : {D : Type 0} → (Error → Error) → ℕ → Result (Unit {0}) × D → Result ℕ × D
sent wrap n (r, d) = elim r [ ok _ ↦ (ok n, d) | err e ↦ (err (wrap e), d) ]

-- The names of a statement all match the allowlist: the parts of the table's name, which joined by a
-- dot are that name, the columns and the keys.
pub record AreSafe (table : Text) (parts cols keys : List Text) : Type 0 where
  pub parts_safe : AllIdentifiers parts
  pub table_joined : join parts (codes ".") ≡ table
  pub cols_safe : AllIdentifiers cols
  pub keys_safe : AllIdentifiers keys

upsert_statement_cases :
    (c : Dialect) (table : Text) (keys cols : List Text) (n : ℕ)
    → ((e : Error) × (upsert_statement c table keys cols n ≡ err e))
      ⊎ ((parts : List Text) × AreSafe table parts cols keys
          × (upsert_statement c table keys cols n ≡ ok (c.upsert parts keys cols n c.ph)))
unfolding upsert_statement
upsert_statement_cases c table keys cols n =
    go (split_table_path table) refl (validate_columns cols) refl (validate_columns keys) refl
  where
    go :
        (p : Result (List Text))
        → split_table_path table ≡ p
        → (u : Result (Unit {0})) → validate_columns cols ≡ u
        → (v : Result (Unit {0})) → validate_columns keys ≡ v
        → ((e : Error) × ((p >>= λ parts. u >> (v >> ok (c.upsert parts keys cols n c.ph)))
              ≡ err e))
          ⊎ ((parts : List Text) × AreSafe table parts cols keys
              × ((p >>= λ parts. u >> (v >> ok (c.upsert parts keys cols n c.ph)))
                  ≡ ok (c.upsert parts keys cols n c.ph)))
    go (err e) hp u hu v hv = inl (e, refl)
    go (ok parts) hp (err e) hu v hv = inl (e, refl)
    go (ok parts) hp (ok u) hu (err e) hv = inl (e, refl)
    go (ok parts) hp (ok u) hu (ok v) hv =
        let (joined, safe, few) = split_table_path_sound table parts hp in
        inr (
          parts,
          record {
            parts_safe = safe;
            table_joined = joined;
            cols_safe = (validate_columns_iff cols).0 hu;
            keys_safe = (validate_columns_iff keys).0 hv;
          },
          refl,
        )

module _ {D : Type 0} (drv : Driver D) (c : Dialect) where
  -- `UpsertRows` either leaves the database alone, having refused a name or had no rows, or sends one
  -- statement: then every name in it matches the allowlist, the parts of the table's name are that
  -- name cut at its dot, and the values go as arguments. The count is that of all rows, and an error of
  -- the driver is passed on.
  pub upsert_rows_cases :
      (table : Text) (keys cols : List Text) (rows : List Row) (d : D)
      → ((r : Result ℕ) × (upsert_rows drv c table keys cols rows d ≡ (r, d)))
        ⊎ ((parts : List Text) × AreSafe table parts cols keys
            × (upsert_rows drv c table keys cols rows d
                ≡ sent (upsert_failed c.name table) (length rows) (
                    drv.exec
                      (c.upsert parts keys cols (length rows) c.ph)
                      (flat_args cols rows)
                      d)))
  unfolding upsert_rows exec_rows
  upsert_rows_cases table keys cols [] d = inl (ok 0, refl)
  upsert_rows_cases table keys cols (r ∷ rows) d =
      elim (upsert_statement_cases c table keys cols (length (r ∷ rows))) [
        | inl (e, h) ↦ inl (err e, rw h)
        | inr (parts, safe, h) ↦ inr (parts, safe, rw h)
      ]

  exec_rows-counts :
      (wrap : Error → Error) (q : Result Text) (cols : List Text) (rows : List Row) (d : D) (k : ℕ)
      → (exec_rows drv c wrap q cols rows d).0 ≡ ok k
      → k ≡ length rows
  unfolding exec_rows
  exec_rows-counts wrap (err e) cols rows d k h = absurd (cc h)
  exec_rows-counts wrap (ok q) cols rows d k h =
      elim (Result-cases (drv.exec q (flat_args cols rows) d).0) [
        | inl (u, fine) ↦ cc (rw (fine, exec_rows) at h)
        | inr (e, bad) ↦ absurd (cc (rw (bad, exec_rows) at h))
      ]

  pub upsert_rows-counts :
      (table : Text) (keys cols : List Text) (rows : List Row) (d : D) (k : ℕ)
      → (upsert_rows drv c table keys cols rows d).0 ≡ ok k
      → k ≡ length rows
  unfolding upsert_rows
  upsert_rows-counts table keys cols [] d k h = cc h
  upsert_rows-counts table keys cols (r ∷ rows) d k h =
      exec_rows-counts (upsert_failed c.name table)
        (upsert_statement c table keys cols (length (r ∷ rows))) cols (r ∷ rows) d k h

  pub insert_rows-counts :
      (table : Text) (cols : List Text) (rows : List Row) (d : D) (k : ℕ)
      → (insert_rows drv c table cols rows d).0 ≡ ok k
      → k ≡ length rows
  unfolding insert_rows
  insert_rows-counts table cols [] d k h = cc h
  insert_rows-counts table cols (r ∷ rows) d k h =
      exec_rows-counts (insert_failed c.name table)
        (insert_statement c table cols (length (r ∷ rows))) cols (r ∷ rows) d k h
