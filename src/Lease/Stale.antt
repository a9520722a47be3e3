-- ===== src/Lease/Stale.antt =====
-- What a token of an earlier grant does.
use replicron.Base.{
  ℕ, ◌≡◌, ◌≢◌, refl, sym, ap, ◌∙◌, Text, Option, none, some, arith, ◌+◌, [], ◌∷◌, Dict, lookup,
  false, text_eq, text_eq_refl, Bool-cases, Option-cases, inl, inr,
}
use replicron.Registry.{Token}
use replicron.Lease.{
  LeaseDb, Lease, now, exec, evict, insert_or_ignore, issued, granted, inserted, acquire, release,
  renew, LeaseRow, lease_row, delete_owned, extend_owned,
}

inserted-token :
    (l : Lease) (addr : ℕ) (name : Text) (at : ℕ) (r : Option ℕ) (db db' : LeaseDb) (t : Token)
    → inserted l addr name at r db ≡ (some t, db')
    → t ≡ issued addr name
unfolding inserted exec insert_or_ignore granted
inserted-token l addr name at none db db' t h = absurd (cc h)
inserted-token l addr name at (some _) db db' t h = ground (arith, h)

acquire-token :
    (l : Lease) (addr : ℕ) (name : Text) (db db' : LeaseDb) (t : Token)
    → acquire l addr name db ≡ (some t, db')
    → t ≡ issued addr name
unfolding acquire
acquire-token l addr name db db' t h =
    let (r, mid) = exec (λ rows. (evict (now db) rows, 0)) db in
    inserted-token l addr name (now db) r mid db' t h

-- Without a row of the name there is none behind a deletion either.
delete_owned-absent :
    (name owner : Text) (rows : Dict LeaseRow)
    → lookup name rows ≡ none
    → lookup name (delete_owned name owner rows) ≡ none
unfolding lookup delete_owned
delete_owned-absent name owner [] h = refl
delete_owned-absent name owner ((n, r) ∷ rows) h = elim (Bool-cases (text_eq n name)) [
  | inl here ↦ absurd (cc (rw here at h))
  | inr there ↦ rw there (rw there (delete_owned-absent name owner rows (rw there at h)))
]

-- The table's first row is the name's, and its only one.
record IsFirst (name : Text) (row : LeaseRow) (rows : Dict LeaseRow) : Type 0 where
  rest : Dict LeaseRow
  first : rows ≡ (name, row) ∷ rest
  alone : lookup name rest ≡ none

inserted-IsFirst :
    (l : Lease) (addr : ℕ) (name : Text) (at : ℕ) (r : Option ℕ) (db db' : LeaseDb) (t : Token)
    → inserted l addr name at r db ≡ (some t, db')
    → IsFirst name (lease_row l at) db'.rows
unfolding inserted exec insert_or_ignore granted
inserted-IsFirst l addr name at none db db' t h = absurd (cc h)
inserted-IsFirst l addr name at (some _) db db' t h = elim (Bool-cases (db.refused db.calls)) [
  | inl refused ↦ absurd (cc (rw (exec, refused) at h))
  | inr made ↦ elim (Option-cases (lookup name db.rows)) [
    | inr (held, there) ↦ absurd (cc (rw (exec, made, insert_or_ignore, there) at h))
    | inl free ↦
        let eq = rw (exec, made, insert_or_ignore, free) at h in
        record { rest = db.rows; first = sym (ap (λ x. x.1.rows) eq); alone = free }
  ]
]

acquire-IsFirst :
    (l : Lease) (addr : ℕ) (name : Text) (db db' : LeaseDb) (t : Token)
    → acquire l addr name db ≡ (some t, db')
    → IsFirst name (lease_row l (now db)) db'.rows
unfolding acquire
acquire-IsFirst l addr name db db' t h =
    let (r, mid) = exec (λ rows. (evict (now db) rows, 0)) db in
    inserted-IsFirst l addr name (now db) r mid db' t h

IsFirst-deleted :
    (name owner : Text) (row : LeaseRow) (rows : Dict LeaseRow)
    → IsFirst name row rows
    → row.owner ≡ owner
    → lookup name (delete_owned name owner rows) ≡ none
unfolding lookup delete_owned
IsFirst-deleted name owner row rows h mine =
    rw (h.first, mine, text_eq_refl name, text_eq_refl owner)
      (delete_owned-absent name owner h.rest h.alone)

IsFirst-extended :
    (name owner : Text) (until : ℕ) (row : LeaseRow) (rows : Dict LeaseRow)
    → IsFirst name row rows
    → row.owner ≡ owner
    → lookup name (extend_owned name owner until rows) ≡ some (record row { expires_at = until })
unfolding lookup extend_owned
IsFirst-extended name owner until row rows h mine =
    rw (h.first, mine, text_eq_refl name, text_eq_refl owner) (rw (text_eq_refl name) refl)

-- An instance was granted a lease and, some time later, the lease on the same name again, with another token.
-- The earlier token, where the statement is not refused, releases the later lease: the name has no row then. Or
-- it renews it: the row is that of the later grant and expires a TTL from now.
pub stale_token_releases :
    (l : Lease) (addr addr' : ℕ) (name : Text) (db1 db2 db3 db4 : LeaseDb) (t t' : Token)
    → acquire l addr name db1 ≡ (some t, db2)
    → acquire l addr' name db3 ≡ (some t', db4)
    → addr ≢ addr'
    → db4.refused db4.calls ≡ false
    → (t ≢ t')
      × (lookup name db4.rows ≡ some (lease_row l (now db3)))
      × (lookup name (release l (some t) db4).rows ≡ none)
      × (lookup name (renew l (some t) db4).rows
          ≡ some (record (lease_row l (now db3)) { expires_at = now db4 + l.ttl }))
unfolding release renew exec lookup
stale_token_releases l addr addr' name db1 db2 db3 db4 t t' h k apart answered =
    let old = acquire-token l addr name db1 db2 t h in
    let new = acquire-token l addr' name db3 db4 t' k in
    let only = acquire-IsFirst l addr' name db3 db4 t' k in
    (
      λ e. apart (ap (λ (x : Token). x.addr) (sym old ∙ e ∙ new)),
      rw (only.first, text_eq_refl name) refl,
      rw (old, release, exec, answered) (IsFirst-deleted name l.owner _ db4.rows only refl),
      rw (old, renew, exec, answered)
          (IsFirst-extended name l.owner (now db4 + l.ttl) _ db4.rows only refl),
    )
