-- ===== src/Lease/Expiry.antt =====
-- Which leases are granted, how long one is safe from the other instances, and what a release ends.
use replicron.Base.{
  ℕ, ◌+◌, ◌≤◌, ◌≡◌, refl, sym, ap, ◌∙◌, Text, [], ◌∷◌, Option, none, some, Option-cases, false,
  text_eq, text_eq_iff, text_eq_refl, Dict, lookup, Bool-cases, inl, inr, arith,
}
use replicron.Registry.{Token}
use replicron.Lease.{
  LeaseRow, LeaseDb, Lease, now, exec, evict, lease_row, insert_or_ignore, delete_owned,
  extend_owned, granted, inserted, acquire, release, renew,
}

-- A row that has not expired is not evicted.
pub lookup-evict :
    (at : ℕ) (name : Text) (row : LeaseRow) (rows : Dict LeaseRow)
    → at ≤ row.expires_at
    → lookup name rows ≡ some row
    → lookup name (evict at rows) ≡ some row
unfolding lookup evict
lookup-evict at name row [] h e = absurd (cc e)
lookup-evict at name row ((n, r) ∷ rows) h e = elim (Bool-cases (text_eq n name)) [
  | inl here ↦ let same : r ≡ row = cc (rw here at e) in ground (arith, same, here)
  | inr there ↦ ground (arith, lookup-evict at name row rows h (rw there at e), there)
]

-- An insert ignores a name that has a row, and any other leaves the rows that are there.
lookup-insert_or_ignore :
    (name other : Text) (row new_row : LeaseRow) (rows : Dict LeaseRow)
    → lookup name rows ≡ some row
    → lookup name (insert_or_ignore other new_row rows).0 ≡ some row
unfolding lookup insert_or_ignore
lookup-insert_or_ignore name other row new_row rows e = elim (Option-cases (lookup other rows)) [
  | inr (held, h) ↦ rw (h, insert_or_ignore) e
  | inl free ↦ elim (Bool-cases (text_eq other name)) [
    | inl same ↦
        let here : other ≡ name = (text_eq_iff other name).0 same in
        absurd (cc (sym free ∙ ap (λ k. lookup k rows) here ∙ e))
    | inr apart ↦ rw (free, insert_or_ignore) (rw (apart, lookup) e)
  ]
]

-- The owner's row survives another owner's release and renewal.
lookup-delete_owned :
    (name other owner : Text) (row : LeaseRow) (rows : Dict LeaseRow)
    → text_eq row.owner owner ≡ false
    → lookup name rows ≡ some row
    → lookup name (delete_owned other owner rows) ≡ some row
unfolding lookup delete_owned
lookup-delete_owned name other owner row [] h e = absurd (cc e)
lookup-delete_owned name other owner row ((n, r) ∷ rows) h e = elim (Bool-cases (text_eq n name)) [
  | inl here ↦ let same : r ≡ row = cc (rw here at e) in ground (arith, same, here)
  | inr there ↦
      ground (arith, lookup-delete_owned name other owner row rows h (rw there at e), there)
]

lookup-extend_owned :
    (name other owner : Text) (until : ℕ) (row : LeaseRow) (rows : Dict LeaseRow)
    → text_eq row.owner owner ≡ false
    → lookup name rows ≡ some row
    → lookup name (extend_owned other owner until rows) ≡ some row
unfolding lookup extend_owned
lookup-extend_owned name other owner until row [] h e = absurd (cc e)
lookup-extend_owned name other owner until row ((n, r) ∷ rows) h e =
    elim (Bool-cases (text_eq n name)) [
      | inl here ↦ let same : r ≡ row = cc (rw here at e) in ground (arith, same, here)
      | inr there ↦
          ground
            (arith, lookup-extend_owned name other owner until row rows h (rw there at e), there)
    ]

-- A row that every form of the statement keeps, the refused one included.
pub exec-row :
    (f : Dict LeaseRow → Dict LeaseRow × ℕ) (db : LeaseDb) (name : Text) (row : LeaseRow)
    → lookup name db.rows ≡ some row
    → lookup name (f db.rows).0 ≡ some row
    → lookup name (exec f db).1.rows ≡ some row
unfolding exec
exec-row f db name row e k = elim (Bool-cases (db.refused db.calls)) [
  | inl refused ↦ rw (refused, exec) e
  | inr made ↦ rw (made, exec) k
]

pub inserted-row :
    (l : Lease) (addr : ℕ) (other : Text) (at : ℕ) (r : Option ℕ) (db : LeaseDb) (name : Text)
    (row : LeaseRow)
    → lookup name db.rows ≡ some row
    → lookup name (inserted l addr other at r db).1.rows ≡ some row
unfolding inserted
inserted-row l addr other at none db name row e = e
inserted-row l addr other at (some _) db name row e =
    exec-row (insert_or_ignore other (lease_row l at)) db name row e
      (lookup-insert_or_ignore name other row (lease_row l at) db.rows e)

acquire-row :
    (l : Lease) (addr : ℕ) (other : Text) (db : LeaseDb) (name : Text) (row : LeaseRow)
    → now db ≤ row.expires_at
    → lookup name db.rows ≡ some row
    → lookup name (acquire l addr other db).1.rows ≡ some row
unfolding acquire
acquire-row l addr other db name row h e =
    let (r, db') = exec (λ rows. (evict (now db) rows, 0)) db in
    inserted-row l addr other (now db) r db' name row (
      exec-row (λ rows. (evict (now db) rows, 0)) db name row e
        (lookup-evict (now db) name row db.rows h e))

pub release-row :
    (l : Lease) (t : Option Token) (db : LeaseDb) (name : Text) (row : LeaseRow)
    → text_eq row.owner l.owner ≡ false
    → lookup name db.rows ≡ some row
    → lookup name (release l t db).rows ≡ some row
unfolding release
release-row l none db name row h e = e
release-row l (some t) db name row h e =
    exec-row (λ rows. (delete_owned t.name l.owner rows, 0)) db name row e
      (lookup-delete_owned name t.name l.owner row db.rows h e)

renew-row :
    (l : Lease) (t : Option Token) (db : LeaseDb) (name : Text) (row : LeaseRow)
    → text_eq row.owner l.owner ≡ false
    → lookup name db.rows ≡ some row
    → lookup name (renew l t db).rows ≡ some row
unfolding renew
renew-row l none db name row h e = e
renew-row l (some t) db name row h e =
    exec-row (λ rows. (extend_owned t.name l.owner (now db + l.ttl) rows, 0)) db name row e
      (lookup-extend_owned name t.name l.owner (now db + l.ttl) row db.rows h e)

-- A name with a row is not granted.
pub inserted-refused :
    (l : Lease) (addr : ℕ) (name : Text) (at : ℕ) (r : Option ℕ) (db : LeaseDb) (row : LeaseRow)
    → lookup name db.rows ≡ some row
    → (inserted l addr name at r db).0 ≡ none
unfolding inserted exec insert_or_ignore granted
inserted-refused l addr name at none db row e = refl
inserted-refused l addr name at (some _) db row e = elim (Bool-cases (db.refused db.calls)) [
  | inl refused ↦ ground (arith, refused, e)
  | inr made ↦ ground (arith, made, e)
]

-- What the instances other than `me` do, as long as the clock has not passed `deadline`.
pub data Others (me : Text) (deadline : ℕ) : LeaseDb → LeaseDb → Type 0 where
  done : {db : LeaseDb} → Others me deadline db db
  acquired :
      {db db' : LeaseDb} (l : Lease) (addr : ℕ) (name : Text)
      → now db ≤ deadline
      → Others me deadline (acquire l addr name db).1 db'
      → Others me deadline db db'
  released :
      {db db' : LeaseDb} (l : Lease) (t : Option Token)
      → text_eq me l.owner ≡ false
      → Others me deadline (release l t db) db'
      → Others me deadline db db'
  renewed :
      {db db' : LeaseDb} (l : Lease) (t : Option Token)
      → text_eq me l.owner ≡ false
      → Others me deadline (renew l t db) db'
      → Others me deadline db db'

Others-row :
    (me : Text) (deadline : ℕ) (db db' : LeaseDb) (name : Text) (row : LeaseRow)
    → Others me deadline db db'
    → row.owner ≡ me
    → row.expires_at ≡ deadline
    → lookup name db.rows ≡ some row
    → lookup name db'.rows ≡ some row
Others-row me deadline db _ name row done o x e = e
Others-row me deadline db db' name row (acquired l addr other h more) o x e =
    Others-row me deadline (acquire l addr other db).1 db' name row more o x
      (acquire-row l addr other db name row (rw x h) e)
Others-row me deadline db db' name row (released l t h more) o x e =
    Others-row me deadline (release l t db) db' name row more o x
      (release-row l t db name row (rw o h) e)
Others-row me deadline db db' name row (renewed l t h more) o x e =
    Others-row me deadline (renew l t db) db' name row more o x
      (renew-row l t db name row (rw o h) e)

acquire-refused :
    (l : Lease) (addr : ℕ) (name : Text) (db : LeaseDb) (row : LeaseRow)
    → now db ≤ row.expires_at
    → lookup name db.rows ≡ some row
    → (acquire l addr name db).0 ≡ none
unfolding acquire
acquire-refused l addr name db row h e =
    let (r, db') = exec (λ rows. (evict (now db) rows, 0)) db in
    inserted-refused l addr name (now db) r db' row (
      exec-row (λ rows. (evict (now db) rows, 0)) db name row e
        (lookup-evict (now db) name row db.rows h e))

-- A grant leaves the row of the instance, which lasts for the TTL.
pub inserted-granted :
    (l : Lease) (addr : ℕ) (name : Text) (at : ℕ) (r : Option ℕ) (db db' : LeaseDb) (t : Token)
    → inserted l addr name at r db ≡ (some t, db')
    → lookup name db'.rows ≡ some (lease_row l at)
unfolding inserted exec insert_or_ignore granted lookup
inserted-granted l addr name at none db db' t h = absurd (cc h)
inserted-granted l addr name at (some _) db db' t h = elim (Bool-cases (db.refused db.calls)) [
  | inl refused ↦ absurd (ground (arith, refused, h))
  | inr made ↦ elim (Option-cases (lookup name db.rows)) [
    | inl free ↦ ground (arith, made, free, h, text_eq_refl name)
    | inr (held, there) ↦ absurd (ground (arith, made, there, h))
  ]
]

acquire-granted :
    (l : Lease) (addr : ℕ) (name : Text) (db db' : LeaseDb) (t : Token)
    → acquire l addr name db ≡ (some t, db')
    → lookup name db'.rows ≡ some (lease_row l (now db))
unfolding acquire
acquire-granted l addr name db db' t h =
    let (r, mid) = exec (λ rows. (evict (now db) rows, 0)) db in
    inserted-granted l addr name (now db) r mid db' t h

-- A lease that was granted is safe for the TTL: whatever acquisitions are made until then, and whatever the
-- other instances release or renew, no instance is granted that name while the clock has not passed the
-- expiry.
pub acquire-exclusive :
    (l : Lease) (addr : ℕ) (name : Text) (db db1 db2 : LeaseDb) (t : Token)
    → acquire l addr name db ≡ (some t, db1)
    → Others l.owner (now db + l.ttl) db1 db2
    → now db2 ≤ now db + l.ttl
    → (l' : Lease) (addr' : ℕ) → (acquire l' addr' name db2).0 ≡ none
acquire-exclusive l addr name db db1 db2 t h others before l' addr' =
    acquire-refused l' addr' name db2 (lease_row l (now db)) before (
      Others-row l.owner (now db + l.ttl) db1 db2 name (lease_row l (now db)) others refl refl
        (acquire-granted l addr name db db1 t h))
