-- ===== src/Lease/Statements.antt =====
-- The single statements of the instances' calls, in any order: a statement of one call may come between two of
-- another.
use replicron.Base.{
  ℕ, ◌≤◌, ◌≡◌, refl, ap, ◌∙◌, Text, [], ◌∷◌, Option, none, some, Bool, false, text_eq, Dict, lookup,
  Bool-cases, inl, inr, ◌&&◌,
}
use replicron.Registry.{Token}
use replicron.Lease.{
  LeaseRow, LeaseDb, Lease, now, acquire, exec, evict, lease_row, extend_owned, inserted, release,
}
use replicron.Lease.Expiry.{
  lookup-evict, exec-row, inserted-row, release-row, inserted-refused, inserted-granted,
}

-- The name is the owner's.
pub record IsHeld (me name : Text) (db : LeaseDb) : Type 0 where
  pub row : LeaseRow
  pub there : lookup name db.rows ≡ some row
  pub mine : row.owner ≡ me

-- Statements of any instances while `me` holds `name`: evictions as of a time that has not passed the expiry
-- that the row has then; inserts; the statements of renewals, `me`'s included; and releases by others.
pub data Statements (me name : Text) : LeaseDb → LeaseDb → Type 0 where
  done : {db : LeaseDb} → Statements me name db db
  evicts :
      {db db' : LeaseDb} (at : ℕ)
      → ((row : LeaseRow) → lookup name db.rows ≡ some row → at ≤ row.expires_at)
      → Statements me name (exec (λ rows. (evict at rows, 0)) db).1 db'
      → Statements me name db db'
  inserts :
      {db db' : LeaseDb} (l : Lease) (addr : ℕ) (other : Text) (at : ℕ)
      → Statements me name (inserted l addr other at (some 0) db).1 db'
      → Statements me name db db'
  extends :
      {db db' : LeaseDb} (l : Lease) (other : Text) (until : ℕ)
      → Statements me name (exec (λ rows. (extend_owned other l.owner until rows, 0)) db).1 db'
      → Statements me name db db'
  releases :
      {db db' : LeaseDb} (l : Lease) (t : Option Token)
      → text_eq me l.owner ≡ false
      → Statements me name (release l t db) db'
      → Statements me name db db'

-- An extension changes no owner.
lookup-extend_owned-owner :
    (name other owner : Text) (until : ℕ) (row : LeaseRow) (rows : Dict LeaseRow)
    → lookup name rows ≡ some row
    → (row' : LeaseRow) × (lookup name (extend_owned other owner until rows) ≡ some row')
      × (row'.owner ≡ row.owner)
unfolding lookup extend_owned
lookup-extend_owned-owner name other owner until row [] e = absurd (cc e)
lookup-extend_owned-owner name other owner until row ((n, r) ∷ rows) e =
    let hit : Bool = text_eq n other && text_eq r.owner owner in
    elim (Bool-cases (text_eq n name)) [
      | inl here ↦
          let same : r ≡ row = cc (rw here at e) in
          elim (Bool-cases hit) [
            | inl ours ↦ (
              record r { expires_at = until },
              rw ours (rw here refl),
              ap (λ (x : LeaseRow). x.owner) same,
            )
            | inr others ↦ (r, rw others (rw here refl), ap (λ (x : LeaseRow). x.owner) same)
          ]
      | inr there ↦
          let (row', found, owner') =
            lookup-extend_owned-owner name other owner until row rows (rw there at e) in
          elim (Bool-cases hit) [
            | inl ours ↦ (row', rw ours (rw there found), owner')
            | inr others ↦ (row', rw others (rw there found), owner')
          ]
    ]

module _ (me name : Text) where
  extended-IsHeld :
      (l : Lease) (other : Text) (until : ℕ) (db : LeaseDb)
      → IsHeld me name db
      → IsHeld me name (exec (λ rows. (extend_owned other l.owner until rows, 0)) db).1
  unfolding exec
  extended-IsHeld l other until db h = elim (Bool-cases (db.refused db.calls)) [
    | inl refused ↦ rw (refused, exec) (record { row = h.row; there = h.there; mine = h.mine })
    | inr made ↦
        let (row', found, owner') =
          lookup-extend_owned-owner name other l.owner until h.row db.rows h.there in
        rw (made, exec) (record { row = row'; there = found; mine = owner' ∙ h.mine })
  ]

  Statements-IsHeld :
      (db db' : LeaseDb) → Statements me name db db' → IsHeld me name db → IsHeld me name db'
  Statements-IsHeld db _ done h = h
  Statements-IsHeld db db' (evicts at live more) h =
      Statements-IsHeld (exec (λ rows. (evict at rows, 0)) db).1 db' more (record {
        row = h.row;
        there =
            exec-row (λ rows. (evict at rows, 0)) db name h.row h.there
              (lookup-evict at name h.row db.rows (live h.row h.there) h.there);
        mine = h.mine;
      })
  Statements-IsHeld db db' (inserts l addr other at more) h =
      Statements-IsHeld (inserted l addr other at (some 0) db).1 db' more (record {
        row = h.row;
        there = inserted-row l addr other at (some 0) db name h.row h.there;
        mine = h.mine;
      })
  Statements-IsHeld db db' (extends l other until more) h =
      Statements-IsHeld (exec (λ rows. (extend_owned other l.owner until rows, 0)) db).1 db' more
        (extended-IsHeld l other until db h)
  Statements-IsHeld db db' (releases l t apart more) h =
      Statements-IsHeld (release l t db) db' more (record {
        row = h.row;
        there = release-row l t db name h.row (rw h.mine apart) h.there;
        mine = h.mine;
      })

-- A whole `Acquire` is two of these statements.
pub acquire-Statements :
    (me name : Text) (l : Lease) (addr : ℕ) (other : Text) (db db' : LeaseDb)
    → ((row : LeaseRow) → lookup name db.rows ≡ some row → now db ≤ row.expires_at)
    → Statements me name (acquire l addr other db).1 db'
    → Statements me name db db'
unfolding acquire inserted exec
acquire-Statements me name l addr other db db' live more = elim (Bool-cases (db.refused db.calls)) [
  | inl refused ↦ evicts (now db) live (rw (refused, exec) (rw (refused, inserted) at more))
  | inr made ↦
      evicts (now db) live
        (rw (made, exec) (inserts l addr other (now db) (rw (made, inserted) at more)))
]

-- From the insert that granted a lease on, through the statements of all instances in any order, evictions
-- being as of times that have not passed the expiry as it was last renewed and releases being by others, the
-- row stays the instance's, and an insert under that name grants nothing to any instance.
pub inserted-exclusive :
    (l : Lease) (addr : ℕ) (name : Text) (at : ℕ) (db db1 db2 : LeaseDb) (t : Token)
    → inserted l addr name at (some 0) db ≡ (some t, db1)
    → Statements l.owner name db1 db2
    → IsHeld l.owner name db2
      × ((l' : Lease) (addr' at' : ℕ) → (inserted l' addr' name at' (some 0) db2).0 ≡ none)
inserted-exclusive l addr name at db db1 db2 t h s =
    let held : IsHeld l.owner name db2 = Statements-IsHeld l.owner name db1 db2 s (record {
      row = lease_row l at;
      there = inserted-granted l addr name at (some 0) db db1 t h;
      mine = refl;
    }) in
    (held, λ l' addr' at'. inserted-refused l' addr' name at' (some 0) db2 held.row held.there)
