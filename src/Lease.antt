-- ===== src/Lease.antt =====
-- internal/lease/lease.go: the lease table that several instances share. A time is a number of
-- nanoseconds, whose fixed-width print SQL compares in the same order; a TTL is not negative.
pub mod Expiry
pub mod New
pub mod Statements
pub mod Stale
use replicron.Base.{
  ℕ, zero, suc, ◌+◌, Text, List, [], ◌∷◌, ◌++◌, Option, none, some, Bool, true, false, not, ◌&&◌,
  ltb, ◌==◌, text_eq, Dict, lookup, if◌then◌else◌,
}
use replicron.Registry.{Token}

-- A row of `lease`, whose key is the task name.
pub record LeaseRow : Type 0 where
  pub owner : Text
  pub acquired_at : ℕ
  pub expires_at : ℕ

-- The table, and what comes from outside: the time at each statement, and whether it is refused.
pub record LeaseDb : Type 0 where
  pub rows : Dict LeaseRow
  pub calls : ℕ
  pub clock : ℕ → ℕ
  pub refused : ℕ → Bool

-- `Lease`: an instance.
pub record Lease : Type 0 where
  pub ttl : ℕ
  pub owner : Text

abbrev pub now : LeaseDb → ℕ
now db = db.clock db.calls

-- One `ExecContext`: the rows affected, or none where it is refused.
unfoldable pub exec : (Dict LeaseRow → Dict LeaseRow × ℕ) → LeaseDb → Option ℕ × LeaseDb
exec f db =
    let (rows, n) = f db.rows in
    if db.refused db.calls
    then (none, record db { calls = suc db.calls })
    else (some n, record db { rows = rows; calls = suc db.calls })

-- `DELETE FROM lease WHERE expires_at < ?`; the count is not read.
unfoldable pub evict : ℕ → Dict LeaseRow → Dict LeaseRow
evict at [] = []
evict at ((n, r) ∷ rows) =
    let rest = evict at rows in if ltb r.expires_at at then rest else (n, r) ∷ rest

-- `INSERT OR IGNORE`
unfoldable pub insert_or_ignore : Text → LeaseRow → Dict LeaseRow → Dict LeaseRow × ℕ
insert_or_ignore name row rows = elim (lookup name rows) [
  | some held ↦ (rows, 0)
  | none ↦ ((name, row) ∷ rows, 1)
]

-- `DELETE FROM lease WHERE name = ? AND owner = ?`
delete_owned : Text → Text → Dict LeaseRow → Dict LeaseRow
delete_owned name owner [] = []
delete_owned name owner ((n, r) ∷ rows) =
    let rest = delete_owned name owner rows in
    if text_eq n name && text_eq r.owner owner then rest else (n, r) ∷ rest

-- `UPDATE lease SET expires_at = ? WHERE name = ? AND owner = ?`
unfoldable pub extend_owned : Text → Text → ℕ → Dict LeaseRow → Dict LeaseRow
extend_owned name owner until [] = []
extend_owned name owner until ((n, r) ∷ rows) =
    let rest = extend_owned name owner until rows in
    if text_eq n name && text_eq r.owner owner
    then (n, record r { expires_at = until }) ∷ rest
    else (n, r) ∷ rest

-- `&registry.Token{Name: name}`, at the address `addr`.
abbrev issued : ℕ → Text → Token
issued addr name = record { addr = addr; name = name; gen = 0 }

-- The token where the insert affected one row.
unfoldable pub granted : ℕ → Text → Option ℕ → Option Token
granted addr name none = none
granted addr name (some n) = if n == 1 then some (issued addr name) else none

-- The row of a lease that begins at `at`.
abbrev pub lease_row : Lease → ℕ → LeaseRow
lease_row l at = record { owner = l.owner; acquired_at = at; expires_at = at + l.ttl }

unfoldable pub inserted : Lease → ℕ → Text → ℕ → Option ℕ → LeaseDb → Option Token × LeaseDb
unfolding exec insert_or_ignore granted
inserted l addr name at none db = (none, db)
inserted l addr name at (some _) db =
    let (n, db') = exec (insert_or_ignore name (lease_row l at)) db in (granted addr name n, db')

-- `Acquire`; the new token stands at the address `addr`.
unfoldable pub acquire : Lease → ℕ → Text → LeaseDb → Option Token × LeaseDb
unfolding exec evict inserted
acquire l addr name db =
    let at = now db in
    let (r, db') = exec (λ rows. (evict at rows, 0)) db in inserted l addr name at r db'

-- `Release`: by name and owner; its error is dropped.
unfoldable pub release : Lease → Option Token → LeaseDb → LeaseDb
unfolding exec delete_owned
release l none db = db
release l (some t) db = (exec (λ rows. (delete_owned t.name l.owner rows, 0)) db).1

-- `Renew`
unfoldable pub renew : Lease → Option Token → LeaseDb → LeaseDb
unfolding exec extend_owned
renew l none db = db
renew l (some t) db = (exec (λ rows. (extend_owned t.name l.owner (now db + l.ttl) rows, 0)) db).1
