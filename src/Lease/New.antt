-- ===== src/Lease/New.antt =====
-- internal/lease/lease.go: `New`, and the instance as a lock for the engine.
pub mod Owners
use replicron.Base.{
  ℕ, suc, ◌+◌, ◌-◌, ◌/◌, ◌%◌, Text, codes, List, [], ◌∷◌, ◌++◌, Option, none, some, ltb,
  if◌then◌else◌,
}
use replicron.Base.Decimal.{format_nat}
use replicron.Model.{Error, Result, ok, err, lease_migrate, ◌>>=◌, ◌>>◌}
use replicron.Registry.{Token}
use replicron.Lease.{Lease, LeaseDb, acquire, release, renew}
use replicron.Engine.Page.{Locker}

-- What `New` asks the machine: the errors of `sql.Open` and of `CREATE TABLE`, the eight random bytes, the
-- host name (empty where it is not known) and the process id.
pub record Machine : Type 0 where
  pub sql_open : Text → Option Error
  pub create_table : Option Error
  pub random : Result (List ℕ)
  pub hostname : Text
  pub pid : ℕ

hex_digit : ℕ → ℕ
hex_digit n = if ltb n 10 then b'0' + n else b'a' + n - 10

-- `hex.EncodeToString`
unfoldable pub hex_encode : List ℕ → Text
unfolding hex_digit
hex_encode [] = []
hex_encode (b ∷ bs) = hex_digit (b / 16) ∷ hex_digit (b % 16) ∷ hex_encode bs

-- `fmt.Sprintf("%s:%d:%s", host, os.Getpid(), …)`
unfoldable pub owner_name : Text → ℕ → List ℕ → Text
owner_name host pid bytes = host ++ codes ":" ++ format_nat pid ++ codes ":" ++ hex_encode bytes

step : Option Error → Result (Unit {0})
step none = ok tt
step (some e) = err e

migrated : Option Error → Result (Unit {0})
migrated none = ok tt
migrated (some e) = err (lease_migrate e)

-- `New`
unfoldable pub new : Machine → Text → ℕ → Result Lease
unfolding step migrated
new m path ttl = do
  step (m.sql_open path)
  migrated m.create_table
  bytes ← m.random
  ok (record { ttl = ttl; owner = owner_name m.hostname m.pid bytes })

-- The lease table with the address that the allocator hands out next.
pub record LeaseSide : Type 0 where
  pub db : LeaseDb
  pub next : ℕ

-- An instance as a `registry.Locker` that is a `registry.Renewer`.
abbrev pub lease_locker : Lease → Locker LeaseSide Token
lease_locker l = record {
  acquire = λ name s.
      let (t, db) = acquire l s.next name s.db in (t, record { db = db; next = suc s.next });
  release = λ t s. record s { db = release l (some t) s.db };
  renew = some (λ t s. record s { db = renew l (some t) s.db });
}
