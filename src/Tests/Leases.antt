-- ===== src/Tests/Leases.antt =====
-- Two instances at one lease table, with a TTL of ten ticks.
use replicron.Base.{
  ℕ, ◌≤◌, ◌≡◌, ◌≢◌, refl, codes, [], ◌∷◌, none, some, false, arith, lookup, text_eq,
}
use replicron.Registry.{Token}
use replicron.Lease.{
  LeaseRow, LeaseDb, Lease, acquire, release, renew, exec, evict, extend_owned, insert_or_ignore,
  granted, inserted, lease_row,
}
use replicron.Lease.Statements.{Statements, IsHeld, inserted-exclusive}
use replicron.Lease.Expiry.{Others, acquire-exclusive}
use replicron.Lease.Stale.{stale_token_releases}

abbrev first : Lease
first = record { ttl = 10; owner = codes "a" }

abbrev second : Lease
second = record { ttl = 10; owner = codes "b" }

abbrev unused : LeaseDb
unused = record { rows = []; calls = 0; clock = λ n. n; refused = λ n. false }

abbrev token : Token
token = record { addr = 1; name = codes "users"; gen = 0 }

abbrev leased : LeaseDb
leased = record unused {
  rows = (codes "users", record { owner = codes "a"; acquired_at = 0; expires_at = 10 }) ∷ [];
  calls = 2;
}

leased-acquired : acquire first 1 (codes "users") unused ≡ (some token, leased)
unfolding acquire lookup
leased-acquired = refl

-- The second instance asks too.
abbrev contended : LeaseDb
contended = (acquire second 2 (codes "users") leased).1

contended-before : contended.clock contended.calls ≤ 10
unfolding acquire lookup text_eq
contended-before = omega arith

acquire-exclusive_example : (acquire second 3 (codes "users") contended).0 ≡ none
acquire-exclusive_example =
    acquire-exclusive first 1 (codes "users") unused leased contended token leased-acquired
      (Others.acquired second 2 (codes "users") (omega arith) Others.done) contended-before second 3

-- The first instance renews, and the second evicts as of a time behind the first expiry.
abbrev evicted : LeaseDb
evicted = record unused { calls = 1 }

evicted-inserted : inserted first 1 (codes "users") 0 (some 0) evicted ≡ (some token, leased)
unfolding inserted exec insert_or_ignore granted lookup
evicted-inserted = refl

abbrev extended : LeaseDb
extended = (exec (λ rows. (extend_owned (codes "users") (codes "a") 30 rows, 0)) leased).1

extended-live :
    (row : LeaseRow) → lookup (codes "users") extended.rows ≡ some row → 12 ≤ row.expires_at
unfolding exec extend_owned lookup text_eq
extended-live row h = let until : 30 ≡ row.expires_at = cc h in omega (arith, until)

inserted-exclusive_example :
    let db = (exec (λ rows. (evict 12 rows, 0)) extended).1 in
    IsHeld (codes "a") (codes "users") db
    × ((l' : Lease) (addr' at' : ℕ) → (inserted l' addr' (codes "users") at' (some 0) db).0 ≡ none)
inserted-exclusive_example =
    inserted-exclusive first 1 (codes "users") 0 evicted leased
      (exec (λ rows. (evict 12 rows, 0)) extended).1 token evicted-inserted
      (Statements.extends first (codes "users") 30
        (Statements.evicts 12 extended-live Statements.done))

-- The table after the lease of the first instance has expired.
abbrev expired : LeaseDb
expired = record leased { calls = 20 }

abbrev leased_again : LeaseDb
leased_again = record unused {
  rows = (codes "users", record { owner = codes "a"; acquired_at = 20; expires_at = 30 }) ∷ [];
  calls = 22;
}

abbrev new_token : Token
new_token = record { addr = 2; name = codes "users"; gen = 0 }

leased_again-acquired : acquire first 2 (codes "users") expired ≡ (some new_token, leased_again)
unfolding acquire lookup
leased_again-acquired = refl

stale_token_releases_example :
    (token ≢ new_token)
    × (lookup (codes "users") leased_again.rows ≡ some (lease_row first 20))
    × (lookup (codes "users") (release first (some token) leased_again).rows ≡ none)
    × (lookup (codes "users") (renew first (some token) leased_again).rows
        ≡ some (record (lease_row first 20) { expires_at = 32 }))
stale_token_releases_example =
    stale_token_releases first 1 2 (codes "users") unused leased expired leased_again token
      new_token leased-acquired leased_again-acquired (omega arith) refl
