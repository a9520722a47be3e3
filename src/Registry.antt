-- ===== src/Registry.antt =====
-- internal/registry/registry.go: per-task mutual exclusion inside one process. The proofs are in the
-- modules below.
pub mod System
pub mod Consistency
pub mod Exclusion
use replicron.Base.{
  ℕ, suc, ◌+◌, ◌%◌, ◌^◌, Text, Option, none, some, [], Dict, lookup, insert, erase, ◌==◌,
  if◌then◌else◌,
}

-- `*Token`: `addr` is the pointer, which `==` compares; the other fields are what it points to.
pub record Token : Type 0 where
  pub addr : ℕ
  pub name : Text
  pub gen : ℕ

-- `Registry`. `next` is the address that the allocator hands out next.
pub record Registry : Type 0 where
  pub running : Dict Token
  pub gen : ℕ
  pub next : ℕ

abbrev pub new : Registry
new = record { running = []; gen = 0; next = 1 }

-- `r.gen++` on a uint64, and `&Token{…}`.
abbrev issued : Text → Registry → Token
issued name r = record { addr = r.next; name = name; gen = (r.gen + 1) % 2 ^ 64 }

unfoldable pub acquire : Text → Registry → Option Token × Registry
acquire name r = elim (lookup name r.running) [
  | some held ↦ (none, r)
  | none ↦
      let t = issued name r in
      (some t, record { running = insert name t r.running; gen = t.gen; next = suc r.next })
]

-- The release of a token that is not nil; `cur` is nil where the map has no entry.
unfoldable pub release_token : Token → Registry → Registry
release_token t r = elim (lookup t.name r.running) [
  | none ↦ r
  | some cur ↦ if cur.addr == t.addr then record r { running = erase t.name r.running } else r
]

unfoldable pub release : Option Token → Registry → Registry
unfolding release_token
release none r = r
release (some t) r = release_token t r
