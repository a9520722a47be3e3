-- ===== src/Registry/Consistency.antt =====
-- The invariant that ties the map of the registry to the tokens of the runs under way.
pub mod Acquired
pub mod Released
use replicron.Base.{
  suc, ◌<◌, Text, none, some, List, [], ◌∷◌, ◌≡◌, ◌≢◌, sym, ◌∙◌, ap, ◌↔◌, ◌⊎◌, inl, inr, arith, All,
  Any, All_imp, All_and, All-Any, lookup, insert, erase, lookup-insert, lookup-erase, text_eq,
  text_eq_iff, text_eq_refl, ◌==◌, Option-cases, Bool-cases, subst,
}
use replicron.Registry.{Token, Registry, issued, acquire, release, release_token}
use replicron.Registry.System.{
  System, start, without, Step, acquired, refused, finished, released_again, Reach, here, next,
}

-- The names of the tokens are pairwise different.
abbrev pub Apart : List Token → Type 0
Apart [] = Unit
Apart (t ∷ ts) = All (λ u. u.name ≢ t.name) ts × Apart ts

pub record IsConsistent (s : System) : Type 0 where
  pub entries : All (λ t. lookup t.name s.registry.running ≡ some t) s.held
  pub backed :
      (n : Text) (t : Token)
      → lookup n s.registry.running ≡ some t
      → Any (λ u. u ≡ t) s.held × (t.name ≡ n)
  pub held_old : All (λ t. t.addr < s.registry.next) s.held
  pub retired_old : All (λ t. t.addr < s.registry.next) s.retired
  pub retired_gone :
      All
        (λ t. (n : Text) (u : Token) → lookup n s.registry.running ≡ some u → u.addr ≢ t.addr)
        s.retired
  pub addresses :
      (n m : Text) (t u : Token)
      → lookup n s.registry.running ≡ some t
      → lookup m s.registry.running ≡ some u
      → t.addr ≡ u.addr
      → n ≡ m
  pub apart : Apart s.held

pub IsConsistent-start : IsConsistent start
unfolding lookup
IsConsistent-start = record {
  entries = tt;
  backed = λ n t e. cc;
  held_old = tt;
  retired_old = tt;
  retired_gone = tt;
  addresses = λ n m t u e. cc;
  apart = tt;
}
