-- ===== src/Registry/Exclusion.antt =====
-- Mutual exclusion of the in-process registry over every interleaving of runs.
use replicron.Base.{
  ◌<◌, Text, none, some, List, [], ◌∷◌, ◌≡◌, ◌≢◌, sym, ◌∙◌, ap, ◌↔◌, inl, inr, arith, All, Any,
  All-Any, lookup, Option-cases, subst,
}
use replicron.Registry.{Token, Registry, issued, acquire, release}
use replicron.Registry.System.{
  System, without, Step, acquired, refused, finished, released_again, Reach, here, next,
}
use replicron.Registry.Consistency.{Apart, IsConsistent, IsConsistent-start}
use replicron.Registry.Consistency.Acquired.{acquire_inv, acquire_none, acquire-IsConsistent}
use replicron.Registry.Consistency.Released.{release_held, release_stale, erase-IsConsistent}

-- Every step keeps the invariant.
Step-IsConsistent : (s s' : System) → Step s s' → IsConsistent s → IsConsistent s'
Step-IsConsistent s s' (acquired name t r e p) c =
    let (free, made, after) = acquire_inv name s.registry r t e in
    subst IsConsistent
      (sym (
        p
        ∙ ap (λ (v : Token). record { registry = r; held = v ∷ s.held; retired = s.retired }) made
        ∙ ap
            (λ (v : Registry). record {
              registry = v;
              held = issued name s.registry ∷ s.held;
              retired = s.retired;
            })
            after))
      (acquire-IsConsistent name s.registry free s.held s.retired c)
Step-IsConsistent s s' (refused name r e p) c =
    subst IsConsistent
      (sym
        (p ∙ ap (λ (v : Registry). record s { registry = v }) (acquire_none name s.registry r e)))
      c
Step-IsConsistent s s' (finished t m p) c =
    let stands = All-Any (λ u. lookup u.name s.registry.running ≡ some u) s.held c.entries m in
    subst IsConsistent
      (sym (
        p
        ∙ ap
            (λ (v : Registry). record {
              registry = v;
              held = without t s.held;
              retired = t ∷ s.retired;
            })
            (release_held t s.registry stands)))
      (erase-IsConsistent t s.registry stands s.held s.retired c
        (All-Any (λ u. u.addr < s.registry.next) s.held c.held_old m))
Step-IsConsistent s s' (released_again t m p) c =
    subst IsConsistent
      (sym (
        p
        ∙ ap (λ (v : Registry). record s { registry = v })
            (release_stale t s.registry (
              All-Any
                (λ v.
                  (n : Text) (u : Token) → lookup n s.registry.running ≡ some u → u.addr ≢ v.addr)
                s.retired c.retired_gone m))))
      c

pub Reach-IsConsistent : {s : System} → Reach s → IsConsistent s
Reach-IsConsistent here = IsConsistent-start
Reach-IsConsistent (next {s} {s'} r st) = Step-IsConsistent s s' st (Reach-IsConsistent r)

-- Whatever the interleaving of acquisitions, releases and repeated releases, no two runs under way
-- hold tokens of one task name.
pub Reach-Apart : (s : System) → Reach s → Apart s.held
Reach-Apart s r = (Reach-IsConsistent r).apart

acquire_free :
    (name : Text) (r : Registry)
    → lookup name r.running ≡ none
    → (acquire name r).0 ≡ some (issued name r)
unfolding acquire
acquire_free name r h = ground arith

acquire_held :
    (name : Text) (r : Registry) (u : Token)
    → lookup name r.running ≡ some u
    → (acquire name r).0 ≡ none
unfolding acquire
acquire_held name r u h = ground arith

Any-named :
    (name : Text) (u : Token) (held : List Token)
    → u.name ≡ name
    → Any (λ v. v ≡ u) held
    → Any (λ v. v.name ≡ name) held
Any-named name u [] e m = m
Any-named name u (v ∷ vs) e (inl p) = inl (ap (λ (x : Token). x.name) p ∙ e)
Any-named name u (v ∷ vs) e (inr m) = inr (Any-named name u vs e m)

held_entry :
    (name : Text) (r : Registry) (held : List Token)
    → All (λ t. lookup t.name r.running ≡ some t) held
    → Any (λ v. v.name ≡ name) held
    → (u : Token) × (lookup name r.running ≡ some u)
held_entry name r [] h m = absurd m
held_entry name r (v ∷ vs) (h, hs) (inl p) = (v, subst (λ n. lookup n r.running ≡ some v) p h)
held_entry name r (v ∷ vs) (h, hs) (inr m) = held_entry name r vs hs m

-- In every reachable state an acquisition is refused exactly when a run of that name is under way.
pub acquire_refused_iff_held :
    (s : System)
    → Reach s
    → (name : Text) → ((acquire name s.registry).0 ≡ none) ↔ Any (λ u. u.name ≡ name) s.held
acquire_refused_iff_held s r name = elim (Option-cases (lookup name s.registry.running)) [
  | inl free ↦ (
    λ e. cc (sym (acquire_free name s.registry free) ∙ e),
    λ m. let (u, e) = held_entry name s.registry s.held c.entries m in cc (sym free ∙ e),
  )
  | inr (u, e) ↦ (
    λ _. Any-named name u s.held (c.backed name u e).1 (c.backed name u e).0,
    λ _. acquire_held name s.registry u e,
  )
]
  where
    c : IsConsistent s
    c = Reach-IsConsistent r

-- Releasing a token a second time changes nothing, also when its name is held again by then.
pub release_retired_unchanged :
    (s : System)
    → Reach s
    → (t : Token) → Any (λ u. u ≡ t) s.retired
    → release (some t) s.registry ≡ s.registry
release_retired_unchanged s r t m = release_stale t s.registry (
    All-Any (λ v. (n : Text) (u : Token) → lookup n s.registry.running ≡ some u → u.addr ≢ v.addr)
      s.retired (Reach-IsConsistent r).retired_gone m)
