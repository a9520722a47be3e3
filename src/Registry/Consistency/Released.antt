-- ===== src/Registry/Consistency/Released.antt =====
-- A release keeps the invariant.
use replicron.Base.{
  ◌<◌, Text, some, List, [], ◌∷◌, ◌≡◌, ◌≢◌, sym, ◌∙◌, ap, inl, inr, arith, All, Any, All_imp,
  lookup, erase, lookup-erase, text_eq, text_eq_iff, text_eq_refl, ◌==◌, Option-cases, Bool-cases,
}
use replicron.Registry.{Token, Registry, release, release_token}
use replicron.Registry.System.{without}
use replicron.Registry.Consistency.{Apart, IsConsistent}

pub release_held :
    (t : Token) (r : Registry)
    → lookup t.name r.running ≡ some t
    → release (some t) r ≡ record r { running = erase t.name r.running }
unfolding release release_token
release_held t r h = ground arith

-- A token that no entry points to is not released.
pub release_stale :
    (t : Token) (r : Registry)
    → ((n : Text) (u : Token) → lookup n r.running ≡ some u → u.addr ≢ t.addr)
    → release (some t) r ≡ r
unfolding release release_token
release_stale t r gone = elim (Option-cases (lookup t.name r.running)) [
  | inl free ↦ ground arith
  | inr (u, e) ↦ ground (arith, gone t.name u e)
]

All-without :
    (P : Token → Type 0) (t : Token) (held : List Token)
    → All P held
    → All (λ u. P u × (u.addr ≢ t.addr)) (without t held)
unfolding without
All-without P t [] h = tt
All-without P t (u ∷ us) (h, hs) = elim (Bool-cases (u.addr == t.addr)) [
  | inl e ↦ rw e (All-without P t us hs)
  | inr e ↦ rw e ((h, ground arith), All-without P t us hs)
]

Apart-without : (t : Token) (held : List Token) → Apart held → Apart (without t held)
unfolding without
Apart-without t [] h = tt
Apart-without t (u ∷ us) (h, hs) = elim (Bool-cases (u.addr == t.addr)) [
  | inl e ↦ rw e (Apart-without t us hs)
  | inr e ↦ rw e (All_imp (λ v p. p.0) (without t us) (All-without _ t us h), Apart-without t us hs)
]

Any-without :
    (t u : Token) (held : List Token)
    → u.addr ≢ t.addr
    → Any (λ v. v ≡ u) held
    → Any (λ v. v ≡ u) (without t held)
unfolding without
Any-without t u [] ne m = m
Any-without t u (v ∷ vs) ne (inl e) = elim (Bool-cases (v.addr == t.addr)) [
  | inl same ↦ absurd (ne (ground arith))
  | inr other ↦ rw other (inl e)
]
Any-without t u (v ∷ vs) ne (inr m) = elim (Bool-cases (v.addr == t.addr)) [
  | inl same ↦ rw same (Any-without t u vs ne m)
  | inr other ↦ rw other (inr (Any-without t u vs ne m))
]

module _ (t : Token) (r : Registry) (stands : lookup t.name r.running ≡ some t) where
  entry_left :
      (u : Token)
      → (lookup u.name r.running ≡ some u) × (u.addr ≢ t.addr)
      → lookup u.name (erase t.name r.running) ≡ some u
  entry_left u (h, ne) = elim (Bool-cases (text_eq t.name u.name)) [
    | inl e ↦ absurd (
        ne (
          cc (
            sym h ∙ ap (λ n. lookup n r.running) (sym ((text_eq_iff t.name u.name).0 e)) ∙ stands)))
    | inr e ↦ rw (lookup-erase, e) h
  ]

  -- An entry after the release was there before, under another name.
  entry_before :
      (n : Text) (u : Token)
      → lookup n (erase t.name r.running) ≡ some u
      → (lookup n r.running ≡ some u) × (t.name ≢ n)
  entry_before n u h =
      ground (arith, lookup-erase t.name n r.running, text_eq_iff t.name n, text_eq_refl n)

  module _ (held retired : List Token)
      (c : IsConsistent (record { registry = r; held = held; retired = retired })) where
    other_addr :
        (n : Text) (u : Token) → lookup n (erase t.name r.running) ≡ some u → u.addr ≢ t.addr
    other_addr n u e same =
        (entry_before n u e).1 (sym (c.addresses n t.name u t (entry_before n u e).0 stands same))

    pub erase-IsConsistent :
        t.addr < r.next
        → IsConsistent (record {
          registry = record r { running = erase t.name r.running };
          held = without t held;
          retired = t ∷ retired;
        })
    erase-IsConsistent old = record {
      entries = All_imp entry_left (without t held) (All-without _ t held c.entries);
      backed = λ n u e.
          let was = c.backed n u (entry_before n u e).0 in
          (Any-without t u held (other_addr n u e) was.0, was.1);
      held_old = All_imp (λ u p. p.0) (without t held) (All-without _ t held c.held_old);
      retired_old = (old, c.retired_old);
      retired_gone = (
        other_addr,
        All_imp (λ v gone n u e. gone n u (entry_before n u e).0) retired c.retired_gone,
      );
      addresses = λ n m v u e f. c.addresses n m v u (entry_before n v e).0 (entry_before m u f).0;
      apart = Apart-without t held c.apart;
    }
