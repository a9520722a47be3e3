-- ===== src/Registry/Consistency/Acquired.antt =====
-- An acquisition keeps the invariant.
use replicron.Base.{
  suc, ◌<◌, Text, none, some, List, ◌∷◌, ◌≡◌, ◌≢◌, sym, ◌∙◌, ap, ◌⊎◌, inl, inr, arith, All_imp,
  All_and, All-Any, lookup, insert, lookup-insert, text_eq_iff, text_eq_refl,
}
use replicron.Registry.{Token, Registry, issued, acquire}
use replicron.Registry.Consistency.{IsConsistent}

-- What a successful acquisition did.
abbrev pub After : Text → Registry → Registry
After name r = record {
  running = insert name (issued name r) r.running;
  gen = (issued name r).gen;
  next = suc r.next;
}

pub acquire_inv :
    (name : Text) (r r' : Registry) (t : Token)
    → acquire name r ≡ (some t, r')
    → (lookup name r.running ≡ none) × (t ≡ issued name r) × (r' ≡ After name r)
unfolding acquire
acquire_inv name r r' t h = ground arith

pub acquire_none : (name : Text) (r r' : Registry) → acquire name r ≡ (none, r') → r' ≡ r
unfolding acquire
acquire_none name r r' h = ground arith

module _ (name : Text) (r : Registry) (free : lookup name r.running ≡ none) where
  -- The entry of another run stays, and it has another name.
  entry_kept :
      (u : Token) → lookup u.name r.running ≡ some u → lookup u.name (After name r).running ≡ some u
  entry_kept u h =
      ground (arith, lookup-insert name u.name (issued name r) r.running, text_eq_iff name u.name)

  name_other : (u : Token) → lookup u.name r.running ≡ some u → u.name ≢ name
  name_other u h e = cc (sym free ∙ ap (λ n. lookup n r.running) (sym e) ∙ h)

  entry_new : lookup name (After name r).running ≡ some (issued name r)
  entry_new = ground (arith, lookup-insert name name (issued name r) r.running, text_eq_refl name)

  -- An entry afterwards is the new one or an old one.
  entry_cases :
      (n : Text) (t : Token)
      → lookup n (After name r).running ≡ some t
      → ((t ≡ issued name r) × (n ≡ name)) ⊎ (lookup n r.running ≡ some t)
  entry_cases n t h =
      ground (arith, lookup-insert name n (issued name r) r.running, text_eq_iff name n)

  gone_after :
      (t : Token)
      → ((n : Text) (u : Token) → lookup n r.running ≡ some u → u.addr ≢ t.addr)
      → t.addr < r.next
      → (n : Text) (u : Token) → lookup n (After name r).running ≡ some u
      → u.addr ≢ t.addr
  gone_after t gone old n u e = elim (entry_cases n u e) [
    | inl (p, q) ↦ λ same. omega (arith, ap (λ (x : Token). x.addr) p)
    | inr before ↦ gone n u before
  ]

  -- The address of an entry was handed out before.
  entry_old :
      (held retired : List Token)
      → IsConsistent (record { registry = r; held = held; retired = retired })
      → (n : Text) (t : Token) → lookup n r.running ≡ some t
      → t.addr < r.next
  entry_old held retired c n t e = All-Any (λ u. u.addr < r.next) held c.held_old (c.backed n t e).0

  addresses_after :
      (held retired : List Token)
      → IsConsistent (record { registry = r; held = held; retired = retired })
      → (n m : Text) (t u : Token) → lookup n (After name r).running ≡ some t
      → lookup m (After name r).running ≡ some u
      → t.addr ≡ u.addr
      → n ≡ m
  addresses_after held retired c n m t u e f same = pick (entry_cases n t e) (entry_cases m u f)
    where
      old : (k : Text) (v : Token) → lookup k r.running ≡ some v → v.addr < r.next
      old = entry_old held retired c

      addr_of : {v w : Token} → v ≡ w → v.addr ≡ w.addr
      addr_of p = ap (λ (x : Token). x.addr) p

      pick :
          ((t ≡ issued name r) × (n ≡ name)) ⊎ (lookup n r.running ≡ some t)
          → ((u ≡ issued name r) × (m ≡ name)) ⊎ (lookup m r.running ≡ some u)
          → n ≡ m
      pick (inl (p, q)) (inl (p', q')) = q ∙ sym q'
      pick (inl (p, q)) (inr o') = absurd (omega (arith, addr_of p, old m u o'))
      pick (inr o) (inl (p', q')) = absurd (omega (arith, addr_of p', old n t o))
      pick (inr o) (inr o') = c.addresses n m t u o o' same

  pub acquire-IsConsistent :
      (held retired : List Token)
      → IsConsistent (record { registry = r; held = held; retired = retired })
      → IsConsistent
          (record { registry = After name r; held = issued name r ∷ held; retired = retired })
  acquire-IsConsistent held retired c = record {
    entries = (entry_new, All_imp entry_kept held c.entries);
    backed = λ n t e. elim (entry_cases n t e) [
      | inl (p, q) ↦ (inl (sym p), ap (λ u. u.name) p ∙ sym q)
      | inr old ↦ (inr (c.backed n t old).0, (c.backed n t old).1)
    ];
    held_old = (omega arith, All_imp (λ u lt. omega arith) held c.held_old);
    retired_old = All_imp (λ u lt. omega arith) retired c.retired_old;
    retired_gone = All_and gone_after retired c.retired_gone c.retired_old;
    addresses = addresses_after held retired c;
    apart = (All_imp name_other held c.entries, c.apart);
  }

-- A token that stands in the map is released by erasing its entry.
