-- ===== src/Config/Validated.antt =====
-- What a validated task satisfies, and that validating it again changes nothing.
use replicron.Base.{
  ℕ, ◌+◌, ◌≡◌, ◌≢◌, refl, ◌⊎◌, inl, inr, Text, codes, List, [], ◌∷◌, Bool, true, false, ◌&&◌, ◌||◌,
  text_eq, arith, All, All_imp, map, subst, text_eq_iff,
}
use replicron.Base.Ints.{ℤ, pos, ltb_ℤ}
use mathlib.Core.Path.{ap₂}
use replicron.Model.{Result, ok, err, Result-cases, ok-injective}
use replicron.Config.{
  Task, Outside, is_empty, is_supported, or_default, default_page_size, default_batch_size,
  effective_mode, has_no_keys, seen_before, check_timeout, check_source, check_target, check_rest,
  validate_task, validate_tasks, validate,
}

-- What the engine relies on in a task.
pub record IsValid (t : Task) : Type 0 where
  pub named : is_empty t.name ≡ false
  pub source_known : is_supported t.source.typ ≡ true
  pub target_known : is_supported t.target.endpoint.typ ≡ true
  pub queried : is_empty t.source.query ≡ false
  pub tabled : is_empty t.target.table ≡ false
  pub moded :
      (t.target.mode ≡ codes "insert")
      ⊎ ((t.target.mode ≡ codes "upsert") × (has_no_keys t.target.keys ≡ false))
  pub batch_positive : ltb_ℤ (pos 0) t.target.batch_size ≡ true
  pub page_positive : ltb_ℤ (pos 0) t.page_size ≡ true
  pub timeout_positive : ltb_ℤ (pos 0) t.timeout_dur ≡ true

or_default-positive :
    (n def : ℤ) → ltb_ℤ (pos 0) def ≡ true → ltb_ℤ (pos 0) (or_default n def) ≡ true
unfolding or_default
or_default-positive n def h = ground arith

-- A predicate of the value, if there is one.
abbrev on_ok : {A : Type 0} → (A → Bool) → Result A → Bool
on_ok p (ok a) = p a
on_ok p (err e) = true

check_timeout-positive :
    (out : Outside) (s : Text) → on_ok (ltb_ℤ (pos 0)) (check_timeout out s) ≡ true
unfolding check_timeout
check_timeout-positive out s = ground arith

check_rest-positive : (out : Outside) (t : Task) → on_ok (ltb_ℤ (pos 0)) (check_rest out t) ≡ true
unfolding check_rest
check_rest-positive out t = ground (arith, check_timeout-positive out t.timeout)

abbrev succeeds : {A : Type 0} → Result A → Bool
succeeds (ok a) = true
succeeds (err e) = false

check_source-facts :
    (out : Outside) (t : Task)
    → succeeds (check_source out t) ≡ true
    → (is_supported t.source.typ ≡ true) × (is_empty t.source.query ≡ false)
unfolding check_source
check_source-facts out t h = ground arith

check_target-facts :
    (out : Outside) (t : Task)
    → succeeds (check_target out t) ≡ true
    → let mode = effective_mode t.target.mode in
      (is_supported t.target.endpoint.typ ≡ true)
      × (is_empty t.target.table ≡ false)
      × ((text_eq mode (codes "upsert") || text_eq mode (codes "insert")) ≡ true)
      × ((text_eq mode (codes "upsert") && has_no_keys t.target.keys) ≡ false)
unfolding check_target
check_target-facts out t h = ground arith

-- A task that `validateTask` accepts is left with everything that the engine relies on, and with its
-- name.
pub validate_task-IsValid :
    (out : Outside) (t t' : Task) → validate_task out t ≡ ok t' → IsValid t' × (t'.name ≡ t.name)
unfolding validate_task
validate_task-IsValid out t t' h = ground (
  arith,
  check_source-facts out t,
  check_target-facts out t,
  check_rest-positive out t,
  or_default-positive t.page_size default_page_size,
  or_default-positive t.target.batch_size default_batch_size,
  text_eq_iff (effective_mode t.target.mode) (codes "upsert"),
  text_eq_iff (effective_mode t.target.mode) (codes "insert"),
)

-- The names of the tasks are pairwise different.
abbrev pub NamesApart : List Task → Type 0
NamesApart [] = Unit
NamesApart (t ∷ ts) = All (λ u. t.name ≢ u.name) ts × NamesApart ts

abbrev pub names : List Task → List Text
names = map (λ t. t.name)

-- What the loop of `Validate` leaves, behind the names already seen.
record Accepted (seen : List Text) (ts ts' : List Task) : Type 0 where
  pub valid : All IsValid ts'
  pub unseen : All (λ u. seen_before u.name seen ≡ false) ts'
  pub apart : NamesApart ts'
  pub kept : names ts' ≡ names ts

unseen-cons :
    (n : Text) (seen : List Text) (u : Task)
    → seen_before u.name (n ∷ seen) ≡ false
    → (n ≢ u.name) × (seen_before u.name seen ≡ false)
unseen-cons n seen u h = (λ e. ground (arith, text_eq_iff n u.name), ground arith)

validate_tasks-Accepted :
    (out : Outside) (i : ℕ) (seen : List Text) (ts ts' : List Task)
    → validate_tasks out i seen ts ≡ ok ts'
    → Accepted seen ts ts'
unfolding validate_tasks
validate_tasks-Accepted out i seen [] ts' h =
    subst (Accepted seen []) (ok-injective h)
      (record { valid = tt; unseen = tt; apart = tt; kept = refl })
validate_tasks-Accepted out i seen (t ∷ ts) ts' h = elim (Result-cases (validate_task out t)) [
  | inr (e, bad) ↦ absurd (cc (rw bad at h))
  | inl (u, good) ↦ elim (Result-cases (validate_tasks out (i + 1) (u.name ∷ seen) ts)) [
    | inr (e, bad) ↦ absurd (ground arith)
    | inl (rest, more) ↦
        let acc = validate_tasks-Accepted out (i + 1) (u.name ∷ seen) ts rest more in
        let left : u ∷ rest ≡ ts' = ground arith in
        let fresh : seen_before u.name seen ≡ false = ground arith in
        let (valid, kept) = validate_task-IsValid out t u good in
        subst (Accepted seen (t ∷ ts)) left (record {
          valid = (valid, acc.valid);
          unseen = (fresh, All_imp (λ v p. (unseen-cons u.name seen v p).1) rest acc.unseen);
          apart = (All_imp (λ v p. (unseen-cons u.name seen v p).0) rest acc.unseen, acc.apart);
          kept = ap₂ ◌∷◌ kept acc.kept;
        })
  ]
]

-- `Validate` accepts only a configuration with a task, and leaves every task as the engine needs it,
-- with the names, in order, that were given, and no name twice.
pub validate-IsValid :
    (out : Outside) (ts ts' : List Task)
    → validate out ts ≡ ok ts'
    → (ts ≢ []) × All IsValid ts' × NamesApart ts' × (names ts' ≡ names ts)
unfolding validate
validate-IsValid out [] ts' h = absurd (cc h)
validate-IsValid out (t ∷ ts) ts' h =
    let acc = validate_tasks-Accepted out 0 [] (t ∷ ts) ts' h in
    (λ e. cc e, acc.valid, acc.apart, acc.kept)
