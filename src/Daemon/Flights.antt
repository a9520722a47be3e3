-- ===== src/Daemon/Flights.antt =====
-- internal/daemon/daemon.go: the runs in progress and the rows of the run log.
use replicron.Base.{
  ℕ, zero, suc, ◌≡◌, ◌≢◌, ◌↔◌, refl, sym, ◌∙◌, codes, List, [], ◌∷◌, ◌++◌, get_elem?, some, All,
  Any, Bool-cases, inl, inr, subst, ==_iff, ◌==◌, ◌<◌, arith,
}
use replicron.Model.{Run, running, RunResult}
use replicron.Config.{Task}
use replicron.Runlog.Statements.{update_run, finalized}
use replicron.Daemon.{Flight, remove_at}

module _ {A : Type 0} (P : A → Type 0) where
  pub All-elem : (xs : List A) (i : ℕ) (a : A) → All P xs → get_elem? xs i ≡ some a → P a
  All-elem [] i a h e = absurd (cc e)
  All-elem (x ∷ xs) zero a (h, hs) e = let same : x ≡ a = cc in subst P same h
  All-elem (x ∷ xs) (suc i) a (h, hs) e = All-elem xs i a hs e

  pub All-remove_at : (n : ℕ) (xs : List A) → All P xs → All P (remove_at n xs)
  All-remove_at n [] h = tt
  All-remove_at zero (x ∷ xs) (h, hs) = hs
  All-remove_at (suc n) (x ∷ xs) (h, hs) = (h, All-remove_at n xs hs)

  pub Any-remove_at : (n : ℕ) (xs : List A) → Any P (remove_at n xs) → Any P xs
  Any-remove_at n [] m = m
  Any-remove_at zero (x ∷ xs) m = inr m
  Any-remove_at (suc n) (x ∷ xs) (inl p) = inl p
  Any-remove_at (suc n) (x ∷ xs) (inr m) = inr (Any-remove_at n xs m)

  -- One that is not the one that is taken out stays.
  pub Any-stays :
      (n : ℕ) (xs : List A) (a : A)
      → get_elem? xs n ≡ some a
      → (P a → ⊥)
      → Any P xs
      → Any P (remove_at n xs)
  Any-stays n [] a e gone m = m
  Any-stays zero (x ∷ xs) a e gone (inl p) = let same : x ≡ a = cc in absurd (gone (subst P same p))
  Any-stays zero (x ∷ xs) a e gone (inr m) = m
  Any-stays (suc n) (x ∷ xs) a e gone (inl p) = inl p
  Any-stays (suc n) (x ∷ xs) a e gone (inr m) = inr (Any-stays n xs a e gone m)

module _ {K : Type 0} where
  -- A run in progress has this id.
  abbrev pub Has : ℕ → List (Flight K) → Type 0
  Has id fs = Any (λ f. f.run_id ≡ id) fs

  abbrev pub AreApart : List (Flight K) → Type 0
  AreApart [] = Unit
  AreApart (f ∷ fs) = All (λ g. g.run_id ≢ f.run_id) fs × AreApart fs

  pub AreApart-remove_at : (n : ℕ) (fs : List (Flight K)) → AreApart fs → AreApart (remove_at n fs)
  AreApart-remove_at n [] h = tt
  AreApart-remove_at zero (f ∷ fs) (h, hs) = hs
  AreApart-remove_at (suc n) (f ∷ fs) (h, hs) =
      (All-remove_at (λ g. g.run_id ≢ f.run_id) n fs h, AreApart-remove_at n fs hs)

  -- None of the others has the id of the one that is taken out.
  pub AreApart-others :
      (n : ℕ) (fs : List (Flight K)) (f : Flight K)
      → get_elem? fs n ≡ some f
      → AreApart fs
      → All (λ g. g.run_id ≢ f.run_id) (remove_at n fs)
  AreApart-others n [] f e h = tt
  AreApart-others zero (g ∷ fs) f e (h, hs) =
      let same : g ≡ f = cc in subst (λ x. All (λ y. y.run_id ≢ x.run_id) fs) same h
  AreApart-others (suc n) (g ∷ fs) f e (h, hs) =
      let apart = All-elem (λ y. y.run_id ≢ g.run_id) fs n f h e in
      (λ q. apart (sym q), AreApart-others n fs f e hs)

  pub Has-not : (id : ℕ) (fs : List (Flight K)) → All (λ g. g.run_id ≢ id) fs → Has id fs → ⊥
  Has-not id [] h m = m
  Has-not id (f ∷ fs) (h, hs) (inl q) = h q
  Has-not id (f ∷ fs) (h, hs) (inr m) = Has-not id fs hs m

  -- The row is running exactly when a run in progress has its id.
  abbrev pub IsTrue : List (Flight K) → Run → Type 0
  IsTrue fs r = (r.status ≡ running) ↔ Has r.id fs

  -- The end of a run.
  pub finalized-AreTrue :
      (n : ℕ) (fs : List (Flight K)) (f : Flight K) (res : RunResult) (at : ℕ) (rs : List Run)
      → get_elem? fs n ≡ some f
      → AreApart fs
      → res.status ≢ running
      → All (IsTrue fs) rs
      → All (IsTrue (remove_at n fs)) (update_run f.run_id (finalized res at) rs)
  unfolding update_run finalized
  finalized-AreTrue n fs f res at [] e apart over h = tt
  finalized-AreTrue n fs f res at (r ∷ rs) e apart over ((there, back), hs) =
      let rest = finalized-AreTrue n fs f res at rs e apart over hs in
      elim (Bool-cases (r.id == f.run_id)) [
        | inl same ↦
            let eq : r.id ≡ f.run_id = (==_iff r.id f.run_id).0 same in
            rw same (
              (
                λ q. absurd (over q),
                λ m.
                    absurd
                      (Has-not r.id (remove_at n fs) (rw eq (AreApart-others n fs f e apart)) m),
              ),
              rest,
            )
        | inr other ↦
            let differs : f.run_id ≢ r.id =
              λ q. absurd (cc (sym other ∙ (==_iff r.id f.run_id).1 (sym q))) in
            rw other (
              (
                λ q. Any-stays (λ g. g.run_id ≡ r.id) n fs f e differs (there q),
                λ m. back (Any-remove_at (λ g. g.run_id ≡ r.id) n fs m),
              ),
              rest,
            )
      ]

-- One row to a task, in order, with its name and the trigger.
abbrev pub AreCronRows : List Task → List Run → Type 0
AreCronRows [] [] = Unit
AreCronRows [] (r ∷ rs) = ⊥
AreCronRows (t ∷ ts) [] = ⊥
AreCronRows (t ∷ ts) (r ∷ rs) = (r.task ≡ t.name) × (r.trigger ≡ codes "cron") × AreCronRows ts rs

pub AreCronRows-snoc :
    (ts : List Task) (rs : List Run) (t : Task) (r : Run)
    → AreCronRows ts rs
    → r.task ≡ t.name
    → r.trigger ≡ codes "cron"
    → AreCronRows (ts ++ t ∷ []) (rs ++ r ∷ [])
AreCronRows-snoc [] [] t r h e k = (e, k, tt)
AreCronRows-snoc [] (q ∷ rs) t r h e k = absurd h
AreCronRows-snoc (u ∷ ts) [] t r h e k = absurd h
AreCronRows-snoc (u ∷ ts) (q ∷ rs) t r (a, b, h) e k = (a, b, AreCronRows-snoc ts rs t r h e k)

pub AreCronRows-finalized :
    (id at : ℕ) (res : RunResult) (ts : List Task) (rs : List Run)
    → AreCronRows ts rs
    → AreCronRows ts (update_run id (finalized res at) rs)
unfolding update_run finalized
AreCronRows-finalized id at res [] [] h = tt
AreCronRows-finalized id at res [] (r ∷ rs) h = absurd h
AreCronRows-finalized id at res (t ∷ ts) [] h = absurd h
AreCronRows-finalized id at res (t ∷ ts) (r ∷ rs) (a, b, h) =
    let rest = AreCronRows-finalized id at res ts rs h in
    elim (Bool-cases (r.id == id)) [
      | inl same ↦ rw same (a, b, rest)
      | inr other ↦ rw other (a, b, rest)
    ]

-- Rows with other ids stay as they are.
pub update_run-behind :
    (id : ℕ) (f : Run → Run) (before added : List Run)
    → All (λ r. r.id < id) before
    → update_run id f (before ++ added) ≡ before ++ update_run id f added
unfolding update_run
update_run-behind id f [] added h = refl
update_run-behind id f (r ∷ before) added (h, hs) =
    ground (arith, update_run-behind id f before added hs)

pub update_run-Any :
    (id other : ℕ) (res : RunResult) (at : ℕ) (rs : List Run)
    → Any (λ r. r.id ≡ other) rs
    → Any (λ r. r.id ≡ other) (update_run id (finalized res at) rs)
unfolding update_run finalized
update_run-Any id other res at [] m = m
update_run-Any id other res at (r ∷ rs) (inl q) = elim (Bool-cases (r.id == id)) [
  | inl same ↦ rw same (inl q)
  | inr apart ↦ rw apart (inl q)
]
update_run-Any id other res at (r ∷ rs) (inr m) = inr (update_run-Any id other res at rs m)
