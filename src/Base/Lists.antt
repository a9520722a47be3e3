-- ===== src/Base/Lists.antt =====
-- Lists measured by native numbers, predicates over lists, and membership by recursion.
use Prim.Native.Nat.{ℕ, zero, suc, ◌+◌, ◌-◌, ◌≤◌, min}
use mathlib.Core.Path.{◌≡◌, refl, subst, ap}
use mathlib.Core.Logic.{◌⊎◌, inl, inr}
use mathlib.Core.Bool.{Bool, true, ◌&&◌}
use mathlib.Core.Option.{Option, none, some}
use mathlib.Core.List.{List, [], ◌∷◌, ◌++◌, reverse, reverse-cons}
use native.Mathlib.Omega.{arith}

module _ {ℓ} {A : Type ℓ} where
  abbrev pub length : List A → ℕ
  length [] = 0
  length (x ∷ xs) = suc (length xs)

  abbrev pub get_elem? : List A → ℕ → Option A
  get_elem? [] i = none
  get_elem? (x ∷ xs) zero = some x
  get_elem? (x ∷ xs) (suc i) = get_elem? xs i

  abbrev pub take : ℕ → List A → List A
  take zero xs = []
  take (suc n) [] = []
  take (suc n) (x ∷ xs) = x ∷ take n xs

  abbrev pub drop : ℕ → List A → List A
  drop zero xs = xs
  drop (suc n) [] = []
  drop (suc n) (x ∷ xs) = drop n xs

  -- An append of one element at the end, as Go's `append(xs, x)`.
  infixl 65 ◌▹◌
  abbrev pub ◌▹◌ : List A → A → List A
  xs ▹ x = xs ++ x ∷ []

  abbrev pub concat : List (List A) → List A
  concat [] = []
  concat (xs ∷ rest) = xs ++ concat rest

  pub length-append : (xs ys : List A) → length (xs ++ ys) ≡ length xs + length ys
  length-append [] ys = omega arith
  length-append (x ∷ xs) ys = omega (arith, length-append xs ys)

  pub take-append-drop : (n : ℕ) (xs : List A) → take n xs ++ drop n xs ≡ xs
  take-append-drop zero xs = refl
  take-append-drop (suc n) [] = refl
  take-append-drop (suc n) (x ∷ xs) = rw (take-append-drop n xs)

  pub length-take : (n : ℕ) (xs : List A) → length (take n xs) ≡ min n (length xs)
  length-take zero xs = omega arith
  length-take (suc n) [] = omega arith
  length-take (suc n) (x ∷ xs) = omega (arith, length-take n xs)

  pub length-drop : (n : ℕ) (xs : List A) → length (drop n xs) ≡ length xs - n
  length-drop zero xs = omega arith
  length-drop (suc n) [] = omega arith
  length-drop (suc n) (x ∷ xs) = omega (arith, length-drop n xs)

  pub length-reverse : (xs : List A) → length (reverse xs) ≡ length xs
  length-reverse [] = refl
  length-reverse (x ∷ xs) =
      rw reverse-cons (omega (arith, length-append (reverse xs) (x ∷ []), length-reverse xs))

  pub take-front : (xs ys : List A) → take (length xs) (xs ++ ys) ≡ xs
  take-front [] ys = refl
  take-front (x ∷ xs) ys = ap (λ t. x ∷ t) (take-front xs ys)

  pub take-short : (k : ℕ) (xs : List A) → length xs ≤ k → take k xs ≡ xs
  take-short zero [] h = refl
  take-short (suc k) [] h = refl
  take-short zero (x ∷ xs) h = absurd (omega arith)
  take-short (suc k) (x ∷ xs) h = ap (λ t. x ∷ t) (take-short k xs (omega arith))

module _ {ℓ} {A : Type ℓ} where
  -- Every element satisfies `P`.
  abbrev pub All : (A → Type 0) → List A → Type 0
  All P [] = Unit
  All P (x ∷ xs) = P x × All P xs

  -- Some element satisfies `P`, with its place.
  abbrev pub Any : (A → Type 0) → List A → Type 0
  Any P [] = ⊥
  Any P (x ∷ xs) = P x ⊎ Any P xs

  pub All-append : (P : A → Type 0) (xs ys : List A) → All P xs → All P ys → All P (xs ++ ys)
  All-append P [] ys hx hy = hy
  All-append P (x ∷ xs) ys (h, hx) hy = (h, All-append P xs ys hx hy)

  pub All-append_left : (P : A → Type 0) (xs ys : List A) → All P (xs ++ ys) → All P xs
  All-append_left P [] ys h = tt
  All-append_left P (x ∷ xs) ys (h, hs) = (h, All-append_left P xs ys hs)

  pub All-append_right : (P : A → Type 0) (xs ys : List A) → All P (xs ++ ys) → All P ys
  All-append_right P [] ys h = h
  All-append_right P (x ∷ xs) ys (h, hs) = All-append_right P xs ys hs

  pub All_imp : {P Q : A → Type 0} → ((x : A) → P x → Q x) → (xs : List A) → All P xs → All Q xs
  All_imp f [] h = tt
  All_imp f (x ∷ xs) (h, hs) = (f x h, All_imp f xs hs)

  abbrev pub all : (A → Bool) → List A → Bool
  all p [] = true
  all p (x ∷ xs) = p x && all p xs

module _ {A : Type 0} where
  -- What holds of every element holds of one that is found.
  pub All-Any : (P : A → Type 0) {a : A} (xs : List A) → All P xs → Any (λ x. x ≡ a) xs → P a
  All-Any P [] h m = absurd m
  All-Any P (x ∷ xs) (h, hs) (inl e) = subst P e h
  All-Any P (x ∷ xs) (h, hs) (inr m) = All-Any P xs hs m

  -- Two facts about every element serve together.
  pub All_and :
      {P Q R : A → Type 0}
      → ((x : A) → P x → Q x → R x)
      → (xs : List A) → All P xs
      → All Q xs
      → All R xs
  All_and f [] h k = tt
  All_and f (x ∷ xs) (h, hs) (k, ks) = (f x h k, All_and f xs hs ks)

  -- `a` is an element.
  abbrev pub In : A → List A → Type 0
  In a xs = Any (λ x. x ≡ a) xs

  pub In-append_left : (a : A) (xs ys : List A) → In a xs → In a (xs ++ ys)
  In-append_left a [] ys h = absurd h
  In-append_left a (x ∷ xs) ys (inl e) = inl e
  In-append_left a (x ∷ xs) ys (inr m) = inr (In-append_left a xs ys m)

  pub In-append_right : (a : A) (xs ys : List A) → In a ys → In a (xs ++ ys)
  In-append_right a [] ys h = h
  In-append_right a (x ∷ xs) ys h = inr (In-append_right a xs ys h)

  pub In-append_cases : (a : A) (xs ys : List A) → In a (xs ++ ys) → In a xs ⊎ In a ys
  In-append_cases a [] ys h = inr h
  In-append_cases a (x ∷ xs) ys (inl e) = inl (inl e)
  In-append_cases a (x ∷ xs) ys (inr m) = elim (In-append_cases a xs ys m) [
    | inl front ↦ inl (inr front)
    | inr back ↦ inr back
  ]

  pub In-reverse : (a : A) (xs : List A) → In a xs → In a (reverse xs)
  In-reverse a [] h = absurd h
  In-reverse a (x ∷ xs) (inl e) = rw reverse-cons (In-append_right a (reverse xs) (x ∷ []) (inl e))
  In-reverse a (x ∷ xs) (inr m) =
      rw reverse-cons (In-append_left a (reverse xs) (x ∷ []) (In-reverse a xs m))

  pub In-reversed : (a : A) (xs : List A) → In a (reverse xs) → In a xs
  In-reversed a [] h = absurd h
  In-reversed a (x ∷ xs) h = elim (In-append_cases a (reverse xs) (x ∷ []) (rw reverse-cons at h)) [
    | inl front ↦ inr (In-reversed a xs front)
    | inr (inl e) ↦ inl e
    | inr (inr nothing) ↦ absurd nothing
  ]

  pub All-reverse : (P : A → Type 0) (xs : List A) → All P xs → All P (reverse xs)
  All-reverse P [] h = tt
  All-reverse P (x ∷ xs) (h, hs) =
      rw reverse-cons (All-append P (reverse xs) (x ∷ []) (All-reverse P xs hs) (h, tt))

  -- What every element of a list satisfies, by its place in the list.
  pub All-In : (P : A → Type 0) (xs : List A) → ((a : A) → In a xs → P a) → All P xs
  All-In P [] h = tt
  All-In P (x ∷ xs) h = (h x (inl refl), All-In P xs (λ a m. h a (inr m)))
