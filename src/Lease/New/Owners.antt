-- ===== src/Lease/New/Owners.antt =====
-- Two instances with different random bytes have different owner names, whatever their hosts and processes.
use replicron.Base.{
  ℕ, suc, ◌+◌, ◌/◌, ◌%◌, ◌<◌, ◌≡◌, ◌≢◌, refl, sym, ap, ◌∙◌, Text, List, [], ◌∷◌, ◌++◌, length,
  length-append, All, arith,
}
use mathlib.Core.Path.{ap₂}
use replicron.Model.{ok}
use replicron.Lease.{Lease}
use replicron.Lease.New.{Machine, hex_digit, hex_encode, owner_name, step, migrated, new}

head_of : List ℕ → ℕ
head_of [] = 0
head_of (x ∷ xs) = x

-- Equal texts with ends of one length have equal ends.
append-eq_end : (xs ys a b : List ℕ) → length a ≡ length b → xs ++ a ≡ ys ++ b → a ≡ b
append-eq_end [] [] a b h e = e
append-eq_end (x ∷ xs) (y ∷ ys) a b h e = append-eq_end xs ys a b h (cc e)
append-eq_end [] (y ∷ ys) a b h e =
    let size : length a ≡ suc (length (ys ++ b)) = ap length e in
    absurd (omega (arith, length-append ys b))
append-eq_end (x ∷ xs) [] a b h e =
    let size : suc (length (xs ++ a)) ≡ length b = ap length e in
    absurd (omega (arith, length-append xs a))

hex_digit-injective : (m n : ℕ) → m < 16 → n < 16 → hex_digit m ≡ hex_digit n → m ≡ n
unfolding hex_digit
hex_digit-injective m n h k e = ground arith

length-hex_encode : (bs : List ℕ) → length (hex_encode bs) ≡ length bs + length bs
unfolding hex_encode
length-hex_encode [] = refl
length-hex_encode (b ∷ bs) = omega (arith, length-hex_encode bs)

abbrev pub AreBytes : List ℕ → Type 0
AreBytes bs = All (λ b. b < 256) bs

byte-injective :
    (b c : ℕ)
    → b < 256
    → c < 256
    → hex_digit (b / 16) ≡ hex_digit (c / 16)
    → hex_digit (b % 16) ≡ hex_digit (c % 16)
    → b ≡ c
byte-injective b c h k high low =
    let top = hex_digit-injective (b / 16) (c / 16) (omega arith) (omega arith) high in
    let bottom = hex_digit-injective (b % 16) (c % 16) (omega arith) (omega arith) low in
    omega arith

hex_encode-injective :
    (bs cs : List ℕ) → AreBytes bs → AreBytes cs → hex_encode bs ≡ hex_encode cs → bs ≡ cs
unfolding hex_encode
hex_encode-injective [] [] h k e = refl
hex_encode-injective [] (c ∷ cs) h k e = absurd (cc e)
hex_encode-injective (b ∷ bs) [] h k e = absurd (cc e)
hex_encode-injective (b ∷ bs) (c ∷ cs) (h, hs) (k, ks) e =
    ap₂ ◌∷◌ (byte-injective b c h k (cc e) (cc e)) (hex_encode-injective bs cs hs ks (cc e))

owner_name-injective :
    (host host' : Text) (pid pid' : ℕ) (bs cs : List ℕ)
    → AreBytes bs
    → AreBytes cs
    → length bs ≡ length cs
    → owner_name host pid bs ≡ owner_name host' pid' cs
    → bs ≡ cs
unfolding owner_name
owner_name-injective host host' pid pid' bs cs h k same e = hex_encode-injective bs cs h k (
    append-eq_end _ _ (hex_encode bs) (hex_encode cs)
      (omega (arith, length-hex_encode bs, length-hex_encode cs)) e)

new-owner :
    (m : Machine) (path : Text) (ttl : ℕ) (bytes : List ℕ) (l : Lease)
    → m.random ≡ ok bytes
    → new m path ttl ≡ ok l
    → l.owner ≡ owner_name m.hostname m.pid bytes
unfolding new step migrated
new-owner m path ttl bytes l h e = ground arith

-- Two instances that `New` makes have different owner names where they drew different random bytes, as many,
-- whatever their hosts, process ids, files and TTLs; so neither takes the other's leases for its own.
pub new-owner_ne :
    (m m' : Machine) (path path' : Text) (ttl ttl' : ℕ) (bs cs : List ℕ) (l l' : Lease)
    → m.random ≡ ok bs
    → m'.random ≡ ok cs
    → AreBytes bs
    → AreBytes cs
    → length bs ≡ length cs
    → bs ≢ cs
    → new m path ttl ≡ ok l
    → new m' path' ttl' ≡ ok l'
    → l.owner ≢ l'.owner
new-owner_ne m m' path path' ttl ttl' bs cs l l' r r' h k same apart made made' e = apart (
    owner_name-injective m.hostname m'.hostname m.pid m'.pid bs cs h k same
      (sym (new-owner m path ttl bs l r made) ∙ e ∙ new-owner m' path' ttl' cs l' r' made'))
