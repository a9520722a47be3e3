-- ===== src/Config/Loaded.antt =====
-- A configuration that loads is a validated one.
use replicron.Base.{◌≡◌, Text, List, All, inl, inr}
use replicron.Model.{ok, Result-cases}
use replicron.Config.{Task, Outside, validate, load}
use replicron.Config.Validated.{IsValid, NamesApart, validate-IsValid}

-- What `Load` gives is what `Validate` accepted.
pub load-validates :
    (out : Outside) (path : Text) (us : List Task)
    → load out path ≡ ok us
    → (given : List Task) × (validate out given ≡ ok us)
unfolding load
load-validates out path us h = elim (Result-cases (out.read_file path)) [
  | inr (x, e) ↦ absurd (cc (rw (e, load) at h))
  | inl (content, e) ↦ elim (Result-cases (out.parse_yaml content)) [
    | inr (x, f) ↦ absurd (cc (rw (f, load) at (rw (e, load) at h)))
    | inl (given, f) ↦ (given, rw (f, load) at (rw (e, load) at h))
  ]
]

-- A configuration that `Load` accepts is a validated one.
pub load-IsValid :
    (out : Outside) (path : Text) (ts : List Task)
    → load out path ≡ ok ts
    → All IsValid ts × NamesApart ts
load-IsValid out path ts h =
    let (given, accepted) = load-validates out path ts h in
    let (_, valid, apart, _) = validate-IsValid out given ts accepted in (valid, apart)
