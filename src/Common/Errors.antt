-- ===== src/Common/Errors.antt =====
-- Go's error values and results. An error made by `errors.New` or `fmt.Errorf` is its format text
-- with the arguments; `%w` keeps the error that is wrapped.
use Prim.Native.String.{String}
use mathlib.Core.Path.{◌≡◌, refl}
use mathlib.Core.Logic.{◌⊎◌, inl, inr}
use mathlib.Core.Bool.{Bool, true, false}
use mathlib.Core.Option.{Option, none, some}
use mathlib.Core.List.{List}

-- services/domain/errors.go
pub data Sentinel : Type 0 where
  err_invalid_input err_forbidden err_already_exists err_not_found : Sentinel

-- The reason of a Kubernetes status error, as far as the code asks for it.
pub data Reason : Type 0 where
  already_exists not_found conflict other_reason : Reason

pub data Error : Type 0 where
  sentinel : Sentinel → Error
  status : Reason → Error
  errorf : String → List String → Error
  wrapf : String → List String → Error → Error

-- What a Go function with an error result returns
pub data Result {ℓ} (A : Type ℓ) : Type ℓ where
  ok : A → Result A
  err : Error → Result A

-- A test that returns early with an error
abbrev pub guard : Bool → Error → Result (Unit {0})
guard true e = ok tt
guard false e = err e

-- `if err != nil { return …, err }` between two steps
infixl 5 ◌>>=◌
abbrev pub ◌>>=◌ {ℓ κ} : {A : Type ℓ} {B : Type κ} → Result A → (A → Result B) → Result B
err e >>= next = err e
ok x >>= next = next x

infixl 5 ◌>>◌
abbrev pub ◌>>◌ {ℓ κ} : {A : Type ℓ} {B : Type κ} → Result A → Result B → Result B
first >> second = first >>= λ _. second

-- `fmt.Errorf("…: %w", err)` around the error of a call
abbrev pub wrapping {ℓ} : {A : Type ℓ} → String → List String → Result A → Result A
wrapping format args (ok a) = ok a
wrapping format args (err e) = err (wrapf format args e)

abbrev same_sentinel : Sentinel → Sentinel → Bool
same_sentinel err_invalid_input err_invalid_input = true
same_sentinel err_forbidden err_forbidden = true
same_sentinel err_already_exists err_already_exists = true
same_sentinel err_not_found err_not_found = true
same_sentinel _ _ = false

-- `errors.Is`, which looks through what `%w` wraps
abbrev pub is : Error → Sentinel → Bool
is (sentinel t) s = same_sentinel t s
is (status r) s = false
is (errorf format args) s = false
is (wrapf format args e) s = is e s

-- `apierrors.ReasonForError`, which looks through what `%w` wraps
abbrev pub reason_for_error : Error → Option Reason
reason_for_error (sentinel t) = none
reason_for_error (status r) = some r
reason_for_error (errorf format args) = none
reason_for_error (wrapf format args e) = reason_for_error e

abbrev pub is_already_exists : Error → Bool
is_already_exists e = elim (reason_for_error e) [ some already_exists ↦ true | _ ↦ false ]

abbrev pub is_not_found : Error → Bool
is_not_found e = elim (reason_for_error e) [ some not_found ↦ true | _ ↦ false ]

-- What a successful or a failed chain says of its first step.
module _ {ℓ κ} {A : Type ℓ} {B : Type κ} where
  pub >>=-eq-ok :
      (first : Result A) (next : A → Result B) {last : B}
      → (first >>= next) ≡ ok last
      → (x : A) × (first ≡ ok x) × (next x ≡ ok last)
  >>=-eq-ok (err e) next done = cc
  >>=-eq-ok (ok x) next done = (x, refl, done)

pub Result-cases {ℓ} :
    {A : Type ℓ} (r : Result A) → ((a : A) × (r ≡ ok a)) ⊎ ((e : Error) × (r ≡ err e))
Result-cases (ok a) = inl (a, refl)
Result-cases (err e) = inr (e, refl)
