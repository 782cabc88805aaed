-- ===== src/Common/Outcome.antt =====
-- `tsedge_status` (include/tsedge.h): a function returns TSEDGE_OK with its output, or an error.
use mathlib.Core.Path.{◌≡◌, refl}
use mathlib.Core.Option.{Option, some}
use mathlib.Core.Bool.{Bool, true, false}
use mathlib.Core.Logic.{◌⊎◌, inl, inr}

pub data Error : Type 0 where
  invalid_argument io no_memory not_found corrupt internal quota_exceeded : Error

-- What a call leaves: its status, and the output that it writes if the status is TSEDGE_OK.
pub data Result {ℓ} (Output : Type ℓ) : Type ℓ where
  ok : Output → Result Output
  err : Error → Result Output

infixl 5 ◌>>◌
module _ {ℓ κ} {Output : Type ℓ} {Next : Type κ} where
  infixl 5 ◌>>=◌
  -- `if (rc != TSEDGE_OK) return rc;` between two calls.
  abbrev pub ◌>>=◌ : Result Output → (Output → Result Next) → Result Next
  err rc >>= next = err rc
  ok output >>= next = next output

  -- What a call that succeeds has been through.
  pub >>=-eq-ok :
      (call : Result Output) (next : Output → Result Next) {final : Next}
      → (call >>= next) ≡ ok final
      → (output : Output) × (call ≡ ok output) × (next output ≡ ok final)
  >>=-eq-ok (err rc) next e = cc
  >>=-eq-ok (ok output) next e = (output, refl, e)

-- The same where the first call has no output.
abbrev pub ◌>>◌ {ℓ} : {Next : Type ℓ} → Result (Unit {0}) → Result Next → Result Next
check >> next = check >>= λ done. next

-- `if (c) return e;`
abbrev pub fail_if : Bool → Error → Result (Unit {0})
fail_if true e = err e
fail_if false e = ok tt

pub Result-cases {ℓ} :
    {A : Type ℓ} (r : Result A) → ((a : A) × (r ≡ ok a)) ⊎ ((e : Error) × (r ≡ err e))
Result-cases (ok a) = inl (a, refl)
Result-cases (err e) = inr (e, refl)

pub fail_if-eq-ok {ℓ} :
    {B : Type ℓ} (c : Bool) (x : Error) (m : Result B) {b : B}
    → (fail_if c x >> m) ≡ ok b
    → (c ≡ false) × (m ≡ ok b)
fail_if-eq-ok true x m h = cc
fail_if-eq-ok false x m h = (refl, h)

pub ok-injective {ℓ} : {A : Type ℓ} {a b : A} → ok a ≡ ok b → a ≡ b
ok-injective h = cc

pub ok-pair_injective {ℓ κ} :
    {A : Type ℓ} {B : Type κ} (a c : A) (b d : B)
    → ◌≡◌ {A = Result (A × B)} (ok (a, b)) (ok (c, d))
    → (a ≡ c) × (b ≡ d)
ok-pair_injective a c b d h = (cc, cc)

pub ok-some-pair_injective {ℓ κ} :
    {A : Type ℓ} {B : Type κ} (a c : A) (b d : B)
    → ◌≡◌ {A = Result (Option (A × B))} (ok (some (a, b))) (ok (some (c, d)))
    → (a ≡ c) × (b ≡ d)
ok-some-pair_injective a c b d h = (cc, cc)

-- A call behind which nothing happens.
pub >>=-ok {ℓ} : {Output : Type ℓ} (call : Result Output) → (call >>= λ output. ok output) ≡ call
>>=-ok (ok output) = refl
>>=-ok (err rc) = refl
