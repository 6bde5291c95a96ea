-- ===== src/Prelude/Results.antt =====
-- Operations that raise: an exception is a value of the operation's own error type.
use mathlib.Core.Path.{◌≡◌, refl, subst}
use mathlib.Core.Bool.{Bool, true, false}
use world_of_seeds.Prelude.Tests.{if◌then◌else◌}

pub data Result {ℓ} (E : Type 0) (A : Type ℓ) : Type ℓ where
  ok : A → Result E A
  err : E → Result E A

infixl 5 ◌>>=◌ ◌>>◌
abbrev pub ◌>>=◌ {ℓ κ} :
    {E : Type 0} {A : Type ℓ} {B : Type κ} → Result E A → (A → Result E B) → Result E B
ok value >>= next = next value
err raised >>= next = err raised

abbrev pub ◌>>◌ {ℓ} : {E : Type 0} {B : Type ℓ} → Result E (Unit {0}) → Result E B → Result E B
check >> rest = check >>= λ _. rest

-- `if not test: raise error`
abbrev pub guard : {E : Type 0} → Bool → E → Result E (Unit {0})
guard true error = ok tt
guard false error = err error

-- What a successful result satisfies.
abbrev pub OnOk {ℓ κ} : {E : Type 0} {A : Type ℓ} → (A → Type κ) → Result E A → Type κ
OnOk P (ok a) = P a
OnOk P (err e) = Unit

-- The call succeeds, and its result satisfies `P`.
abbrev pub Returns {ℓ} : {E : Type 0} {A : Type ℓ} → (A → Type 0) → Result E A → Type 0
Returns P (ok a) = P a
Returns P (err e) = ⊥

pub Returns-bind {ℓ ℓ'} :
    {E : Type 0} {A : Type ℓ} {B : Type ℓ'} (P : A → Type 0) (Q : B → Type 0) (m : Result E A)
    (f : A → Result E B)
    → Returns P m
    → ((a : A) → P a → Returns Q (f a))
    → Returns Q (m >>= f)
Returns-bind P Q (ok a) f h k = k a h
Returns-bind P Q (err e) f h k = absurd h

pub Returns-if {ℓ} :
    {E : Type 0} {A : Type ℓ} (P : A → Type 0) (b : Bool) (r s : Result E A)
    → Returns P r
    → Returns P s
    → Returns P (if b then r else s)
Returns-if P true r s hr hs = hr
Returns-if P false r s hr hs = hs

pub OnOk-if {ℓ κ} :
    {E : Type 0} {A : Type ℓ} (P : A → Type κ) (b : Bool) (r s : Result E A)
    → (b ≡ true → OnOk P r)
    → (b ≡ false → OnOk P s)
    → OnOk P (if b then r else s)
OnOk-if P true r s hr hs = hr refl
OnOk-if P false r s hr hs = hs refl

pub OnOk-bind {ℓ κ ℓ' κ'} :
    {E : Type 0} {A : Type ℓ} {B : Type ℓ'} (P : A → Type κ) (Q : B → Type κ') (m : Result E A)
    (f : A → Result E B)
    → OnOk P m
    → ((a : A) → P a → OnOk Q (f a))
    → OnOk Q (m >>= f)
OnOk-bind P Q (ok a) f h k = k a h
OnOk-bind P Q (err e) f h k = tt

pub Returns→OnOk {ℓ} :
    {E : Type 0} {A : Type ℓ} (P : A → Type 0) (r : Result E A) → Returns P r → OnOk P r
Returns→OnOk P (ok a) h = h
Returns→OnOk P (err e) h = tt

pub OnOk_at {ℓ κ} :
    {E : Type 0} {A : Type ℓ} (P : A → Type κ) (r : Result E A) {a : A} → OnOk P r → r ≡ ok a → P a
OnOk_at P (ok b) h e = let same : b ≡ _ = cc in subst P same h
OnOk_at P (err x) h e = cc

pub Returns_at {ℓ} :
    {E : Type 0} {A : Type ℓ} (P : A → Type 0) (r : Result E A) {a : A}
    → Returns P r
    → r ≡ ok a
    → P a
Returns_at P r h e = OnOk_at P r (Returns→OnOk P r h) e

pub Returns-imp {ℓ} :
    {E : Type 0} {A : Type ℓ} (P Q : A → Type 0) (r : Result E A)
    → ((a : A) → P a → Q a)
    → Returns P r
    → Returns Q r
Returns-imp P Q (ok a) f h = f a h
Returns-imp P Q (err e) f h = h

-- The parts of a call that succeeds.
pub >>=-eq-ok {ℓ κ} :
    {E : Type 0} {A : Type ℓ} {B : Type κ} (m : Result E A) (next : A → Result E B) {result : B}
    → (m >>= next) ≡ ok result
    → (value : A) × (m ≡ ok value) × (next value ≡ ok result)
>>=-eq-ok (ok value) next same = (value, refl, same)
>>=-eq-ok (err raised) next same = cc

-- What an error satisfies.
abbrev pub OnErr {ℓ κ} : {E : Type 0} {A : Type ℓ} → (E → Type κ) → Result E A → Type κ
OnErr P (ok a) = Unit
OnErr P (err e) = P e

pub OnErr-bind {ℓ κ ℓ'} :
    {E : Type 0} {A : Type ℓ} {B : Type ℓ'} (P : E → Type κ) (m : Result E A) (f : A → Result E B)
    → OnErr P m
    → ((a : A) → m ≡ ok a → OnErr P (f a))
    → OnErr P (m >>= f)
OnErr-bind P (ok a) f h k = k a refl
OnErr-bind P (err e) f h k = h

pub OnErr-guard {ℓ κ} :
    {E : Type 0} {A : Type ℓ} (P : E → Type κ) (b : Bool) (e : E) (m : Result E A)
    → P e
    → OnErr P m
    → OnErr P (guard b e >> m)
OnErr-guard P true e m h k = k
OnErr-guard P false e m h k = h

pub Returns→OnErr {ℓ κ} :
    {E : Type 0} {A : Type ℓ} (P : A → Type 0) (Q : E → Type κ) (r : Result E A)
    → Returns P r
    → OnErr Q r
Returns→OnErr P Q (ok a) h = tt
Returns→OnErr P Q (err e) h = absurd h

-- What follows a check holds where the check has passed.
pub OnOk-check {ℓ κ} :
    {E : Type 0} {A : Type ℓ} (P : A → Type κ) (m : Result E (Unit {0})) (k : Result E A)
    → (m ≡ ok tt → OnOk P k)
    → OnOk P (m >> k)
OnOk-check P (ok tt) k h = h refl
OnOk-check P (err e) k h = tt

pub OnOk-imp {ℓ κ μ} :
    {E : Type 0} {A : Type ℓ} (P : A → Type κ) (Q : A → Type μ) (r : Result E A)
    → ((a : A) → P a → Q a)
    → OnOk P r
    → OnOk Q r
OnOk-imp P Q (ok a) f h = f a h
OnOk-imp P Q (err e) f h = tt

pub OnOk-always {ℓ} : {E : Type 0} {A : Type ℓ} (r : Result E A) → OnOk (λ a. Unit {0}) r
OnOk-always (ok a) = tt
OnOk-always (err e) = tt

pub OnOk-guard {ℓ κ} :
    {E : Type 0} {A : Type ℓ} (P : A → Type κ) (b : Bool) (e : E) (m : Result E A)
    → (b ≡ true → OnOk P m)
    → OnOk P (guard b e >> m)
OnOk-guard P true e m h = h refl
OnOk-guard P false e m h = tt

pub OnErr-if {ℓ κ} :
    {E : Type 0} {A : Type ℓ} (P : E → Type κ) (b : Bool) (r s : Result E A)
    → OnErr P r
    → OnErr P s
    → OnErr P (if b then r else s)
OnErr-if P true r s hr hs = hr
OnErr-if P false r s hr hs = hs

pub OnErr-map {ℓ κ ℓ'} :
    {E : Type 0} {A : Type ℓ} {B : Type ℓ'} (P : E → Type κ) (m : Result E A) (f : A → B)
    → OnErr P m
    → OnErr P (m >>= λ a. ok (f a))
OnErr-map P (ok a) f h = tt
OnErr-map P (err e) f h = h
