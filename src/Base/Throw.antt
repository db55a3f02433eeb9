-- ===== src/Base/Throw.antt =====
-- keys.h: `Require` throws `std::invalid_argument` with a fixed message. Code that may throw
-- returns a result whose error is that message.
use Prim.Native.String.{String}
use mathlib.Core.Path.{◌≡◌, refl, ap, ◌∙◌, subst}
use mathlib.Core.Bool.{Bool, true, false}
use mathlib.Core.Logic.{◌⊎◌, inl, inr}
use thunderden.Base.Tests.{if◌then◌else◌}
use mathlib.Core.Option.{Option, none, some}

-- `err` holds the message that was thrown.
pub data Result {κ} (V : Type κ) : Type κ where
  err : String → Result V
  ok : V → Result V

infixl 5 ◌>>=◌ ◌>>◌
-- What follows runs on the value, unless the first part threw.
abbrev pub ◌>>=◌ {ι κ} : {V : Type ι} {W : Type κ} → Result V → (V → Result W) → Result W
err message >>= next = err message
ok value >>= next = next value

abbrev pub ◌>>◌ {ℓ} : {B : Type ℓ} → Result (Unit {0}) → Result B → Result B
ok u >> k = k
err e >> k = err e

abbrev pub require : Bool → String → Result (Unit {0})
require true message = ok tt
require false message = err message

-- The value of an optional library result, or the message of the `Require` on it.
abbrev pub or_throw {ℓ} : {A : Type ℓ} → Option A → String → Result A
or_throw none message = err message
or_throw (some a) message = ok a

abbrev pub is_ok {ℓ} : {A : Type ℓ} → Result A → Bool
is_ok (ok a) = true
is_ok (err e) = false

pub Result-cases {ℓ} :
    {A : Type ℓ} (r : Result A) → ((a : A) × (r ≡ ok a)) ⊎ ((e : String) × (r ≡ err e))
Result-cases (ok a) = inl (a, refl)
Result-cases (err e) = inr (e, refl)

pub ok-injective {ℓ} : {A : Type ℓ} (a b : A) → ◌≡◌ {A = Result A} (ok a) (ok b) → a ≡ b
ok-injective a b e = cc

-- Inversion of a successful bind, and of a passed guard.
pub >>=-eq-ok {ι κ} :
    {V : Type ι} {W : Type κ} (m : Result V) (next : V → Result W) {w : W}
    → (m >>= next) ≡ ok w
    → (v : V) × (m ≡ ok v) × (next v ≡ ok w)
>>=-eq-ok (err message) next e = cc
>>=-eq-ok (ok v) next e = (v, refl, e)

pub >>-eq-ok {ℓ} :
    {B : Type ℓ} (m : Result (Unit {0})) (k : Result B) {b : B}
    → (m >> k) ≡ ok b
    → (m ≡ ok tt) × (k ≡ ok b)
>>-eq-ok (ok u) k e = (refl, e)
>>-eq-ok (err x) k e = cc

pub require-eq-ok {ℓ} :
    {B : Type ℓ} (c : Bool) (message : String) (k : Result B) {b : B}
    → (require c message >> k) ≡ ok b
    → (c ≡ true) × (k ≡ ok b)
require-eq-ok true message k h = (refl, h)
require-eq-ok false message k h = cc

pub or_throw-eq-ok {ℓ} :
    {A : Type ℓ} (o : Option A) (message : String) (a : A) → or_throw o message ≡ ok a → o ≡ some a
or_throw-eq-ok none message a e = cc
or_throw-eq-ok (some v) message a e = cc

-- A postcondition of code that may throw: it speaks of a value that is returned.
pub data Ensures {ℓ κ} {A : Type ℓ} (P : A → Type κ) : Result A → Type (ℓ ⊔ κ) where
  returns : {a : A} → P a → Ensures P (ok a)
  throws : {e : String} → Ensures P (err e)

pub Ensures-bind {ℓ κ ι} :
    {A : Type ℓ} {B : Type κ} {P : B → Type ι} (m : Result A) {f : A → Result B}
    → ((a : A) → m ≡ ok a → Ensures P (f a))
    → Ensures P (m >>= f)
Ensures-bind (ok a) h = h a refl
Ensures-bind (err e) h = throws

pub Ensures-require {ℓ κ} :
    {A : Type ℓ} {P : A → Type κ} (c : Bool) (message : String) {k : Result A}
    → (c ≡ true → Ensures P k)
    → Ensures P (require c message >> k)
Ensures-require true message h = h refl
Ensures-require false message h = throws

pub Ensures-then {ℓ κ} :
    {A : Type ℓ} {P : A → Type κ} (m : Result (Unit {0})) {k : Result A}
    → Ensures P k
    → Ensures P (m >> k)
Ensures-then (ok u) h = h
Ensures-then (err e) h = throws

pub Ensures-if {ℓ κ} :
    {A : Type ℓ} {P : A → Type κ} (c : Bool) {t e : Result A}
    → (c ≡ true → Ensures P t)
    → (c ≡ false → Ensures P e)
    → Ensures P (if c then t else e)
Ensures-if true h k = h refl
Ensures-if false h k = k refl

pub Ensures-value {ℓ κ} :
    {A : Type ℓ} {P : A → Type κ} {r : Result A} → Ensures P r → (a : A) → r ≡ ok a → P a
Ensures-value {P = P} (returns {a = b} h) a e = subst P (ok-injective b a e) h
  where
    ok-injective : {A : Type ℓ} (b a : A) → ◌≡◌ {A = Result A} (ok b) (ok a) → b ≡ a
    ok-injective b a e = cc
Ensures-value throws a e = cc

-- Two statements, the first with no value; and a guard that stands last.
pub Ensures-seq {ℓ κ} :
    {A : Type ℓ} {P : A → Type κ} (m : Result (Unit {0})) {k : Result A}
    → (m ≡ ok tt → Ensures P k)
    → Ensures P (m >> k)
Ensures-seq (ok u) h = h refl
Ensures-seq (err e) h = throws

pub Ensures-last {κ} :
    {P : Unit {0} → Type κ} (c : Bool) (message : String)
    → (c ≡ true → P tt)
    → Ensures P (require c message)
Ensures-last true message h = returns {a = tt} (h refl)
Ensures-last false message h = throws

-- A weaker postcondition.
pub Ensures-weaken {ℓ κ ι} :
    {A : Type ℓ} {P : A → Type κ} {Q : A → Type ι} {r : Result A}
    → ((a : A) → P a → Q a)
    → Ensures P r
    → Ensures Q r
Ensures-weaken f (returns {a = a} h) = returns (f a h)
Ensures-weaken f throws = throws

-- The code itself, with what is known of the values it returns.
pub Ensures-self {ℓ κ} :
    {A : Type ℓ} {P : A → Type κ} (r : Result A) → ((a : A) → r ≡ ok a → P a) → Ensures P r
Ensures-self (ok a) f = returns (f a refl)
Ensures-self (err e) f = throws

-- A step that returns, and a guard that is passed.
pub bind-ok {ι κ} :
    {V : Type ι} {W : Type κ} (m : Result V) (next : V → Result W) {v : V} {w : Result W}
    → m ≡ ok v
    → next v ≡ w
    → (m >>= next) ≡ w
bind-ok (ok u) next {v = v} e f = ap next (ok-injective u v e) ∙ f
bind-ok (err x) next e f = cc

pub require-ok {ℓ} :
    {A : Type ℓ} (c : Bool) (message : String) {k w : Result A}
    → c ≡ true
    → k ≡ w
    → (require c message >> k) ≡ w
require-ok true message e f = f
require-ok false message e f = cc
