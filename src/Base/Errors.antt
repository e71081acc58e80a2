-- ===== src/Base/Errors.antt =====
-- A Python call that may raise: a value or an exception, chained by `do`.
use mathlib.Core.Path.{◌≡◌, refl}
use mathlib.Core.Bool.{Bool, true, false, not}
use Prim.Native.String.{String}

pub data Result {ℓ κ} (E : Type ℓ) (A : Type κ) : Type (ℓ ⊔ κ) where
  ok : A → Result E A
  err : E → Result E A

-- `ok` at a stated type of exceptions.
abbrev pub ok_of {κ} : {A : Type κ} (E : Type 0) → A → Result E A
ok_of E a = ok a

-- The exceptions of the standard library that the modelled code raises, with their texts.
pub data Exception : Type 0 where
  value_error type_error : String → Exception
  assertion_error : Exception

-- `do` runs the second call on the value of the first; an exception ends the chain.
infixl 5 ◌>>=◌ ◌>>◌
abbrev pub ◌>>=◌ {ℓ κ} :
    {E : Type 0} {V : Type ℓ} {W : Type κ} (call : Result E V) (next : V → Result E W) → Result E W
err raised >>= next = err raised
ok value >>= next = next value

abbrev pub ◌>>◌ {ℓ κ} :
    {E : Type 0} {V : Type ℓ} {W : Type κ} (call : Result E V) (next : Result E W) → Result E W
call >> next = call >>= (λ _. next)

-- `if b: raise e`
abbrev pub raise_if : {E : Type 0} → Bool → E → Result E (Unit {0})
raise_if test raised = elim test [ true ↦ err raised | false ↦ ok tt ]

-- Inversion of a chain that returns.
pub >>=-eq-ok {ℓ κ} :
    {E : Type 0} {V : Type ℓ} {W : Type κ} (call : Result E V) (next : V → Result E W) {w : W}
    → (call >>= next) ≡ ok w
    → (value : V) × (call ≡ ok value) × (next value ≡ ok w)
>>=-eq-ok (err raised) next returned = cc
>>=-eq-ok (ok value) next returned = (value, refl, returned)

-- What follows from the rest of a chain, whatever the value it runs on, follows from the chain.
pub >>=-ok-rest {ℓ κ μ} :
    {E : Type 0} {V : Type ℓ} {W : Type κ} {P : Type μ} (call : Result E V) (next : V → Result E W)
    {w : W}
    → ((value : V) → next value ≡ ok w → P)
    → (call >>= next) ≡ ok w
    → P
>>=-ok-rest (err raised) next rest returned = cc
>>=-ok-rest (ok value) next rest returned = rest value returned

-- Inversion of a chain that begins with a test.
pub raise_if-eq-ok {κ} :
    {E : Type 0} {W : Type κ} (test : Bool) (raised : E) (next : Result E W) {w : W}
    → (raise_if test raised >> next) ≡ ok w
    → (test ≡ false) × (next ≡ ok w)
raise_if-eq-ok true raised next returned = cc
raise_if-eq-ok false raised next returned = (refl, returned)

pub not-eq-false : (test : Bool) → not test ≡ false → test ≡ true
not-eq-false true returned = refl
not-eq-false false returned = cc

pub ok_inj {κ} : {E : Type 0} {A : Type κ} {a b : A} → ok_of E a ≡ ok_of E b → a ≡ b
ok_inj h = cc
