-- ===== src/Prelude/Tests.antt =====
-- Boolean tests on the native numbers, the conditional, and the fault monad.
use Prim.Native.Nat.{ℕ, ◌≤◌, ◌<◌, compare, Ordering}
use mathlib.Core.Path.{◌≡◌, refl, subst}
use mathlib.Core.Logic.{◌↔◌, ◌⊎◌, inl, inr}
use mathlib.Core.Bool.{Bool, true, false}
use mathlib.Core.Option.{Option, none, some}
use native.Mathlib.Omega.{arith}

abbrev pub ltb : ℕ → ℕ → Bool
ltb a b = elim (compare a b) [ Ordering.lt ↦ true | _ ↦ false ]

abbrev pub leb : ℕ → ℕ → Bool
leb a b = elim (compare a b) [ Ordering.gt ↦ false | _ ↦ true ]

infix 50 ◌==◌
abbrev pub ◌==◌ : ℕ → ℕ → Bool
a == b = elim (compare a b) [ Ordering.eq ↦ true | _ ↦ false ]

infix 1 if◌then◌else◌
abbrev pub if◌then◌else◌ {ℓ} : {A : Type ℓ} → Bool → A → A → A
if true then x else y = x
if false then x else y = y

-- Equality of two `bool` values.
abbrev pub beq : Bool → Bool → Bool
beq true b = b
beq false true = false
beq false false = true

pub ltb→lt : (a b : ℕ) → ltb a b ≡ true → a < b
ltb→lt a b h = ground arith

pub lt→ltb : (a b : ℕ) → a < b → ltb a b ≡ true
lt→ltb a b h = ground arith

pub le→not-ltb : (a b : ℕ) → b ≤ a → ltb a b ≡ false
le→not-ltb a b h = ground arith

pub ==_iff : (a b : ℕ) → ((a == b) ≡ true) ↔ (a ≡ b)
==_iff a b = ground arith

pub Bool-cases : (b : Bool) → (b ≡ true) ⊎ (b ≡ false)
Bool-cases true = inl refl
Bool-cases false = inr refl

pub Option-cases {ℓ} : {A : Type ℓ} (o : Option A) → (o ≡ none) ⊎ ((a : A) × (o ≡ some a))
Option-cases none = inl refl
Option-cases (some a) = inr (a, refl)

-- `none` is a fault: a failed assertion, a `.at` out of range or a division by zero.
infixl 5 ◌>>=◌ ◌>>◌
abbrev pub ◌>>=◌ {ℓ κ} : {A : Type ℓ} {B : Type κ} → Option A → (A → Option B) → Option B
none >>= f = none
some a >>= f = f a

abbrev pub ◌>>◌ {ℓ} : {B : Type ℓ} → Option (Unit {0}) → Option B → Option B
m >> k = m >>= λ _. k

-- `assert(b)`
abbrev pub assert : Bool → Option (Unit {0})
assert true = some tt
assert false = none

-- The code ends without a fault, in a result with the property.
abbrev pub Returns {ℓ} : {A : Type ℓ} → Option A → (A → Type 0) → Type 0
Returns none P = ⊥
Returns (some a) P = P a

pub Returns-bind {ℓ κ} :
    {A : Type ℓ} {B : Type κ} (P : A → Type 0) (Q : B → Type 0) (m : Option A) (f : A → Option B)
    → Returns m P
    → ((a : A) → P a → Returns (f a) Q)
    → Returns (m >>= f) Q
Returns-bind P Q none f h k = absurd h
Returns-bind P Q (some a) f h k = k a h

pub Returns-map {ℓ} :
    {A : Type ℓ} (P Q : A → Type 0) (m : Option A)
    → Returns m P
    → ((a : A) → P a → Q a)
    → Returns m Q
Returns-map P Q none h k = absurd h
Returns-map P Q (some a) h k = k a h

pub Returns-if {ℓ} :
    {A : Type ℓ} (P : A → Type 0) (b : Bool) (m n : Option A)
    → Returns m P
    → Returns n P
    → Returns (if b then m else n) P
Returns-if P true m n h k = h
Returns-if P false m n h k = k

-- Whatever the code returns has the property; it may fault.
abbrev pub Ensures {ℓ} : {A : Type ℓ} → Option A → (A → Type 0) → Type 0
Ensures none P = Unit
Ensures (some a) P = P a

pub Ensures-then {ℓ} :
    {B : Type ℓ} (Q : B → Type 0) (b : Bool) (m : Option B)
    → (b ≡ true → Ensures m Q)
    → Ensures (assert b >> m) Q
Ensures-then Q true m k = k refl
Ensures-then Q false m k = tt

pub Ensures-bind {ℓ κ} :
    {A : Type ℓ} {B : Type κ} (Q : B → Type 0) (m : Option A) (f : A → Option B)
    → ((a : A) → m ≡ some a → Ensures (f a) Q)
    → Ensures (m >>= f) Q
Ensures-bind Q none f k = tt
Ensures-bind Q (some a) f k = k a refl

pub Ensures-all {ℓ} :
    {A : Type ℓ} {Q : A → Type 0} (m : Option A) → ((a : A) → m ≡ some a → Q a) → Ensures m Q
Ensures-all none k = tt
Ensures-all (some a) k = k a refl

-- Of two ways to go on, the test takes one.
pub Ensures-if {ℓ} :
    {B : Type ℓ} (Q : B → Type 0) (b : Bool) (m n : Option B)
    → (b ≡ true → Ensures m Q)
    → (b ≡ false → Ensures n Q)
    → Ensures (if b then m else n) Q
Ensures-if Q true m n h k = h refl
Ensures-if Q false m n h k = k refl

-- What holds of a result that is at hand.
pub Ensures-elim {ℓ} :
    {A : Type ℓ} (P : A → Type 0) (m : Option A) (a : A) → Ensures m P → m ≡ some a → P a
Ensures-elim P none a h e = cc
Ensures-elim P (some b) a h e = subst P (cc) h

-- The result of code that ends without a fault.
pub Returns-elim {ℓ} :
    {A : Type ℓ} (P : A → Type 0) (m : Option A) → Returns m P → (a : A) × (m ≡ some a) × P a
Returns-elim P none h = absurd h
Returns-elim P (some a) h = (a, refl, h)

-- What a sequence of two steps returns, the second returns from the first's result.
pub >>=-eq-some {ℓ κ} :
    {A : Type ℓ} {B : Type κ} (m : Option A) (f : A → Option B) {b : B}
    → (m >>= f) ≡ some b
    → (a : A) × (m ≡ some a) × (f a ≡ some b)
>>=-eq-some none f h = cc
>>=-eq-some (some a) f h = (a, refl, h)

-- What a choice returns, one of the two sides returns.
pub if-eq-some {ℓ} :
    {A : Type ℓ} (b : Bool) (m n : Option A) {a : A}
    → (if b then m else n) ≡ some a
    → (m ≡ some a) ⊎ (n ≡ some a)
if-eq-some true m n h = inl h
if-eq-some false m n h = inr h

-- The same, with the side that was taken.
pub if-cases {ℓ} :
    {A : Type ℓ} (b : Bool) (m n : Option A) {a : A}
    → (if b then m else n) ≡ some a
    → ((b ≡ true) × (m ≡ some a)) ⊎ ((b ≡ false) × (n ≡ some a))
if-cases true m n h = inl (refl, h)
if-cases false m n h = inr (refl, h)

-- What is returned has the properties of the value that was given.
pub subst-some {ℓ} :
    {A : Type ℓ} (P : A → Type 0) {a b : A} → ◌≡◌ {A = Option A} (some a) (some b) → P a → P b
subst-some P h p = subst P (cc) p
