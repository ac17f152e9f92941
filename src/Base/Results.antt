-- ===== src/Base/Results.antt =====
-- What a C++ expression does: it returns, it throws a std::exception, or it is undefined
-- behaviour, such as a read or a write outside an allocation or a null dereference.
use mathlib.Core.Path.{◌≡◌, refl, subst}
use mathlib.Core.Bool.{Bool, true, false}
use p2p_watcher.Base.Tests.{if◌then◌else◌}
use mathlib.Core.Option.{Option, none, some}

pub data Outcome {ℓ} (A : Type ℓ) : Type ℓ where
  done : A → Outcome A
  throws : Outcome A
  fault : Outcome A

infixl 5 ◌>>=◌
abbrev pub ◌>>=◌ {ℓ κ} : {A : Type ℓ} {B : Type κ} → Outcome A → (A → Outcome B) → Outcome B
done a >>= f = f a
throws >>= f = throws
fault >>= f = fault

-- A call of a library function that throws where it has no result.
abbrev pub or_throw {ℓ} : {A : Type ℓ} → Option A → Outcome A
or_throw none = throws
or_throw (some a) = done a

pub bind-done {ℓ} : {A : Type ℓ} (m : Outcome A) → (m >>= λ a. done a) ≡ m
bind-done (done a) = refl
bind-done throws = refl
bind-done fault = refl

-- A step that is followed by `f` and then by `g`, where these agree with `h` on what it returned.
pub bind-cong {ℓ κ ι} :
    {A : Type ℓ} {B : Type κ} {C : Type ι} (m : Outcome A) (f : A → Outcome B) (g : B → Outcome C)
    (h : A → Outcome C)
    → ((a : A) → m ≡ done a → (f a >>= g) ≡ h a)
    → ((m >>= f) >>= g) ≡ (m >>= h)
bind-cong (done a) f g h k = k a refl
bind-cong throws f g h k = refl
bind-cong fault f g h k = refl

-- The same with one step more between.
pub bind-cong_twice {ℓ κ ι μ} :
    {A : Type ℓ} {B : Type κ} {C : Type ι} {D : Type μ} (m : Outcome A) (f : A → Outcome B)
    (g : B → Outcome C) (k : C → Outcome D) (h : A → Outcome D)
    → ((a : A) → m ≡ done a → ((f a >>= g) >>= k) ≡ h a)
    → (((m >>= f) >>= g) >>= k) ≡ (m >>= h)
bind-cong_twice (done a) f g k h e = e a refl
bind-cong_twice throws f g k h e = refl
bind-cong_twice fault f g k h e = refl

pub bind_assoc {ℓ κ ι} :
    {A : Type ℓ} {B : Type κ} {C : Type ι} (m : Outcome A) (f : A → Outcome B) (g : B → Outcome C)
    → ((m >>= f) >>= g) ≡ (m >>= λ a. f a >>= g)
bind_assoc (done a) f g = refl
bind_assoc throws f g = refl
bind_assoc fault f g = refl

-- The steps of a chain that returned.
pub bind-eq-done {ℓ κ} :
    {A : Type ℓ} {B : Type κ} (m : Outcome A) (f : A → Outcome B) {b : B}
    → (m >>= f) ≡ done b
    → (a : A) × (m ≡ done a) × (f a ≡ done b)
bind-eq-done (done a) f e = (a, refl, e)
bind-eq-done throws f e = cc
bind-eq-done fault f e = cc

-- What holds of the result, if there is one.
pub record Ensures {ℓ κ} {A : Type ℓ} (P : A → Type κ) (m : Outcome A) : Type (ℓ ⊔ κ) where
  pub result : (a : A) → m ≡ done a → P a

module _ {ℓ κ} {A : Type ℓ} (P : A → Type κ) where
  pub Ensures-done : {a : A} → P a → Ensures P (done a)
  Ensures-done {a} h = record { result = λ b e. subst P (done-injective e) h }
    where
      done-injective : {b : A} → ◌≡◌ {A = Outcome A} (done a) (done b) → a ≡ b
      done-injective e = cc

  pub Ensures-throws : Ensures P throws
  Ensures-throws = record { result = λ a e. cc }

  pub Ensures-fault : Ensures P fault
  Ensures-fault = record { result = λ a e. cc }

  pub Ensures-if :
      (b : Bool) (x y : Outcome A) → Ensures P x → Ensures P y → Ensures P (if b then x else y)
  Ensures-if true x y h k = h
  Ensures-if false x y h k = k

pub Ensures-bind {ℓ κ ι μ} :
    {A : Type ℓ} {B : Type κ} (P : A → Type ι) (Q : B → Type μ) (m : Outcome A) (f : A → Outcome B)
    → Ensures P m
    → ((a : A) → P a → Ensures Q (f a))
    → Ensures Q (m >>= f)
Ensures-bind P Q (done a) f h k = k a (h.result a refl)
Ensures-bind P Q throws f h k = Ensures-throws Q
Ensures-bind P Q fault f h k = Ensures-fault Q

-- A step after which nothing is used of the step itself.
pub Ensures-after {ℓ κ μ} :
    {A : Type ℓ} {B : Type κ} (Q : B → Type μ) (m : Outcome A) (f : A → Outcome B)
    → ((a : A) → Ensures Q (f a))
    → Ensures Q (m >>= f)
Ensures-after Q (done a) f k = k a
Ensures-after Q throws f k = Ensures-throws Q
Ensures-after Q fault f k = Ensures-fault Q

pub Ensures-weaken {ℓ κ μ} :
    {A : Type ℓ} (P : A → Type κ) (Q : A → Type μ) (m : Outcome A)
    → ((a : A) → P a → Q a)
    → Ensures P m
    → Ensures Q m
Ensures-weaken P Q m f h = record { result = λ a e. f a (h.result a e) }

pub Ensures-both {ℓ κ μ} :
    {A : Type ℓ} {P : A → Type κ} {Q : A → Type μ} {m : Outcome A}
    → Ensures P m
    → Ensures Q m
    → Ensures (λ a. P a × Q a) m
Ensures-both h k = record { result = λ a e. (h.result a e, k.result a e) }
