-- ===== src/Tokenizer/Outcomes.antt =====
-- What holds of the result of a call whenever it returns, and that it never lacks fuel.
use oaverify.Common.{◌≡◌, refl, subst, ◌≢◌, Bool, true, false, if◌then◌else◌}
use oaverify.Tokenizer.{Result, done, disposed, thrown, ◌>>=◌, out_of_fuel}

-- `P` holds of what is returned, and what is thrown is not the model's lack of fuel.
abbrev pub Returns {ℓ} : {A : Type ℓ} → (A → Type 0) → Result A → Type 0
Returns P (done a) = P a
Returns P disposed = Unit
Returns P (thrown e) = e ≢ out_of_fuel

pub Returns->>= {ℓ κ} :
    {A : Type ℓ} {B : Type κ} (P : A → Type 0) (Q : B → Type 0) (m : Result A) (k : A → Result B)
    → Returns P m
    → ((a : A) → P a → Returns Q (k a))
    → Returns Q (m >>= k)
Returns->>= P Q (done a) k h f = f a h
Returns->>= P Q disposed k h f = tt
Returns->>= P Q (thrown e) k h f = h

pub Returns-if {ℓ} :
    {A : Type ℓ} (P : A → Type 0) (c : Bool) (x y : Result A)
    → (c ≡ true → Returns P x)
    → (c ≡ false → Returns P y)
    → Returns P (if c then x else y)
Returns-if P true x y f g = f refl
Returns-if P false x y f g = g refl

pub Returns_done {ℓ} :
    {A : Type ℓ} (P : A → Type 0) (m : Result A) (a : A) → Returns P m → m ≡ done a → P a
Returns_done P m a h e = subst (Returns P) e h

pub Returns-weaken {ℓ} :
    {A : Type ℓ} (P Q : A → Type 0) (m : Result A)
    → ((a : A) → P a → Q a)
    → Returns P m
    → Returns Q m
Returns-weaken P Q (done a) f h = f a h
Returns-weaken P Q disposed f h = tt
Returns-weaken P Q (thrown e) f h = h

-- `P` holds of what is returned.
abbrev pub Yields {ℓ} : {A : Type ℓ} → (A → Type 0) → Result A → Type 0
Yields P (done a) = P a
Yields P disposed = Unit
Yields P (thrown e) = Unit

pub Yields->>= {ℓ κ} :
    {A : Type ℓ} {B : Type κ} (P : A → Type 0) (Q : B → Type 0) (m : Result A) (k : A → Result B)
    → Yields P m
    → ((a : A) → P a → Yields Q (k a))
    → Yields Q (m >>= k)
Yields->>= P Q (done a) k h f = f a h
Yields->>= P Q disposed k h f = tt
Yields->>= P Q (thrown e) k h f = tt

pub Yields-if {ℓ} :
    {A : Type ℓ} (P : A → Type 0) (c : Bool) (x y : Result A)
    → (c ≡ true → Yields P x)
    → (c ≡ false → Yields P y)
    → Yields P (if c then x else y)
Yields-if P true x y f g = f refl
Yields-if P false x y f g = g refl

pub Yields_done {ℓ} :
    {A : Type ℓ} (P : A → Type 0) (m : Result A) (a : A) → Yields P m → m ≡ done a → P a
Yields_done P m a h e = subst (Yields P) e h

pub Returns-Yields {ℓ} :
    {A : Type ℓ} (P Q : A → Type 0) (m : Result A)
    → ((a : A) → P a → Q a)
    → Returns P m
    → Yields Q m
Returns-Yields P Q (done a) f h = f a h
Returns-Yields P Q disposed f h = tt
Returns-Yields P Q (thrown e) f h = tt
