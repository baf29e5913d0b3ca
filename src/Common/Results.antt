-- ===== src/Common/Results.antt =====
-- Rust's `Result`, and the `?` operator as `do`.
use mathlib.Core.Option.{Option, none, some}
use mathlib.Core.Path.{◌≡◌, refl, subst}

pub data Result (A E : Type 0) : Type 0 where
  ok : A → Result A E
  err : E → Result A E

infixl 5 ◌>>=◌
abbrev pub ◌>>=◌ : {A B E : Type 0} → Result A E → (A → Result B E) → Result B E
ok a >>= f = f a
err e >>= f = err e

-- `Option::ok_or`.
abbrev pub ok_or : {A E : Type 0} → Option A → E → Result A E
ok_or none e = err e
ok_or (some a) e = ok a

-- A property of the value, where there is one.
abbrev pub Holds : {A E : Type 0} → (A → Type 0) → Result A E → Type 0
Holds P (ok a) = P a
Holds P (err e) = Unit

pub bind-Holds :
    {A B E : Type 0} (P : B → Type 0) (r : Result A E) (f : A → Result B E)
    → ((a : A) → Holds P (f a))
    → Holds P (r >>= f)
bind-Holds P (ok a) f h = h a
bind-Holds P (err e) f h = tt

pub bind-Holds_with :
    {A B E : Type 0} (Q : A → Type 0) (P : B → Type 0) (r : Result A E) (f : A → Result B E)
    → Holds Q r
    → ((a : A) → Q a → Holds P (f a))
    → Holds P (r >>= f)
bind-Holds_with Q P (ok a) f q h = h a q
bind-Holds_with Q P (err e) f q h = tt

-- As above, with the value's origin.
pub bind-Holds_eq :
    {A B E : Type 0} (P : B → Type 0) (r : Result A E) (f : A → Result B E)
    → ((a : A) → r ≡ ok a → Holds P (f a))
    → Holds P (r >>= f)
bind-Holds_eq P (ok a) f h = h a refl
bind-Holds_eq P (err e) f h = tt

pub Holds-map :
    {A E : Type 0} {P Q : A → Type 0} (r : Result A E)
    → ((a : A) → P a → Q a)
    → Holds P r
    → Holds Q r
Holds-map (ok a) f h = f a h
Holds-map (err e) f h = tt

pub Holds_at : {A E : Type 0} (P : A → Type 0) {r : Result A E} {a : A} → Holds P r → r ≡ ok a → P a
Holds_at P h e = subst (Holds P) e h
