-- ===== src/Incremental/Run/Outcome.antt =====
-- What the programs of pkg/burner/incremental.go end with, where they do not panic.
use kube_burner.Prelude.{Bool, true, false, Option, none, some, if◌then◌else◌, ◌≡◌, refl}
use kube_burner.Executor.{World, M, ◌>>=◌}

-- What a program ends with satisfies a predicate, where it does not panic.
abbrev pub Sat {ℓ} : {A : Type 0} → (A → Type ℓ) → Option (A × World) → Type ℓ
Sat Good none = Unit
Sat Good (some (a, w)) = Good a

pub bind-Sat {ℓ} :
    {A B : Type 0} (Good : B → Type ℓ) (m : M A) (f : A → M B) (w : World)
    → ((a : A) (after : World) → Sat Good (f a after))
    → Sat Good ((m >>= f) w)
bind-Sat {A = A} Good m f w h = through (m w)
  where
    through :
        (o : Option (A × World)) → Sat Good (elim o [ none ↦ none | some (a, after) ↦ f a after ])
    through none = tt
    through (some (a, after)) = h a after

-- The same with what the first program gives.
pub known-Sat {ℓ} :
    {A B : Type 0} (Good : B → Type ℓ) (m : M A) (f : A → M B) (w : World)
    → ((a : A) (after : World) → m w ≡ some (a, after) → Sat Good (f a after))
    → Sat Good ((m >>= f) w)
known-Sat {A = A} Good m f w h = through (m w) refl
  where
    through :
        (o : Option (A × World))
        → m w ≡ o
        → Sat Good (elim o [ none ↦ none | some (a, after) ↦ f a after ])
    through none e = tt
    through (some (a, after)) e = h a after e

-- The same where the first program's result is known to satisfy a predicate.
pub known-chain-Sat :
    {A B : Type 0} (Mid : A → Type 0) (Good : B → Type 0) (m : M A) (f : A → M B) (w : World)
    → Sat Mid (m w)
    → ((a : A) (after : World) → m w ≡ some (a, after) → Mid a → Sat Good (f a after))
    → Sat Good ((m >>= f) w)
known-chain-Sat {A = A} Mid Good m f w first h = through (m w) refl first
  where
    through :
        (o : Option (A × World))
        → m w ≡ o
        → Sat Mid o
        → Sat Good (elim o [ none ↦ none | some (a, after) ↦ f a after ])
    through none e holds = tt
    through (some (a, after)) e holds = h a after e holds

pub if-Sat {ℓ} :
    {A : Type 0} (Good : A → Type ℓ) (b : Bool) (m n : M A) (w : World)
    → Sat Good (m w)
    → Sat Good (n w)
    → Sat Good ((if b then m else n) w)
if-Sat Good true m n w yes_case no_case = yes_case
if-Sat Good false m n w yes_case no_case = no_case
