-- ===== src/Base/Partial.antt =====
-- Code that may fault: `none` is a panic, a null dereference or another fault.
use Prim.Native.Nat.{ℕ, zero, suc}
use mathlib.Core.Path.{◌≡◌, refl, subst}
use mathlib.Core.Bool.{Bool, true, false}
use hyeonseung_os.Base.Tests.{if◌then◌else◌, none≢some}
use mathlib.Core.Option.{Option, none, some, some-injective}

infixl 5 ◌>>=◌
abbrev pub ◌>>=◌ {ℓ κ} : {A : Type ℓ} {B : Type κ} → Option A → (A → Option B) → Option B
none >>= f = none
some a >>= f = f a

-- A pointer used for a load or a store: 0 faults, and `suc i` is the object with index `i`.
abbrev pub deref : ℕ → Option ℕ
deref zero = none
deref (suc i) = some i

-- A call that panics, or returns what `P` says.
pub data Ends {A : Type 0} (P : A → Type 0) : Option A → Type 0 where
  panics : Ends P none
  ends : (a : A) → P a → Ends P (some a)

pub Ends-bind :
    {A B : Type 0} {P : A → Type 0} {Q : B → Type 0} {r : Option A} (f : A → Option B)
    → Ends P r
    → ((a : A) → P a → Ends Q (f a))
    → Ends Q (r >>= f)
Ends-bind f panics k = panics
Ends-bind f (ends a p) k = k a p

pub Ends-if :
    {A : Type 0} {P : A → Type 0} (b : Bool) {x y : Option A}
    → (b ≡ true → Ends P x)
    → (b ≡ false → Ends P y)
    → Ends P (if b then x else y)
Ends-if true x y = x refl
Ends-if false x y = y refl

pub Ends-some : {A : Type 0} {P : A → Type 0} {r : Option A} (a : A) → Ends P r → r ≡ some a → P a
Ends-some {P} a panics e = absurd (none≢some a e)
Ends-some {P} a (ends b p) e = subst P (some-injective b a e) p

-- A call of which nothing need be said.
pub Ends-any : {A : Type 0} (r : Option A) → Ends (λ a. a ≡ a) r
Ends-any none = panics
Ends-any (some a) = ends a refl
