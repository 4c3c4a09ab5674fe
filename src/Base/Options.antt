-- ===== src/Base/Options.antt =====
-- A chain of calls that may find nothing, or that raise one kind of error.
use option_research_platform.Base.{Option, none, some}

infixl 5 ◌>>=◌
abbrev pub ◌>>=◌ {ℓ κ} : {A : Type ℓ} {B : Type κ} → Option A → (A → Option B) → Option B
none >>= f = none
some a >>= f = f a
