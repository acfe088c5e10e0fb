-- ===== src/Prelude/Eq.antt =====
-- Equality of keys as an interface, with the instances for numbers and texts.
use Prim.Native.Nat.{ℕ}
use Prim.Native.String.{String}
use mathlib.Core.Path.{◌≡◌}
use mathlib.Core.Logic.{◌↔◌}
use mathlib.Core.Bool.{Bool, true}
use text.Mathlib.Text.{◌==◌ as str_eq}
use text.Mathlib.TextEquality.{eq_iff}
use call_center.Prelude.Tests.{◌==◌, ==_iff}

pub record EqKey {ℓ} (K : Type ℓ) : Type ℓ where
  pub same : K → K → Bool
  pub same_iff : (a b : K) → (same a b ≡ true) ↔ (a ≡ b)

instance abbrev pub nat_key : EqKey ℕ
nat_key = record { same = ◌==◌; same_iff = ==_iff }

instance abbrev pub string_key : EqKey String
string_key = record { same = str_eq; same_iff = eq_iff }

-- Go's `==` on strings.
infix 50 ◌==s◌
abbrev pub ◌==s◌ : String → String → Bool
a ==s b = str_eq a b

pub ==s_iff : (a b : String) → ((a ==s b) ≡ true) ↔ (a ≡ b)
==s_iff a b = eq_iff a b
