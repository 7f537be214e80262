-- ===== src/Prelude/Classes.antt =====
-- Decidable equality as a Boolean test, one operator for every type of key that is compared.
use Prim.Native.Nat.{ℕ}
use Prim.Native.String.{String}
use mathlib.Core.Path.{◌≡◌, refl}
use mathlib.Core.Logic.{◌↔◌}
use mathlib.Core.Bool.{Bool, true}
use text.Mathlib.Text.{◌==◌ as same_text}
use text.Mathlib.TextEquality.{eq_iff}
use ai_badge.Prelude.Tests.{nat_beq, nat_beq_iff}

-- A type of keys: a test of two keys, and that it decides their equality.
pub record Key {ℓ} (K : Type ℓ) : Type ℓ where
  pub same : K → K → Bool
  pub same_iff : (k l : K) → (same k l ≡ true) ↔ (k ≡ l)

instance abbrev pub string_eq : Key String
string_eq = record { same = same_text; same_iff = eq_iff }

instance abbrev pub nat_eq : Key ℕ
nat_eq = record { same = nat_beq; same_iff = nat_beq_iff }

module _ {ℓ} {K : Type ℓ} ⦃keys : Key K⦄ where
  infix 50 ◌==◌
  abbrev pub ◌==◌ : K → K → Bool
  k == l = keys.same k l

  pub beq_refl : (k : K) → (k == k) ≡ true
  beq_refl k = (keys.same_iff k k).1 refl
