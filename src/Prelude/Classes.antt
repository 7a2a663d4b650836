-- ===== src/Prelude/Classes.antt =====
-- Go's `==` on the types that the program compares, with its law.
use Prim.Native.Nat.{ℕ}
use Prim.Native.String.{String}
use mathlib.Core.Path.{◌≡◌, refl}
use mathlib.Core.Logic.{◌↔◌, ◌≢◌}
use mathlib.Core.Bool.{Bool, true, false}
use text.Mathlib.Text.{◌==◌ as str_eq}
use text.Mathlib.TextEquality.{eq_iff}
use native.Mathlib.Omega.{arith}
use n8n_turbo.Prelude.Tests.{nat_eqb, nat_eqb_iff}
use n8n_turbo.Prelude.Int.{ℤ, int_eqb, int_eqb_iff}

-- The language's word for a type whose values `==` compares.
pub record Comparable {κ} (K : Type κ) : Type κ where
  pub same : K → K → Bool
  pub same_iff : (j k : K) → (same j k ≡ true) ↔ (j ≡ k)

instance abbrev pub string_eq : Comparable String
string_eq = record { same_iff = eq_iff; same = str_eq }

instance abbrev pub int_eq : Comparable ℤ
int_eq = record { same_iff = int_eqb_iff; same = int_eqb }

instance abbrev pub nat_eq : Comparable ℕ
nat_eq = record { same_iff = nat_eqb_iff; same = nat_eqb }

abbrev pub ◌==◌ {κ} : {K : Type κ} ⦃go : Comparable K⦄ → K → K → Bool
◌==◌ ⦃go⦄ j k = go.same j k

infix 50 ◌==◌
pub str_iff : (s t : String) → ((s == t) ≡ true) ↔ (s ≡ t)
str_iff s t = eq_iff s t

module _ {ℓ} {A : Type ℓ} ⦃e : Comparable A⦄ where
  pub beq_refl : (a : A) → (a == a) ≡ true
  beq_refl a = (e.same_iff a a).1 refl

  pub beq_ne : (a b : A) → a ≢ b → (a == b) ≡ false
  beq_ne a b h = ground (arith, e.same_iff a b)
