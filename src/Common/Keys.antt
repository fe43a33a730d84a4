-- ===== src/Common/Keys.antt =====
-- Dictionaries (`std::map`, `std::unordered_map`) as association lists over a key with a lawful
-- equality test.
use Prim.Native.Nat.{ℕ}
use mathlib.Core.Path.{◌≡◌, refl}
use mathlib.Core.Logic.{◌↔◌, ◌≢◌, ◌⊎◌}
use mathlib.Core.Bool.{Bool, true, false, ◌&&◌}
use mathlib.Core.Option.{Option, none, some}
use mathlib.Core.List.{List, [], ◌∷◌}
use native.Mathlib.Omega.{arith}
use ll2games_rpg_server.Common.Tests.{◌==◌, ==_iff, if◌then◌else◌}
use ll2games_rpg_server.Common.Int.{ℤ, eqb_ℤ, eqb_ℤ_iff}

pub record Eq (A : Type 0) : Type 0 where
  pub beq : A → A → Bool
  pub beq_iff : (a b : A) → (beq a b ≡ true) ↔ (a ≡ b)

-- `std::string` keys: texts are lists of bytes.
abbrev pub eqb_bytes : List ℕ → List ℕ → Bool
eqb_bytes [] [] = true
eqb_bytes (x ∷ xs) (y ∷ ys) = (x == y) && eqb_bytes xs ys
eqb_bytes _ _ = false

pub eqb_bytes_iff : (a b : List ℕ) → (eqb_bytes a b ≡ true) ↔ (a ≡ b)
eqb_bytes_iff [] [] = ground arith
eqb_bytes_iff [] (y ∷ ys) = ground arith
eqb_bytes_iff (x ∷ xs) [] = ground arith
eqb_bytes_iff (x ∷ xs) (y ∷ ys) = ground (arith, eqb_bytes_iff xs ys)

instance abbrev pub ℤ_eq : Eq ℤ
ℤ_eq = record { beq = eqb_ℤ; beq_iff = eqb_ℤ_iff }

instance abbrev pub ℕ_eq : Eq ℕ
ℕ_eq = record { beq = ◌==◌; beq_iff = ==_iff }

instance abbrev pub bytes_eq : Eq (List ℕ)
bytes_eq = record { beq = eqb_bytes; beq_iff = eqb_bytes_iff }

abbrev pub Dict : Type 0 → Type 0 → Type 0
Dict K V = List (K × V)

module _ {K V : Type 0} ⦃e : Eq K⦄ where
  abbrev pub lookup : K → Dict K V → Option V
  lookup k [] = none
  lookup k ((j, v) ∷ d) = if e.beq k j then some v else lookup k d

  -- `d[k] = v`
  abbrev pub insert : K → V → Dict K V → Dict K V
  insert k v [] = (k, v) ∷ []
  insert k v ((j, w) ∷ d) = if e.beq k j then (k, v) ∷ d else (j, w) ∷ insert k v d

  -- `d.erase(k)`
  abbrev pub erase : K → Dict K V → Dict K V
  erase k [] = []
  erase k ((j, w) ∷ d) = if e.beq k j then erase k d else (j, w) ∷ erase k d

  pub lookup-insert :
      (j k : K) (v : V) (d : Dict K V)
      → lookup j (insert k v d) ≡ (if e.beq j k then some v else lookup j d)
  lookup-insert j k v [] = refl
  lookup-insert j k v ((i, w) ∷ d) =
      ground (arith, e.beq_iff j k, e.beq_iff k i, e.beq_iff j i, lookup-insert j k v d)

  pub lookup-erase :
      (j k : K) (d : Dict K V) → lookup j (erase k d) ≡ (if e.beq j k then none else lookup j d)
  lookup-erase j k [] = ground arith
  lookup-erase j k ((i, w) ∷ d) =
      ground (arith, e.beq_iff j k, e.beq_iff k i, e.beq_iff j i, lookup-erase j k d)

  pub lookup-insert_self : (k : K) (v : V) (d : Dict K V) → lookup k (insert k v d) ≡ some v
  lookup-insert_self k v d = ground (arith, e.beq_iff k k, lookup-insert k k v d)

  pub lookup-insert_ne :
      (j k : K) (v : V) (d : Dict K V) (o : Option V)
      → j ≢ k
      → lookup j d ≡ o
      → lookup j (insert k v d) ≡ o
  lookup-insert_ne j k v d o n h = ground (arith, e.beq_iff j k, lookup-insert j k v d)

  pub lookup-insert_inv :
      (j k : K) (v w : V) (d : Dict K V)
      → lookup j (insert k v d) ≡ some w
      → ((j ≡ k) × (some v ≡ some w)) ⊎ ((j ≢ k) × (lookup j d ≡ some w))
  lookup-insert_inv j k v w d h = ground (arith, e.beq_iff j k, lookup-insert j k v d)

  pub lookup-erase_ne :
      (j k : K) (d : Dict K V) (o : Option V) → j ≢ k → lookup j d ≡ o → lookup j (erase k d) ≡ o
  lookup-erase_ne j k d o n h = ground (arith, e.beq_iff j k, lookup-erase j k d)

  pub lookup-erase_inv :
      (j k : K) (v : V) (d : Dict K V)
      → lookup j (erase k d) ≡ some v
      → (j ≢ k) × (lookup j d ≡ some v)
  lookup-erase_inv j k v d h = ground (arith, e.beq_iff j k, lookup-erase j k d)
