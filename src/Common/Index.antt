-- ===== src/Common/Index.antt =====
-- Lists by index: `v[i]` and `v[i] = f(v[i])` of a vector, which leaves an index out of range alone.
use Prim.Native.Nat.{ℕ, zero, suc, ◌<◌}
use mathlib.Core.Path.{◌≡◌, refl, ap}
use mathlib.Core.Logic.{◌≢◌}
use mathlib.Core.Option.{Option, none, some}
use mathlib.Core.List.{List, [], ◌∷◌}
use native.Mathlib.Omega.{arith}
use ll2games_rpg_server.Common.Lists.{length}

module _ {ℓ} {A : Type ℓ} where
  abbrev pub get_elem? : List A → ℕ → Option A
  get_elem? [] i = none
  get_elem? (x ∷ xs) zero = some x
  get_elem? (x ∷ xs) (suc i) = get_elem? xs i

  abbrev pub modify : ℕ → (A → A) → List A → List A
  modify i f [] = []
  modify zero f (x ∷ xs) = f x ∷ xs
  modify (suc i) f (x ∷ xs) = x ∷ modify i f xs

  pub length-modify : (i : ℕ) (f : A → A) (xs : List A) → length (modify i f xs) ≡ length xs
  length-modify i f [] = refl
  length-modify zero f (x ∷ xs) = refl
  length-modify (suc i) f (x ∷ xs) = omega (arith, length-modify i f xs)

  pub get-modify_ne :
      (i j : ℕ) (f : A → A) (xs : List A) → i ≢ j → get_elem? (modify j f xs) i ≡ get_elem? xs i
  get-modify_ne i j f [] n = refl
  get-modify_ne zero zero f (x ∷ xs) n = absurd (n refl)
  get-modify_ne zero (suc j) f (x ∷ xs) n = refl
  get-modify_ne (suc i) zero f (x ∷ xs) n = refl
  get-modify_ne (suc i) (suc j) f (x ∷ xs) n = get-modify_ne i j f xs λ e. n (ground arith)

  pub get-modify_self :
      (i : ℕ) (f : A → A) (x : A) (xs : List A)
      → get_elem? xs i ≡ some x
      → get_elem? (modify i f xs) i ≡ some (f x)
  get-modify_self i f x [] h = absurd (ground arith)
  get-modify_self zero f x (y ∷ xs) h = ground arith
  get-modify_self (suc i) f x (y ∷ xs) h = get-modify_self i f x xs h

  pub get_elem?-lt : (i : ℕ) (x : A) (xs : List A) → get_elem? xs i ≡ some x → i < length xs
  get_elem?-lt i x [] h = absurd (ground arith)
  get_elem?-lt zero x (y ∷ xs) h = omega arith
  get_elem?-lt (suc i) x (y ∷ xs) h = let p = get_elem?-lt i x xs h in omega arith

  pub get_elem?-found : (i : ℕ) (xs : List A) → i < length xs → (x : A) × (get_elem? xs i ≡ some x)
  get_elem?-found i [] h = absurd (omega arith)
  get_elem?-found zero (x ∷ xs) h = (x, refl)
  get_elem?-found (suc i) (x ∷ xs) h = get_elem?-found i xs (omega arith)

  pub modify-none : (i : ℕ) (f : A → A) (xs : List A) → get_elem? xs i ≡ none → modify i f xs ≡ xs
  modify-none i f [] h = refl
  modify-none zero f (x ∷ xs) h = absurd (ground arith)
  modify-none (suc i) f (x ∷ xs) h = ap (◌∷◌ x) (modify-none i f xs h)

  abbrev pub replicate : ℕ → A → List A
  replicate zero x = []
  replicate (suc n) x = x ∷ replicate n x

  pub length-replicate : (n : ℕ) (x : A) → length (replicate n x) ≡ n
  length-replicate zero x = refl
  length-replicate (suc n) x = omega (arith, length-replicate n x)

  pub get-replicate : (n i : ℕ) (x y : A) → get_elem? (replicate n x) i ≡ some y → x ≡ y
  get-replicate zero i x y h = absurd (ground arith)
  get-replicate (suc n) zero x y h = ground arith
  get-replicate (suc n) (suc i) x y h = get-replicate n i x y h

  pub get_elem?-none : (i : ℕ) (xs : List A) → length xs ≡ 0 → get_elem? xs i ≡ none
  get_elem?-none i [] h = refl
  get_elem?-none i (x ∷ xs) h = absurd (omega arith)
