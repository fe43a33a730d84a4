-- ===== src/Player/Gold.antt =====
-- The gold of a player, for Player.cpp.
use ll2games_rpg_server.Common.{◌≡◌, refl, sym, false≢true, ◌↔◌, Bool, true, false, arith, if_cases}
use ll2games_rpg_server.Common.Int.{
  ℤ, pos, ◌+ℤ◌, ◌-ℤ◌, ◌≤ℤ◌, ◌<ℤ◌, ltb_ℤ, leb_ℤ, +ℤ_parts, -ℤ_parts,
}
use ll2games_rpg_server.Common.Keys.{ℤ_eq}
use ll2games_rpg_server.Player.{Player, max_int64, mark_save_needed, try_add_gold, try_spend_gold}

-- A balance is a nonnegative number of 64 bits.
abbrev pub IsFunded : Player → Type 0
IsFunded p = (pos 0 ≤ℤ p.gold) × (p.gold ≤ℤ pos max_int64)

-- `TryAddGold` returns true exactly for a positive amount that the balance has room for. Where it
-- returns true the balance grew by exactly that amount and is still in range, where it returns false
-- nothing changed.
pub try_add_gold-IsFunded :
    (amount : ℤ) (p : Player)
    → IsFunded p
    → let (ok, p') = try_add_gold amount p in
      IsFunded p'
      × ((ok ≡ true) ↔ ((pos 0 <ℤ amount) × (p.gold +ℤ amount ≤ℤ pos max_int64)))
      × (ok ≡ true → p'.gold ≡ p.gold +ℤ amount)
      × (ok ≡ false → p' ≡ p)
unfolding try_add_gold mark_save_needed
try_add_gold-IsFunded amount p (sign, small) =
    let room = -ℤ_parts (pos max_int64) p.gold in
    let more = +ℤ_parts p.gold amount in
    if_cases IsRight (leb_ℤ amount (pos 0))
      (λ e. (
        (sign, small),
        (λ h. absurd (false≢true h), λ (h, k). absurd (ground arith)),
        λ h. absurd (false≢true h),
        λ h. refl,
      ))
      λ positive.
        if_cases IsRight (ltb_ℤ (pos max_int64 -ℤ p.gold) amount)
          (λ e. (
            (sign, small),
            (λ h. absurd (false≢true h), λ (h, k). absurd (ground arith)),
            λ h. absurd (false≢true h),
            λ h. refl,
          ))
          λ fits. (
            (ground arith, ground arith),
            (λ h. (ground arith, ground arith), λ h. refl),
            λ h. refl,
            λ h. absurd (false≢true (sym h)),
          )
  where
    IsRight : Bool × Player → Type 0
    IsRight r =
        IsFunded r.1
        × ((r.0 ≡ true) ↔ ((pos 0 <ℤ amount) × (p.gold +ℤ amount ≤ℤ pos max_int64)))
        × (r.0 ≡ true → r.1.gold ≡ p.gold +ℤ amount)
        × (r.0 ≡ false → r.1 ≡ p)

-- `TrySpendGold` returns true exactly for a positive amount that the balance covers. Where it
-- returns true the balance fell by exactly that amount and is still in range, where it returns false
-- nothing changed.
pub try_spend_gold-IsFunded :
    (amount : ℤ) (p : Player)
    → IsFunded p
    → let (ok, p') = try_spend_gold amount p in
      IsFunded p'
      × ((ok ≡ true) ↔ ((pos 0 <ℤ amount) × (amount ≤ℤ p.gold)))
      × (ok ≡ true → p'.gold ≡ p.gold -ℤ amount)
      × (ok ≡ false → p' ≡ p)
unfolding try_spend_gold mark_save_needed
try_spend_gold-IsFunded amount p (sign, small) =
    let less = -ℤ_parts p.gold amount in
    if_cases IsRight (leb_ℤ amount (pos 0))
      (λ e. (
        (sign, small),
        (λ h. absurd (false≢true h), λ (h, k). absurd (ground arith)),
        λ h. absurd (false≢true h),
        λ h. refl,
      ))
      λ positive.
        if_cases IsRight (ltb_ℤ p.gold amount)
          (λ e. (
            (sign, small),
            (λ h. absurd (false≢true h), λ (h, k). absurd (ground arith)),
            λ h. absurd (false≢true h),
            λ h. refl,
          ))
          λ fits. (
            (ground arith, ground arith),
            (λ h. (ground arith, ground arith), λ h. refl),
            λ h. refl,
            λ h. absurd (false≢true (sym h)),
          )
  where
    IsRight : Bool × Player → Type 0
    IsRight r =
        IsFunded r.1
        × ((r.0 ≡ true) ↔ ((pos 0 <ℤ amount) × (amount ≤ℤ p.gold)))
        × (r.0 ≡ true → r.1.gold ≡ p.gold -ℤ amount)
        × (r.0 ≡ false → r.1 ≡ p)

-- Neither touches what the player holds.
pub try_add_gold-inventories :
    (amount : ℤ) (p : Player) → (try_add_gold amount p).1.inventories ≡ p.inventories
unfolding try_add_gold mark_save_needed
try_add_gold-inventories amount p = ground arith

pub try_spend_gold-inventories :
    (amount : ℤ) (p : Player) → (try_spend_gold amount p).1.inventories ≡ p.inventories
unfolding try_spend_gold mark_save_needed
try_spend_gold-inventories amount p = ground arith
