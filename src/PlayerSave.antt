-- ===== src/PlayerSave.antt =====
-- `PlayerDataSaveService::Save` of SERVER/src/CHANNEL/service/PlayerDataSaveService.cpp: a player is
-- stored while other threads go on changing it.
mod Tests
use ll2games_rpg_server.Common.{
  ℕ, zero, suc, ◌+◌, ◌-◌, ◌*◌, ◌/◌, ◌%◌, ◌^◌, ◌≤◌, ◌<◌, ◌≡◌, refl, sym, ap, ap₂, subst, ◌∙◌, ◌≢◌,
  false≢true, ◌↔◌, ◌⊎◌, inl, inr, Bool, true, false, ◌&&◌, ◌||◌, not, Option, none, some, List, [],
  ◌∷◌, ◌++◌, map, arith, ltb, leb, ◌==◌, if◌then◌else◌, Bool-cases, Option-cases, is_some, codes,
  if_cases, not-false, length, take, drop, length-append,
}
use ll2games_rpg_server.Common.Int.{
  ℤ, pos, negsuc, ◌+ℤ◌, ◌-ℤ◌, ◌*ℤ◌, ◌≤ℤ◌, ◌<ℤ◌, ltb_ℤ, leb_ℤ, eqb_ℤ, eqb_ℤ_iff, min_ℤ, min-le_left,
  min-le_right, le-min, pos_part, neg_part, int_laws, parts, eqb_ℤ_refl, eqb_ℤ_ne, ne_of_eqb_ℤ,
  +ℤ_parts, -ℤ_parts, eq_of_parts,
}
use ll2games_rpg_server.Common.Keys.{Dict, lookup, insert, erase, ℤ_eq, lookup-insert, lookup-erase}
use ll2games_rpg_server.Player.{Player, mark_save_needed, is_save_needed, try_mark_saved}

-- A number of changes of the player, each of which calls `MarkSaveNeeded`.
pub changed_times : ℕ → Player → Player
changed_times zero p = p
changed_times (suc n) p = mark_save_needed (changed_times n p)

-- `Save`: `stored` is whether `SavePlayerData` succeeds, in the database and in Redis, and `during` is
-- how often the player changes between `MakeSaveData` and `TryMarkSaved`.
pub save : Bool → Bool → ℕ → Player → Bool × Player
save force_save stored during p =
    let later = changed_times during p in
    if not force_save && not (is_save_needed p)
    then (true, p)
    else if not stored
    then (false, later)
    else (true, (try_mark_saved p.save_version later).1)

changed_times-save_version :
    (n : ℕ) (p : Player)
    → p.save_version + n < 2 ^ 64
    → (changed_times n p).save_version ≡ p.save_version + n
unfolding changed_times mark_save_needed
changed_times-save_version zero p small = omega arith
changed_times-save_version (suc n) p small =
    let before = changed_times-save_version n p (omega arith) in rw before (omega arith)

-- A save loses no change, as long as the version does not wrap: where it stored the player, saving is
-- needed afterwards exactly where the player changed in the meantime, and where storing failed, the
-- player is as the changes left it, so that a player that needed saving still does.
pub save-keeps_changes :
    (force_save stored : Bool) (during : ℕ) (p : Player)
    → p.save_version + during < 2 ^ 64
    → (force_save || is_save_needed p) ≡ true
    → let (ok, p') = save force_save stored during p in
      (ok ≡ stored)
      × (stored ≡ true → (is_save_needed p' ≡ true) ↔ (0 < during))
      × (stored ≡ false → p' ≡ changed_times during p)
      × ((is_save_needed p && not stored) ≡ true → is_save_needed p' ≡ true)
unfolding save is_save_needed try_mark_saved
save-keeps_changes force_save stored during p small wanted =
    let count = changed_times-save_version during p small in
    if_cases IsKept (not force_save && not (is_save_needed p)) (λ e. absurd (ground arith))
      λ e.
        if_cases IsKept (not stored)
          (λ failed. (ground arith, (λ h. absurd (ground arith)), (λ h. refl), λ h. ground arith))
          λ done.
            if_cases (λ (r : Bool × Player). IsKept (true, r.1))
              ((changed_times during p).save_version == p.save_version)
              (λ same. (
                sym (not-false done),
                (λ h. (λ z. absurd (ground arith), λ z. absurd (ground arith))),
                (λ h. absurd (ground arith)),
                λ h. absurd (ground arith),
              ))
              (λ moved. (
                sym (not-false done),
                (λ h. (λ z. ground arith, λ z. ground arith)),
                (λ h. absurd (ground arith)),
                λ h. absurd (ground arith),
              ))
  where
    IsKept : Bool × Player → Type 0
    IsKept r =
        (r.0 ≡ stored)
        × (stored ≡ true → (is_save_needed r.1 ≡ true) ↔ (0 < during))
        × (stored ≡ false → r.1 ≡ changed_times during p)
        × ((is_save_needed p && not stored) ≡ true → is_save_needed r.1 ≡ true)
