-- ===== src/Roster.antt =====
-- The players of a channel and their final saves: SERVER/src/CHANNEL/manager/PlayerManager.cpp, the final
-- saves and the authentication results of SERVER/src/CHANNEL/app/ChannelServer.cpp, `FinalizePlayer` of
-- ChannelSession.cpp, and the tasks ChannelAuthTask and FinalPlayerDataSaveTask of
-- SERVER/src/CHANNEL/task. A player is its data, of any type; the database is what a load finds.
pub mod Handover
mod Leaving
mod Saves
pub mod Current
mod Tests
use ll2games_rpg_server.Common.{
  ℕ, zero, suc, ◌+◌, Bool, true, false, Option, none, some, List, [], ◌∷◌, ◌++◌, if◌then◌else◌,
}
use ll2games_rpg_server.Common.Int.{ℤ, pos, leb_ℤ, eqb_ℤ}
use ll2games_rpg_server.Common.Keys.{Dict, lookup, insert, erase, ℤ_eq}

pub record Roster (D : Type 0) : Type 0 where
  -- `m_players`
  pub players : Dict ℤ D
  -- `m_finalPlayerDataSavePending`
  pub pending : List ℤ
  -- the tasks that `m_savePool` has and has not finished
  pub save_tasks : List (ℤ × D)
  -- `m_authResults`: the players that were loaded
  pub auth_results : List (ℤ × D)

abbrev pub member : ℤ → List ℤ → Bool
member k [] = false
member k (j ∷ js) = if eqb_ℤ k j then true else member k js

abbrev pub removed : ℤ → List ℤ → List ℤ
removed k [] = []
removed k (j ∷ js) = if eqb_ℤ k j then removed k js else j ∷ removed k js

-- What one attempt to save does.
pub data Attempted : Type 0 where
  saved not_saved save_threw : Attempted

-- The attempts that are left of `FinalPlayerDataSaveTask::Execute`, from number `i`: whether one saved.
unfoldable pub save_attempts : ℕ → ℕ → (ℕ → Attempted) → Bool
save_attempts zero i attempt = false
save_attempts (suc left) i attempt =
    let rest = save_attempts left (i + 1) attempt in
    elim (attempt i) [ saved ↦ true | not_saved ↦ rest | save_threw ↦ false ]

module _ {D : Type 0} where
  abbrev pub add_found : Option D → ℤ → D → Roster D → Bool × Roster D
  add_found (some other) id player r = (false, r)
  add_found none id player r = (true, record r { players = insert id player r.players })

  unfoldable pub add_player : ℤ → D → Roster D → Bool × Roster D
  add_player id player r = add_found (lookup id r.players) id player r

  unfoldable get_player : ℤ → Roster D → Option D
  get_player id r = lookup id r.players

  abbrev pub remove_found : Option D → ℤ → Roster D → Bool × Roster D
  remove_found none id r = (false, r)
  remove_found (some player) id r = (true, record r { players = erase id r.players })

  unfoldable pub remove_player : ℤ → Roster D → Bool × Roster D
  remove_player id r = remove_found (lookup id r.players) id r

  -- `SubmitFinalPlayerDataSave`; `submits` is false where making or submitting the task throws.
  unfoldable pub submit_final_player_data_save : Bool → ℤ → D → Roster D → Bool × Roster D
  submit_final_player_data_save submits id player r =
      if leb_ℤ id (pos 0)
      then (false, r)
      else if member id r.pending
      then (false, r)
      else if submits
      then (
        true,
        record r { pending = id ∷ r.pending; save_tasks = r.save_tasks ++ ((id, player) ∷ []) },
      )
      else (false, record r { pending = removed id (id ∷ r.pending) })

  unfoldable pub is_final_player_data_save_pending : ℤ → Roster D → Bool
  is_final_player_data_save_pending id r = member id r.pending

  unfoldable pub complete_final_player_data_save : ℤ → Roster D → Roster D
  complete_final_player_data_save id r = record r { pending = removed id r.pending }

  -- `FinalizePlayer` of a session whose player is `player`, with `m_server` and `m_playerManager`.
  unfoldable pub finalize_player : Bool → Bool → ℤ → D → Roster D → Roster D
  finalize_player save_needed submits id player r =
      (remove_player id
        (if save_needed then (submit_final_player_data_save submits id player r).1 else r)).1

  -- A task of `m_savePool` and the database after it, where the character's data is what it saves.
  unfoldable pub run_save_task : (ℕ → Attempted) → ℤ → D → Dict ℤ D → Roster D → Dict ℤ D × Roster D
  run_save_task attempt id player database r = (
    if save_attempts 3 1 attempt then insert id player database else database,
    complete_final_player_data_save id r,
  )

  -- `ChannelAuthTask::Execute` from the character id of a valid ticket on.
  abbrev pub loaded : Option D → ℤ → Roster D → Bool × Roster D
  loaded none id r = (false, r)
  loaded (some player) id r =
      (true, record r { auth_results = r.auth_results ++ ((id, player) ∷ []) })

  unfoldable pub auth_task : ℤ → Dict ℤ D → Roster D → Bool × Roster D
  auth_task id database r =
      if is_final_player_data_save_pending id r
      then (false, r)
      else loaded (lookup id database) id r

  -- One round of `ProcessAuthResults` for a session that is still there.
  abbrev pub process_from : List (ℤ × D) → Roster D → Bool × Roster D
  process_from [] r = (false, r)
  process_from ((id, player) ∷ rest) r = add_player id player (record r { auth_results = rest })

  unfoldable pub process_auth_result : Roster D → Bool × Roster D
  process_auth_result r = process_from r.auth_results r
