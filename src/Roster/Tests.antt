-- ===== src/Roster/Tests.antt =====
-- A character that leaves and comes back, and a client that authenticates too early.
use ll2games_rpg_server.Common.{
  ℕ, ◌≡◌, refl, sym, false≢true, true, false, some, [], ◌∷◌, arith, ◌==◌, if◌then◌else◌,
}
use ll2games_rpg_server.Common.Int.{pos}
use ll2games_rpg_server.Common.Keys.{ℤ_eq}
use ll2games_rpg_server.Roster.{
  Roster, Attempted, saved, not_saved, save_attempts, add_player, remove_player,
  submit_final_player_data_save, is_final_player_data_save_pending, complete_final_player_data_save,
  finalize_player, run_save_task, auth_task, process_auth_result, get_player,
}
use ll2games_rpg_server.Roster.Handover.{
  Life, Reach, begins, plays, leaves, saves, authenticates, processes, IsCurrent,
}
use ll2games_rpg_server.Roster.Current.{Reach-IsCurrent}

abbrev empty_roster : Roster ℕ
empty_roster = record { players = []; pending = []; save_tasks = []; auth_results = [] }

-- The data of character 7 is a number: 10 at first, 25 when the session ends.
abbrev came_back : Life ℕ
came_back = record {
  roster = record empty_roster { players = (pos 7, 25) ∷ [] };
  database = (pos 7, 25) ∷ [];
  latest = 25;
}

abbrev second_try : ℕ → Attempted
second_try i = if i == 1 then not_saved else saved

came_back-Reach : Reach (pos 7) 10 came_back
unfolding auth_task is_final_player_data_save_pending process_auth_result add_player finalize_player
    submit_final_player_data_save remove_player run_save_task complete_final_player_data_save
    save_attempts
came_back-Reach = processes (
    authenticates (pos 7) (λ e. (refl, refl))
      (saves second_try [] [] (pos 7) 25 refl refl (
        leaves true 25 (omega arith) refl (λ e. absurd (false≢true (sym e)))
          (plays 10 25 refl (processes (authenticates (pos 7) (λ e. (refl, refl)) begins))))))

Reach-IsCurrent_example : IsCurrent {D = ℕ} 25 (some 25, false, [], [], some 25)
Reach-IsCurrent_example = Reach-IsCurrent (pos 7) 10 came_back-Reach

abbrev playing : Roster ℕ
playing = record empty_roster { players = (pos 7, 25) ∷ [] }

-- A client of the same account authenticates while the character is online with changes that the
-- database does not have; then the first session ends, its final save runs, and the result is processed.
abbrev early : Roster ℕ
early = (auth_task (pos 7) ((pos 7, 10) ∷ []) playing).1

abbrev left_early : Roster ℕ
left_early = finalize_player true true (pos 7) 25 early

-- The database has 25, and the new player has 10.
stale_player :
    ((run_save_task second_try (pos 7) 25 ((pos 7, 10) ∷ []) left_early).0 ≡ ((pos 7, 25) ∷ []))
    × (get_player
          (pos 7)
          (process_auth_result
            (run_save_task second_try (pos 7) 25 ((pos 7, 10) ∷ []) left_early).1).1
        ≡ some 10)
unfolding auth_task is_final_player_data_save_pending process_auth_result add_player finalize_player
    submit_final_player_data_save remove_player run_save_task complete_final_player_data_save
    save_attempts get_player
stale_player = (refl, refl)
