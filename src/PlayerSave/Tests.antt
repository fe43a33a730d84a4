-- ===== src/PlayerSave/Tests.antt =====
-- Runs of PlayerDataSaveService.cpp on concrete inputs.
use ll2games_rpg_server.Common.{◌<◌, ◌≡◌, refl, ◌↔◌, true, false, ◌&&◌, ◌||◌, not, none, [], arith}
use ll2games_rpg_server.Common.Int.{pos}
use ll2games_rpg_server.Common.Keys.{ℤ_eq}
use ll2games_rpg_server.Player.{Player, idle, is_save_needed}
use ll2games_rpg_server.PlayerSave.{changed_times, save, save-keeps_changes}

-- A player that changed three times
abbrev changed : Player
changed = record {
  id = pos 1;
  state = idle;
  current_map = none;
  position = record { x = 0; y = 0 };
  gold = pos 100;
  stat = record {
    base = record { str = pos 4; dex = pos 4; intel = pos 4; luck = pos 4 };
    derived = record { max_hp = pos 50; max_mp = pos 20 };
    level = pos 1;
    exp = pos 0;
    cur_hp = pos 50;
    cur_mp = pos 20;
    remain_ap = pos 0;
  };
  stat_dirty = false;
  inventories = [];
  save_version = 3;
}

unsaved_before : (false || is_save_needed changed) ≡ true
unfolding is_save_needed
unsaved_before = refl

save-keeps_changes_example :
    let (ok, p') = save false true 2 changed in
    (ok ≡ true)
    × (true ≡ true → (is_save_needed p' ≡ true) ↔ (0 < 2))
    × (true ≡ false → p' ≡ changed_times 2 changed)
    × ((is_save_needed changed && not true) ≡ true → is_save_needed p' ≡ true)
save-keeps_changes_example = save-keeps_changes false true 2 changed (ground arith) unsaved_before
