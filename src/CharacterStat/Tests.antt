-- ===== src/CharacterStat/Tests.antt =====
-- Runs of CharacterStat.cpp on concrete inputs.
use ll2games_rpg_server.Common.{ℕ, ◌*◌, ◌≡◌, refl, ◌≢◌, ◌↔◌, true, arith, if◌then◌else◌}
use ll2games_rpg_server.Common.Int.{◌-ℤ◌, to_int, to_int64, ltb_ℤ, ℤ, pos, ◌+ℤ◌, ◌≤ℤ◌}
use ll2games_rpg_server.Common.Keys.{ℤ_eq, ℕ_eq}
use ll2games_rpg_server.CharacterStat.{CharacterStat, add_exp, gain_level}
use ll2games_rpg_server.CharacterStat.Levels.{IsSettled, Rises, add_exp-IsSettled}

-- Every level below 9 needs 10, and the table ends there.
abbrev ten_each : ℤ → ℤ
ten_each level = if ltb_ℤ level (pos 9) then pos 10 else pos 0

abbrev beginner : CharacterStat
beginner = record {
  base = record { str = pos 4; dex = pos 4; intel = pos 4; luck = pos 4 };
  derived = record { max_hp = pos 50; max_mp = pos 20 };
  level = pos 1;
  exp = pos 3;
  cur_hp = pos 7;
  cur_mp = pos 2;
  remain_ap = pos 0;
}

add_exp-two_levels : (add_exp ten_each (pos 25) beginner).1.level ≡ pos 3
unfolding add_exp gain_level ◌+ℤ◌ ◌-ℤ◌ to_int to_int64
add_exp-two_levels = refl

nothing_after : (l : ℤ) → pos 9 ≤ℤ l → ten_each l ≤ℤ pos 0
nothing_after l h = ground arith

add_exp-IsSettled_example :
    let (result, s') = add_exp ten_each (pos 25) beginner in
    IsSettled ten_each s'
    × (pos 0 ≤ℤ s'.exp)
    × (s'.base ≡ beginner.base)
    × ((n : ℕ) × Rises ten_each n (record beginner { exp = pos 3 +ℤ pos 25 }) s'
        × (s'.level ≡ pos 1 +ℤ pos n)
        × (s'.remain_ap ≡ pos 0 +ℤ pos (5 * n))
        × ((result.level_up ≡ true) ↔ (n ≢ 0)))
unfolding ◌+ℤ◌
add_exp-IsSettled_example =
    add_exp-IsSettled ten_each (pos 9) (pos 25) beginner (omega arith, nothing_after)
      (omega arith, omega arith, omega arith) (omega arith) (omega arith) (omega arith)
