-- ===== src/Drops/Tests.antt =====
-- Drops at concrete inputs, and the theorem applied to them.
use ll2games_rpg_server.Common.{codes, ℕ, ◌≤◌, ◌≡◌, refl, false, [], ◌∷◌, length, arith}
use ll2games_rpg_server.Common.Int.{ℤ, pos, ◌≤ℤ◌, ◌+ℤ◌}
use ll2games_rpg_server.Drops.{
  gold, item, DropEntry, DropGroup, calculate_weight, select_entry, drop_loop, select_drop_item,
  set_drop_item,
}
use ll2games_rpg_server.Drops.Bounds.{IsDropOf, AllOf, select_drop_item-IsWithin}

-- The highest number of each range
abbrev highest : ℕ → ℤ → ℤ → ℤ
highest n low high = high

abbrev coins : DropEntry
coins = record {
  type = gold;
  item_id = pos 0;
  weight = pos 5;
  min_count = pos 1;
  max_count = pos 9;
}

abbrev sword : DropEntry
sword = record {
  type = item;
  item_id = pos 30;
  weight = pos 2;
  min_count = pos 1;
  max_count = pos 1;
}

abbrev chest : DropGroup
chest = record {
  min_drop = pos 1;
  max_drop = pos 3;
  allow_duplicate = false;
  entries = coins ∷ sword ∷ [];
}

-- Each entry drops once, although three drops are asked for.
both_drop :
    (select_drop_item highest chest 0 []).1
    ≡ record { type = item; item_id = pos 30; count = pos 1 }
      ∷ record { type = gold; item_id = pos 0; count = pos 9 }
      ∷ []
unfolding select_drop_item drop_loop select_entry calculate_weight ◌+ℤ◌
both_drop = refl

abbrev IsListed : DropEntry → Type 0
IsListed e = e.weight ≤ℤ pos 5

select_drop_item-IsWithin_example :
    (length (select_drop_item highest chest 0 []).1 ≤ 3)
    × AllOf (IsDropOf IsListed) (select_drop_item highest chest 0 []).1
select_drop_item-IsWithin_example =
    select_drop_item-IsWithin highest IsListed chest 0 (λ n low high h. (h, omega arith))
      (omega arith, (omega arith, tt))

unknown_group : set_drop_item highest [] [] (codes "slime") (codes "none") 0 ≡ ([], 0)
unfolding set_drop_item
unknown_group = refl
