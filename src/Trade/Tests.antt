-- ===== src/Trade/Tests.antt =====
-- Runs of TradeService.cpp on concrete inputs.
use ll2games_rpg_server.Common.{
  ℕ, ◌≡◌, refl, ◌≢◌, true, false, Option, none, some, List, [], ◌∷◌, arith,
}
use ll2games_rpg_server.Common.Int.{ℤ, pos, pos_part}
use ll2games_rpg_server.Common.Keys.{lookup, ℤ_eq, ℕ_eq}
use ll2games_rpg_server.InventoryManager.{Inventories}
use ll2games_rpg_server.Player.{Player, idle, is_alive}
use ll2games_rpg_server.Trade.{
  TradeItem, TradeSession, Trades, start, create_trade_session, cancel, fault, answers,
  get_target_player, new_session, store,
}
use ll2games_rpg_server.Trade.Offers.{
  upload_item, ready_begin, ready_end, validate_trade_items, tally_all,
}
use ll2games_rpg_server.Trade.Pairing.{IsPaired}
use ll2games_rpg_server.Trade.Reach.{
  Reach, begins, starts, readies, no_trades, Reach-IsPaired, Reach-no_fault,
}
use ll2games_rpg_server.Trade.Executing.{call_start, call_cancel, no_call, Calls-IsRunning}
use ll2games_rpg_server.Trade.Running.{IsRunning}
use ll2games_rpg_server.Trade.Lock.{get_target_player-symmetric}

-- Ids of one byte
abbrev stoi : List ℕ → Option (ℤ × ℕ)
stoi [] = none
stoi (c ∷ cs) = some (pos c, 1)

abbrev to_string : ℤ → List ℕ
to_string n = pos_part n ∷ []

abbrev empty_bags : ℤ → Inventories
empty_bags id = []

abbrev trader : ℤ → Player
trader id = record {
  id = id;
  state = idle;
  current_map = some (record { map_id = 2; npc_spawns = [] });
  position = record { x = 0; y = 0 };
  gold = pos 0;
  stat = record {
    base = record { str = pos 4; dex = pos 4; intel = pos 4; luck = pos 4 };
    derived = record { max_hp = pos 50; max_mp = pos 20 };
    level = pos 1;
    exp = pos 0;
    cur_hp = pos 50;
    cur_mp = pos 20;
    remain_ap = pos 0;
  };
  stat_dirty = false;
  inventories = [];
  save_version = 0;
}

abbrev one_trade : Trades
one_trade = (start 40 (trader (pos 1)) 41 (trader (pos 2)) no_trades).1

begun : Reach stoi to_string [] one_trade
begun = starts 40 41 (trader (pos 1)) (trader (pos 2)) begins

abbrev potion : TradeItem
potion = record { id = 5 ∷ []; type = []; amount = pos 1; slot_index = pos 0 }

Reach-IsPaired_example : IsPaired one_trade
Reach-IsPaired_example = Reach-IsPaired stoi to_string [] {t = one_trade} begun

Reach-no_fault_example :
    ((start 40 (trader (pos 1)) 42 (trader (pos 3)) one_trade).0 ≢ fault)
    × ((upload_item stoi to_string [] empty_bags (pos 1) potion one_trade).0 ≢ fault)
    × ((ready_begin stoi to_string [] empty_bags (pos 1) one_trade).0 ≢ answers fault)
    × ((ready_end (pos 1) 0 false one_trade).0 ≢ fault)
    × ((cancel (pos 1) one_trade).0 ≢ fault)
Reach-no_fault_example =
    Reach-no_fault stoi to_string [] {t = one_trade} empty_bags 40 42 (trader (pos 1))
      (trader (pos 3)) (pos 1) potion 0 false begun

at_1 : lookup (pos 1) one_trade.sessions ≡ some 0
unfolding start create_trade_session is_alive
at_1 = refl

at_0 : lookup 0 one_trade.heap ≡ some (new_session 40 (pos 1) 41 (pos 2))
unfolding start create_trade_session is_alive
at_0 = refl

get_target_player-symmetric_example :
    (get_target_player 40 (pos 1) one_trade ≡ some 41)
    × (get_target_player 41 (pos 2) one_trade ≡ some 40)
    × (◌≢◌ {A = ℕ} 50 40 → get_target_player 50 (pos 1) one_trade ≡ some 40)
get_target_player-symmetric_example =
    get_target_player-symmetric (pos 1) 50 0 (new_session 40 (pos 1) 41 (pos 2)) one_trade
      (Reach-IsPaired stoi to_string [] {t = one_trade} begun) at_1 at_0
      (λ e. absurd (ground arith))

-- Player 1 leaves while the trade is open and comes back as a new object at 50: the entry is still
-- there, and the target is the player's own deleted object.
stale_target : get_target_player 50 (pos 1) one_trade ≡ some 40
unfolding get_target_player start create_trade_session is_alive
stale_target = refl

-- A trade of 1 and 2 that runs
abbrev running : TradeSession
running = record {
  a_player = 40;
  b_player = 41;
  a_id = pos 1;
  b_id = pos 2;
  a_ready = true;
  b_ready = true;
  executing = true;
  a_items = [];
  b_items = [];
}

-- Both are ready, and `Execute` runs.
abbrev busy : Trades
busy =
    (ready_begin stoi to_string [] empty_bags (pos 2)
      (ready_begin stoi to_string [] empty_bags (pos 1) one_trade).1).1

busy-Reach : Reach stoi to_string [] busy
busy-Reach = readies empty_bags (pos 2) (readies empty_bags (pos 1) begun)

at_busy : lookup 0 busy.heap ≡ some running
unfolding start create_trade_session is_alive ready_begin store validate_trade_items tally_all
at_busy = refl

-- Meanwhile player 2 cancels, and player 1 accepts another trade.
abbrev bothered : Trades
bothered = (start 42 (trader (pos 3)) 40 (trader (pos 1)) (cancel (pos 2) busy).1).1

Calls-IsRunning_example : IsRunning 0 running bothered
Calls-IsRunning_example =
    Calls-IsRunning stoi to_string [] 0 {t = busy} running
      (Reach-IsPaired stoi to_string [] {t = busy} busy-Reach) at_busy refl
      (call_start 42 40 (trader (pos 3)) (trader (pos 1)) (call_cancel (pos 2) no_call))
