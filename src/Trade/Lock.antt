-- ===== src/Trade/Lock.antt =====
-- What a session of TradeService.cpp is protected from once a participant is ready, and who trades with whom.
use ll2games_rpg_server.Common.{
  ℕ, ◌≡◌, refl, sym, ◌∙◌, ◌≢◌, false≢true, true, false, ◌||◌, not, Option, none, some, List, arith,
  if_cases, ◌==◌,
}
use ll2games_rpg_server.Common.Int.{ℤ, pos, leb_ℤ, ltb_ℤ, eqb_ℤ}
use ll2games_rpg_server.Common.Keys.{lookup, ℤ_eq, ℕ_eq}
use ll2games_rpg_server.InventoryManager.{
  Inventories, Items, ItemInitData, convert_item_type_to_inventory_type,
}
use ll2games_rpg_server.Trade.{TradeItem, TradeSession, Trades, get_target_player}
use ll2games_rpg_server.Trade.Offers.{
  upload_item, upload_parsed, upload_item_of, upload_at, parse_id,
}
use ll2games_rpg_server.Trade.Pairing.{IsPaired}

module _ (stoi : List ℕ → Option (ℤ × ℕ)) (to_string : ℤ → List ℕ) (items : Items)
    (bags : ℤ → Inventories) (id : ℤ) (address : ℕ) (s : TradeSession) (t : Trades)
    (at_id : lookup id t.sessions ≡ some address)
    (at_address : lookup address t.heap ≡ some s) where
  abbrev IsSame : {R : Type 0} → R × Trades → Type 0
  IsSame r = r.1 ≡ t

  upload_item_same :
      (item : TradeItem)
      → (s.a_ready || s.b_ready || s.executing) ≡ true
      → (upload_item stoi to_string items bags id item t).1 ≡ t
  unfolding upload_item
  upload_item_same item closed = parsed (parse_id stoi to_string items bags item.id)
    where
      at :
          (item_id type : ℤ)
          → (upload_at stoi to_string items bags id item_id type item address (some s) t).1 ≡ t
      at item_id type =
          if_cases IsSame (not (eqb_ℤ s.a_id id || eqb_ℤ s.b_id id)) (λ e. refl)
            λ e.
              if_cases IsSame (s.a_ready || s.b_ready || s.executing) (λ e. refl)
                (λ e. absurd (false≢true (sym e ∙ closed)))

      of :
          (item_id : ℤ) (o : Option ItemInitData)
          → (upload_item_of stoi to_string items bags id item_id item o t).1 ≡ t
      of item_id none = refl
      of item_id (some def) =
          rw (at_id, at_address) (at item_id (convert_item_type_to_inventory_type def.type))

      parsed : (o : Option ℤ) → (upload_parsed stoi to_string items bags id item o t).1 ≡ t
      parsed none = refl
      parsed (some item_id) =
          if_cases IsSame
            (leb_ℤ item_id (pos 0) || leb_ℤ item.amount (pos 0) || ltb_ℤ item.slot_index (pos 0))
            (λ e. refl) (λ e. of item_id (lookup item_id items))

  -- Once one participant is ready, `UploadItem` changes nothing for either.
  pub ready-locks :
      (item : TradeItem)
      → (s.a_ready || s.b_ready) ≡ true
      → (upload_item stoi to_string items bags id item t).1 ≡ t
  ready-locks item ready = upload_item_same item (ground arith)

-- In a table as it should be, for a session that points to two different player objects: while the two
-- participants are the objects that the session points to, each is the target of the other. A
-- participant that is another object, with the same id, is given `a_player` as the target.
pub get_target_player-symmetric :
    (id : ℤ) (player address : ℕ) (s : TradeSession) (t : Trades)
    → IsPaired t
    → lookup id t.sessions ≡ some address
    → lookup address t.heap ≡ some s
    → s.a_player ≢ s.b_player
    → (get_target_player s.a_player s.a_id t ≡ some s.b_player)
      × (get_target_player s.b_player s.b_id t ≡ some s.a_player)
      × (player ≢ s.a_player → get_target_player player id t ≡ some s.a_player)
unfolding get_target_player
get_target_player-symmetric id player address s t paired at_id at_address two =
    let (below, apart, at_a, at_b) = paired.mapped address s at_address in
    let own : (s.a_player == s.a_player) ≡ true = ground arith in
    let far : (s.a_player == s.b_player) ≡ false = ground arith in
    (
      rw (at_a, at_address, own),
      rw (at_b, at_address, far),
      λ other.
          let differs : (s.a_player == player) ≡ false = ground arith in
          rw (at_id, at_address, differs),
    )
