-- ===== src/Trade/Atomic.antt =====
-- What each part of the transaction of `Execute` in TradeService.cpp does to the number of items.
use ll2games_rpg_server.Common.{
  ℕ, ◌≡◌, refl, sym, ap, ap₂, subst, ◌∙◌, Bool, true, false, ◌&&◌, ◌||◌, not, Option, none, some,
  List, arith, if◌then◌else◌, if_cases, not-false, none≢some, ◌∷◌, [],
}
use ll2games_rpg_server.Common.Int.{ℤ, pos, ◌+ℤ◌, ◌-ℤ◌, ◌<ℤ◌, ltb_ℤ, leb_ℤ, eqb_ℤ, int_laws}
use ll2games_rpg_server.Trade.{TradeItem, TradeExecuteData}
use ll2games_rpg_server.Trade.Database.{Row, Database}
use ll2games_rpg_server.Trade.Execute.{
  one_row, update_inventory_item_count_minus, update_inventory_item_count_plus, item_numbers,
  numbers, place, take_out, decrease_parsed, decrease_item, put_new, put_in, increase_parsed,
  increase_item, move_item, move_items, exchange,
}
use ll2games_rpg_server.Trade.Tables.{total, gain, AllRows, IsPositive}
use ll2games_rpg_server.Trade.Moves.{
  Moves, failed-Moves, after-Moves, taken-Moves, given-Moves, inserted-Moves, row_at,
}

module _ (db : Database) where
  same-Moves :
      (c c' : db.Connection) (ok : Bool) (f g : ℤ → ℤ → ℤ)
      → ((t i : ℤ) → f t i ≡ g t i)
      → Moves db c ok c' f
      → Moves db c ok c' g
  same-Moves c c' ok f g e m = record {
    hidden = m.hidden;
    positive = m.positive;
    totals = λ t i h all. m.totals t i h all ∙ ap (◌+ℤ◌ (total t i (db.rows c))) (e t i);
  }

  -- A query before a part of the transaction
  looked-Moves :
      (c c1 c' : db.Connection) (ok : Bool) (f : ℤ → ℤ → ℤ)
      → db.rows c1 ≡ db.rows c
      → db.committed c1 ≡ db.committed c
      → Moves db c1 ok c' f
      → Moves db c ok c' f
  looked-Moves c c1 c' ok f same hidden m = record {
    hidden = m.hidden ∙ hidden;
    positive = λ h all. m.positive h (subst (AllRows IsPositive) (sym same) all);
    totals = λ t i h all.
        m.totals t i h (subst (AllRows IsPositive) (sym same) all)
        ∙ ap (λ (rows : List Row). total t i rows +ℤ f t i) same;
  }

  take_out-Moves :
      (char type id : ℤ) (item : TradeItem) (c : db.Connection)
      → Moves db c
          (take_out db char type id item c).0
          (take_out db char type id item c).1
          (λ t i. gain t i (place char type item.slot_index id) (pos 0 -ℤ item.amount))
  unfolding update_inventory_item_count_minus
  take_out-Moves char type id item c =
      if_cases After
        (leb_ℤ char (pos 0)
          || leb_ℤ id (pos 0)
          || ltb_ℤ type (pos 0)
          || ltb_ℤ item.slot_index (pos 0)
          || leb_ℤ item.amount (pos 0))
        (λ e. failed-Moves db c c _ refl)
        λ e.
          if_cases After
            (not (one_row (db.take_items (place char type item.slot_index id) item.amount c).0))
            (λ f.
              failed-Moves db c _ _
                (db.take_hidden (place char type item.slot_index id) item.amount c))
            λ f. taken-Moves db (place char type item.slot_index id) item.amount c (not-false f)
    where
      After : Bool × db.Connection → Type 0
      After r =
          Moves db c r.0 r.1
            (λ t i. gain t i (place char type item.slot_index id) (pos 0 -ℤ item.amount))

  put_in-Moves :
      (char type id : ℤ) (item : TradeItem) (o : Option (Option ℤ)) (c : db.Connection)
      → pos 0 <ℤ item.amount
      → Moves db c
          (put_in db char type id item o c).0
          (put_in db char type id item o c).2
          (λ t i. gain t i (place char type (pos 0) id) item.amount)
  unfolding update_inventory_item_count_plus
  put_in-Moves char type id item none c more = failed-Moves db c c _ refl
  put_in-Moves char type id item (some (some slot)) c more =
      given-Moves db (place char type slot id) item.amount c more
  put_in-Moves char type id item (some none) c more = by_slot (db.select_next_slot char type c).0
    where
      c1 : db.Connection
      c1 = (db.select_next_slot char type c).1

      After : Bool × TradeItem × db.Connection → Type 0
      After r = Moves db c r.0 r.2 (λ t i. gain t i (place char type (pos 0) id) item.amount)

      by_slot : (o : Option ℤ) → After (put_new db char type id item o c1)
      by_slot none = failed-Moves db c c1 _ (db.next_hidden char type c)
      by_slot (some slot) =
          if_cases After (not (db.insert_item (row_at (place char type slot id) item.amount) c1).0)
            (λ e. failed-Moves db c _ _ (db.insert_hidden _ c1 ∙ db.next_hidden char type c))
            λ e.
              looked-Moves c c1 _ true _ (db.next_rows char type c) (db.next_hidden char type c) (
                subst
                  (λ (b : Bool).
                    Moves db c1 b
                      (db.insert_item (row_at (place char type slot id) item.amount) c1).1
                      (λ t i. gain t i (place char type slot id) item.amount))
                  (not-false e) (inserted-Moves db (place char type slot id) item.amount c1 more))

  increase_parsed-Moves :
      (char type id : ℤ) (item : TradeItem) (c : db.Connection)
      → Moves db c
          (increase_parsed db (some (char, type, id)) item c).0
          (increase_parsed db (some (char, type, id)) item c).2
          (λ t i. gain t i (place char type (pos 0) id) item.amount)
  increase_parsed-Moves char type id item c =
      if_cases After
        (leb_ℤ char (pos 0) || ltb_ℤ type (pos 0) || leb_ℤ id (pos 0) || leb_ℤ item.amount (pos 0))
        (λ e. failed-Moves db c c _ refl)
        λ e.
          looked-Moves c (db.select_slot char type id c).1 _ _ _ (db.slot_rows char type id c)
            (db.slot_hidden char type id c)
            (put_in-Moves char type id item (db.select_slot char type id c).0
              (db.select_slot char type id c).1 (ground arith))
    where
      After : Bool × TradeItem × db.Connection → Type 0
      After r = Moves db c r.0 r.2 (λ t i. gain t i (place char type (pos 0) id) item.amount)

abbrev pub nothing : ℤ → ℤ → ℤ
nothing t i = pos 0

-- An item is parsed to the same type and id for both players.
same_numbers :
    (g k type id : Option (ℤ × ℕ)) {a b t t' i i' : ℤ}
    → item_numbers g type id ≡ some (a, t, i)
    → item_numbers k type id ≡ some (b, t', i')
    → (t ≡ t') × (i ≡ i')
same_numbers (some g) (some k) (some type) (some id) e f = (ground arith, ground arith)
same_numbers none k type id e f = absurd (none≢some e)
same_numbers (some g) none type id e f = absurd (none≢some f)
same_numbers (some g) (some k) none id e f = absurd (none≢some e)
same_numbers (some g) (some k) (some type) none e f = absurd (none≢some e)

gain_cancels :
    (b : Bool) (x : ℤ) → (if b then pos 0 -ℤ x else pos 0) +ℤ (if b then x else pos 0) ≡ pos 0
gain_cancels true x = omega int_laws
gain_cancels false x = omega int_laws

module _ (db : Database) (stoi : List ℕ → Option (ℤ × ℕ)) (stoll : List ℕ → Option (ℤ × ℕ)) where
  move_item-Moves :
      (giver taker : List ℕ) (item : TradeItem) (c : db.Connection)
      → Moves db c
          (move_item db stoi stoll giver taker item c).0
          (move_item db stoi stoll giver taker item c).2
          nothing
  unfolding decrease_item increase_item
  move_item-Moves giver taker item c =
      by_numbers (numbers db stoi stoll giver item) (numbers db stoi stoll taker item) refl refl
    where
      Numbers : Type 0
      Numbers = Option (ℤ × ℤ × ℤ)

      moved : Numbers → Numbers → Bool × TradeItem × db.Connection
      moved n m =
          let (ok, c') = decrease_parsed db n item c in
          if not ok then (false, item, c') else increase_parsed db m item c'

      After : Bool × TradeItem × db.Connection → Type 0
      After r = Moves db c r.0 r.2 nothing

      by_numbers :
          (n m : Numbers)
          → numbers db stoi stoll giver item ≡ n
          → numbers db stoi stoll taker item ≡ m
          → After (moved n m)
      by_numbers none m e f = failed-Moves db c c _ refl
      by_numbers (some (a, t, i)) none e f =
          let out = take_out-Moves db a t i item c in
          if_cases After (not (take_out db a t i item c).0) (λ g. failed-Moves db c _ _ out.hidden)
            λ g. failed-Moves db c _ _ out.hidden
      by_numbers (some (a, t, i)) (some (b, t', i')) e f =
          let out = take_out-Moves db a t i item c in
          let (same_t, same_i) =
            same_numbers (stoll giver) (stoll taker) (stoi item.type) (stoi item.id) e f in
          let c1 = (take_out db a t i item c).1 in
          if_cases After (not (take_out db a t i item c).0) (λ g. failed-Moves db c _ _ out.hidden)
            λ g.
              same-Moves db c _ _ _ nothing
                (λ u v.
                  ap (λ (x : ℤ). gain u v (place a t item.slot_index i) (pos 0 -ℤ item.amount) +ℤ x)
                    (sym
                      (ap₂ (λ (x y : ℤ). gain u v (place b x (pos 0) y) item.amount) same_t same_i))
                  ∙ gain_cancels (eqb_ℤ t u && eqb_ℤ i v) item.amount)
                (after-Moves db c c1 _ _ _ _
                  (subst
                    (λ (k : Bool).
                      Moves db c k c1
                        (λ u v. gain u v (place a t item.slot_index i) (pos 0 -ℤ item.amount)))
                    (not-false g) out)
                  (increase_parsed-Moves db b t' i' item c1))

  move_items-Moves :
      (giver taker : List ℕ) (items : List TradeItem) (c : db.Connection)
      → Moves db c
          (move_items db stoi stoll giver taker items c).0
          (move_items db stoi stoll giver taker items c).2
          nothing
  unfolding move_items ◌+ℤ◌
  move_items-Moves giver taker [] c = record {
    hidden = refl;
    positive = λ h all. all;
    totals = λ t i h all. plus_zero (total t i (db.rows c));
  }
    where
      plus_zero : (x : ℤ) → x ≡ x +ℤ pos 0
      plus_zero x = omega int_laws
  move_items-Moves giver taker (item ∷ items) c =
      let one = move_item-Moves giver taker item c in
      let c1 = (move_item db stoi stoll giver taker item c).2 in
      let later = move_items-Moves giver taker items c1 in
      if_cases After (not (move_item db stoi stoll giver taker item c).0)
        (λ g. failed-Moves db c c1 nothing one.hidden)
        λ g.
          same-Moves db c _ _ _ nothing (λ t i. refl)
            (after-Moves db c c1 _ _ nothing nothing
              (subst (λ (k : Bool). Moves db c k c1 nothing) (not-false g) one) later)
    where
      After : Bool × List TradeItem × db.Connection → Type 0
      After r = Moves db c r.0 r.2 nothing

  pub exchange-Moves :
      (to_string : ℤ → List ℕ) (data' : TradeExecuteData) (c : db.Connection)
      → Moves db c
          (exchange db stoi stoll to_string data' c).0
          (exchange db stoi stoll to_string data' c).2
          nothing
  unfolding ◌+ℤ◌
  exchange-Moves to_string data' c =
      let a = to_string data'.a_id in
      let b = to_string data'.b_id in
      let first = move_items-Moves a b data'.a_items c in
      let c1 = (move_items db stoi stoll a b data'.a_items c).2 in
      if_cases After (not (move_items db stoi stoll a b data'.a_items c).0)
        (λ g. failed-Moves db c c1 nothing first.hidden)
        λ g.
          same-Moves db c _ _ _ nothing (λ t i. refl)
            (after-Moves db c c1 _ _ nothing nothing
              (subst (λ (k : Bool). Moves db c k c1 nothing) (not-false g) first)
              (move_items-Moves b a data'.b_items c1))
    where
      After : Bool × TradeExecuteData × db.Connection → Type 0
      After r = Moves db c r.0 r.2 nothing
