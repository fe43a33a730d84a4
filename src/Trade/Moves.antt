-- ===== src/Trade/Moves.antt =====
-- `Execute` of TradeService.cpp moves items and makes or loses none, or does nothing.
use ll2games_rpg_server.Common.{
  ℕ, ◌≡◌, refl, sym, ap, subst, ◌∙◌, false≢true, Bool, true, false, Option, none, some, arith,
}
use ll2games_rpg_server.Common.Int.{ℤ, pos, ◌+ℤ◌, ◌-ℤ◌, ◌<ℤ◌, int_laws, parts}
use ll2games_rpg_server.Trade.Database.{Row, Place, Database, is_at, has_amount}
use ll2games_rpg_server.Trade.Execute.{one_row}
use ll2games_rpg_server.Trade.Tables.{
  total, gain, AllRows, IsPositive, IsPositiveOff, total-updated, total-deleted, deleted-IsPositive,
  total-append, taken-IsPositiveOff, given-IsPositive, append-IsPositive,
}

one_row-some : (o : Option ℕ) → one_row o ≡ true → o ≡ some 1
one_row-some none h = absurd (ground arith)
one_row-some (some n) h = ap some (ground arith)

abbrev pub row_at : Place → ℤ → Row
row_at p amount = record {
  char_id = p.char_id;
  inventory_type = p.inventory_type;
  slot_pos = p.slot_pos;
  item_id = p.item_id;
  item_count = amount;
}

module _ (db : Database) where
  -- What a part of the transaction does, which returned `ok`: others see nothing of it, and if it
  -- succeeds it keeps every count positive and changes the totals as given.
  pub record Moves (c : db.Connection) (ok : Bool) (c' : db.Connection) (change : ℤ → ℤ → ℤ)
      : Type 0 where
    pub hidden : db.committed c' ≡ db.committed c
    pub positive : ok ≡ true → AllRows IsPositive (db.rows c) → AllRows IsPositive (db.rows c')
    pub totals :
        (t i : ℤ)
        → ok ≡ true
        → AllRows IsPositive (db.rows c)
        → total t i (db.rows c') ≡ total t i (db.rows c) +ℤ change t i

  pub failed-Moves :
      (c c' : db.Connection) (change : ℤ → ℤ → ℤ)
      → db.committed c' ≡ db.committed c
      → Moves c false c' change
  failed-Moves c c' change h = record {
    hidden = h;
    positive = λ f. absurd (false≢true f);
    totals = λ t i f. absurd (false≢true f);
  }

  pub after-Moves :
      (c c' c'' : db.Connection) (ok : Bool) (f g : ℤ → ℤ → ℤ)
      → Moves c true c' f
      → Moves c' ok c'' g
      → Moves c ok c'' (λ t i. f t i +ℤ g t i)
  after-Moves c c' c'' ok f g first then' = record {
    hidden = then'.hidden ∙ first.hidden;
    positive = λ h all. then'.positive h (first.positive refl all);
    totals = λ t i h all.
        sum (total t i (db.rows c'')) (total t i (db.rows c')) (total t i (db.rows c)) (f t i)
          (g t i) (then'.totals t i h (first.positive refl all)) (first.totals t i refl all);
  }
    where
      sum : (x y z a b : ℤ) → x ≡ y +ℤ b → y ≡ z +ℤ a → x ≡ z +ℤ (a +ℤ b)
      sum x y z a b e h = omega (int_laws, parts e, parts h)

  -- `DecreaseItem` after its checks
  pub taken-Moves :
      (p : Place) (amount : ℤ) (c : db.Connection)
      → one_row (db.take_items p amount c).0 ≡ true
      → Moves c
          (db.delete_items p (db.take_items p amount c).1).0
          (db.delete_items p (db.take_items p amount c).1).1
          (λ t i. gain t i p (pos 0 -ℤ amount))
  taken-Moves p amount c one =
      let c1 = (db.take_items p amount c).1 in
      let (taken, count) = db.take_rows p amount 1 c (one_row-some _ one) in
      record {
        hidden = db.delete_hidden p c1 ∙ db.take_hidden p amount c;
        positive = λ h all. subst (AllRows IsPositive) (sym (db.delete_rows p c1 h)) (
            deleted-IsPositive p (db.rows c1) (
              subst (AllRows (IsPositiveOff p)) (sym taken)
                (taken-IsPositiveOff p amount (db.rows c) all)));
        totals = λ t i h all.
            ap (total t i) (db.delete_rows p c1 h)
            ∙ total-deleted t i p (db.rows c1) (
                subst (AllRows (IsPositiveOff p)) (sym taken)
                  (taken-IsPositiveOff p amount (db.rows c) all))
            ∙ ap (total t i) taken
            ∙ total-updated t i p (has_amount p amount) (pos 0 -ℤ amount) (λ r e. ground arith)
                (db.rows c) (sym count);
      }

  pub given-Moves :
      (p : Place) (amount : ℤ) (c : db.Connection)
      → pos 0 <ℤ amount
      → Moves c
          (one_row (db.give_items p amount c).0)
          (db.give_items p amount c).1
          (λ t i. gain t i p amount)
  given-Moves p amount c more = record {
    hidden = db.give_hidden p amount c;
    positive = λ h all.
        subst (AllRows IsPositive) (sym (db.give_rows p amount 1 c (one_row-some _ h)).0)
          (given-IsPositive (is_at p) amount (db.rows c) more all);
    totals = λ t i h all.
        let (given, count) = db.give_rows p amount 1 c (one_row-some _ h) in
        ap (total t i) given
        ∙ total-updated t i p (is_at p) amount (λ r e. e) (db.rows c) (sym count);
  }

  pub inserted-Moves :
      (p : Place) (amount : ℤ) (c : db.Connection)
      → pos 0 <ℤ amount
      → Moves c
          (db.insert_item (row_at p amount) c).0
          (db.insert_item (row_at p amount) c).1
          (λ t i. gain t i p amount)
  inserted-Moves p amount c more = record {
    hidden = db.insert_hidden (row_at p amount) c;
    positive = λ h all.
        subst (AllRows IsPositive) (sym (db.insert_rows (row_at p amount) c h))
          (append-IsPositive (db.rows c) (row_at p amount) more all);
    totals = λ t i h all.
        ap (total t i) (db.insert_rows (row_at p amount) c h)
        ∙ total-append t i (db.rows c) (row_at p amount);
  }
