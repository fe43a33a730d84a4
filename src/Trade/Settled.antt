-- ===== src/Trade/Settled.antt =====
-- The transaction of `Execute` in TradeService.cpp as a whole.
mod Tests
use ll2games_rpg_server.Common.{
  ℕ, ◌≡◌, refl, sym, ap, subst, ◌∙◌, Bool, true, false, not, Option, List, arith, if_cases,
  not-false, false≢true, Bool-cases, inl, inr,
}
use ll2games_rpg_server.Common.Int.{ℤ, pos, ◌+ℤ◌, int_laws}
use ll2games_rpg_server.Trade.{TradeExecuteData}
use ll2games_rpg_server.Trade.Database.{Database}
use ll2games_rpg_server.Trade.Execute.{conclude, roll_back, released, Returned, execute}
use ll2games_rpg_server.Trade.Tables.{total, AllRows, IsPositive}
use ll2games_rpg_server.Trade.Moves.{Moves}
use ll2games_rpg_server.Trade.Atomic.{nothing, exchange-Moves}

module _ (db : Database) where
  -- The end of a transaction on a table with the committed rows of `c`: a connection that goes back to the
  -- pool has no changes pending, a failure has committed nothing, and a success loses no item.
  abbrev IsConcluded : db.Connection → Bool × Returned × db.Connection → Type 0
  IsConcluded c r =
      (r.1 ≡ released → db.rows r.2 ≡ db.committed r.2)
      × (r.0 ≡ false → r.1 ≡ released → db.committed r.2 ≡ db.committed c)
      × (r.0 ≡ true
          → AllRows IsPositive (db.committed c)
          → AllRows IsPositive (db.committed r.2)
            × ((t i : ℤ) → total t i (db.committed r.2) ≡ total t i (db.committed c)))

  roll_back-IsConcluded :
      (c c2 : db.Connection)
      → ((db.rollback c2).0 ≡ true → db.committed c2 ≡ db.committed c)
      → IsConcluded c (roll_back db c2)
  roll_back-IsConcluded c c2 hidden =
      if_cases (IsConcluded c) (not (db.rollback c2).0)
        (λ e. (
          (λ g. absurd (ground arith)),
          (λ f g. absurd (ground arith)),
          λ f. absurd (false≢true f),
        ))
        λ e.
          let (seen, kept) = db.rollback_rows c2 (not-false e) in
          ((λ g. seen ∙ sym kept), (λ f g. kept ∙ hidden (not-false e)), λ f. absurd (false≢true f))

  concluded_lem :
      (c c2 : db.Connection) (ok : Bool)
      → (db.rows c ≡ db.committed c)
      → Moves db c ok c2 nothing
      → IsConcluded c (conclude db ok c2)
  unfolding conclude
  concluded_lem c c2 false began m = roll_back-IsConcluded c c2 (λ e. m.hidden)
  concluded_lem c c2 true began m =
      let c3 = (db.commit c2).1 in
      elim (Bool-cases (db.commit c2).0) [
        | inl done ↦
            let (seen, kept) = db.commit_rows c2 done in
            rw done (
              (λ g. seen ∙ sym kept),
              (λ f g. absurd (false≢true (sym f))),
              λ f all. (
                subst (AllRows IsPositive) (sym kept)
                    (m.positive refl (subst (AllRows IsPositive) (sym began) all)),
                λ t i.
                    ap (total t i) kept
                    ∙ m.totals t i refl (subst (AllRows IsPositive) (sym began) all)
                    ∙ plus_zero (total t i (db.rows c))
                    ∙ ap (total t i) began,
              ),
            )
        | inr failed ↦
            rw failed (roll_back-IsConcluded c c3 (λ e. db.commit_refused c2 failed e ∙ m.hidden))
      ]
    where
      plus_zero : (x : ℤ) → x +ℤ pos 0 ≡ x
      plus_zero x = omega int_laws

-- A connection that `Execute` gives back to the pool has no changes of the trade pending, whatever
-- `Execute` returns: it sees what is committed. Where `Execute` returns -1 it has moreover changed
-- nothing that others see in the database, whichever statement, check or commit failed.
pub execute-rolls_back :
    (db : Database) (stoi stoll : List ℕ → Option (ℤ × ℕ)) (to_string : ℤ → List ℕ)
    (data' : TradeExecuteData) (c : db.Connection)
    → (execute db stoi stoll to_string data' c).0.1 ≡ released
    → let (result, returned, c') = (execute db stoi stoll to_string data' c).0 in
      (db.rows c' ≡ db.committed c') × (result ≡ false → db.committed c' ≡ db.committed c)
unfolding execute
execute-rolls_back db stoi stoll to_string data' c =
    if_cases After (not (db.start_transaction c).0) (λ e g. absurd (ground arith))
      λ e g.
        let (same, hidden) = db.start_rows c (not-false e) in
        let ends =
          concluded_lem db (db.start_transaction c).1 _ _ (same ∙ sym hidden)
            (exchange-Moves db stoi stoll to_string data' (db.start_transaction c).1) in
        (ends.0 g, λ f. ends.1 f g ∙ hidden)
  where
    After : (Bool × Returned × db.Connection) × TradeExecuteData → Type 0
    After r =
        r.0.1 ≡ released
        → (db.rows r.0.2 ≡ db.committed r.0.2)
          × (r.0.0 ≡ false → db.committed r.0.2 ≡ db.committed c)

-- `Execute` that returns 0, from a table whose counts are all positive, leaves a table whose counts are
-- all positive, with as many items of each inventory type and item id as before: the exchange makes
-- and loses none.
pub execute-conserves :
    (db : Database) (stoi stoll : List ℕ → Option (ℤ × ℕ)) (to_string : ℤ → List ℕ)
    (data' : TradeExecuteData) (c : db.Connection)
    → AllRows IsPositive (db.committed c)
    → (execute db stoi stoll to_string data' c).0.0 ≡ true
    → AllRows IsPositive (db.committed (execute db stoi stoll to_string data' c).0.2)
      × ((t i : ℤ)
          → total t i (db.committed (execute db stoi stoll to_string data' c).0.2)
            ≡ total t i (db.committed c))
unfolding execute
execute-conserves db stoi stoll to_string data' c all =
    if_cases After (not (db.start_transaction c).0) (λ e f. absurd (false≢true f))
      λ e f.
        let (same, hidden) = db.start_rows c (not-false e) in
        let (kept, totals) =
          (concluded_lem db (db.start_transaction c).1 _ _ (same ∙ sym hidden)
              (exchange-Moves db stoi stoll to_string data' (db.start_transaction c).1)).2
            f (subst (AllRows IsPositive) (sym hidden) all) in
        (kept, λ t i. totals t i ∙ ap (total t i) hidden)
  where
    After : (Bool × Returned × db.Connection) × TradeExecuteData → Type 0
    After r =
        r.0.0 ≡ true
        → AllRows IsPositive (db.committed r.0.2)
          × ((t i : ℤ) → total t i (db.committed r.0.2) ≡ total t i (db.committed c))
