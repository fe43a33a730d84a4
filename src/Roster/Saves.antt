-- ===== src/Roster/Saves.antt =====
-- What a final save does to the data of a character.
use ll2games_rpg_server.Common.{
  ℕ, ◌≡◌, refl, sym, ap, subst, ◌∙◌, ◌≢◌, inl, inr, Bool, true, List, [], ◌∷◌, ◌++◌, arith,
  if◌then◌else◌, Bool-cases,
}
use ll2games_rpg_server.Common.Int.{ℤ, eqb_ℤ, eqb_ℤ_iff, eqb_ℤ_refl, eqb_ℤ_ne, ne_of_eqb_ℤ}
use ll2games_rpg_server.Common.Keys.{insert, ℤ_eq, lookup-insert, lookup-insert_self}
use ll2games_rpg_server.Roster.{
  removed, Attempted, save_attempts, complete_final_player_data_save, run_save_task,
}
use ll2games_rpg_server.Roster.Handover.{
  of_id, of_id-append, member-removed, Life, View, view, IsCurrent, online, saving, stored_only,
  entering,
}

pub split_one :
    {D : Type 0} (xs zs : List D) (y d : D) → xs ++ (y ∷ zs) ≡ d ∷ [] → (y ≡ d) × (xs ++ zs ≡ [])
split_one [] [] y d e = (ground arith, refl)
split_one [] (z ∷ zs) y d e = absurd (ground arith)
split_one (x ∷ []) zs y d e = absurd (ground arith)
split_one (x ∷ w ∷ xs) zs y d e = absurd (ground arith)

split_none : {D : Type 0} (xs zs : List D) (y : D) → xs ++ (y ∷ zs) ≢ []
split_none [] zs y e = absurd (ground arith)
split_none (x ∷ xs) zs y e = absurd (ground arith)

module _ {D : Type 0} where
  abbrev after_save : List (ℤ × D) → ℤ → D → Life D → Life D
  after_save tasks id player l = record l {
    database = insert id player l.database;
    roster = record l.roster { pending = removed id l.roster.pending; save_tasks = tasks };
  }

  saves_other :
      (k id : ℤ) (player : D) (before after : List (ℤ × D)) (l : Life D)
      → l.roster.save_tasks ≡ before ++ ((id, player) ∷ after)
      → id ≢ k
      → view k (after_save (before ++ after) id player l) ≡ view k l
  saves_other k id player before after l split other =
      let ne = eqb_ℤ_ne k id (λ h. other (sym h)) in
      let tasks : of_id k (before ++ after) ≡ of_id k l.roster.save_tasks = ground (
        arith,
        of_id-append k before after,
        of_id-append k before ((id, player) ∷ after),
        ap (of_id k) split,
      ) in
      ground (arith, lookup-insert k id player l.database, member-removed k id l.roster.pending)

  saves_own :
      (k : ℤ) (player : D) (before after : List (ℤ × D)) (l : Life D)
      → l.roster.save_tasks ≡ before ++ ((k, player) ∷ after)
      → (v : View D) → view k l ≡ v
      → IsCurrent l.latest v
      → IsCurrent l.latest (view k (after_save (before ++ after) k player l))
  saves_own k player before after l split v e now =
      let parts_of : of_id k l.roster.save_tasks ≡ of_id k before ++ (player ∷ of_id k after) =
        ap (of_id k) split
        ∙ of_id-append k before ((k, player) ∷ after)
        ∙ ap (λ (b : Bool). of_id k before ++ (if b then player ∷ of_id k after else of_id k after))
            (eqb_ℤ_refl k) in
      by_place v e now parts_of
    where
      by_place :
          (v : View D)
          → view k l ≡ v
          → IsCurrent l.latest v
          → of_id k l.roster.save_tasks ≡ of_id k before ++ (player ∷ of_id k after)
          → IsCurrent l.latest (view k (after_save (before ++ after) k player l))
      by_place v e (online stored) h =
          absurd (split_none (of_id k before) (of_id k after) player (sym h ∙ ground (arith, e)))
      by_place v e stored_only h =
          absurd (split_none (of_id k before) (of_id k after) player (sym h ∙ ground (arith, e)))
      by_place v e entering h =
          absurd (split_none (of_id k before) (of_id k after) player (sym h ∙ ground (arith, e)))
      by_place v e (saving stored) h =
          let (same, rest) =
            split_one (of_id k before) (of_id k after) player l.latest
              (sym h ∙ ground (arith, e)) in
          subst (IsCurrent l.latest)
            (sym (
              ground (
                arith,
                eqb_ℤ_refl k,
                lookup-insert_self k player l.database,
                member-removed k k l.roster.pending,
                of_id-append k before after,
              )))
            stored_only

  pub saves_lem :
      (k id : ℤ) (attempt : ℕ → Attempted) (player : D) (before after : List (ℤ × D)) (l : Life D)
      → l.roster.save_tasks ≡ before ++ ((id, player) ∷ after)
      → save_attempts 3 1 attempt ≡ true
      → IsCurrent l.latest (view k l)
      → IsCurrent l.latest (
          view k (record l {
            database = (run_save_task attempt id player l.database l.roster).0;
            roster = record (run_save_task attempt id player l.database l.roster).1 {
              save_tasks = before ++ after;
            };
          }))
  unfolding run_save_task complete_final_player_data_save
  saves_lem k id attempt player before after l split ok now =
      subst
        (λ (b : Bool). IsCurrent l.latest (
          view k (record l {
            database = if b then insert id player l.database else l.database;
            roster = record l.roster {
              pending = removed id l.roster.pending;
              save_tasks = before ++ after;
            };
          })))
        (sym ok)
        (elim (Bool-cases (eqb_ℤ id k)) [
          | inl e ↦
              let here = (eqb_ℤ_iff id k).0 e in
              subst
                (λ (j : ℤ). IsCurrent l.latest (view k (after_save (before ++ after) j player l)))
                (sym here)
                (saves_own k player before after l
                  (subst (λ (j : ℤ). l.roster.save_tasks ≡ before ++ ((j, player) ∷ after)) here
                    split)
                  (view k l) refl now)
          | inr e ↦
              subst (IsCurrent l.latest)
                (sym (saves_other k id player before after l split (ne_of_eqb_ℤ id k e))) now
        ])
