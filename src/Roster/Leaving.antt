-- ===== src/Roster/Leaving.antt =====
-- What play and the end of a session do to the data of a character.
use ll2games_rpg_server.Common.{
  ◌≡◌, refl, sym, subst, Bool, true, false, Option, none, some, List, [], ◌∷◌, ◌++◌, arith, ◌≢◌,
  some_inj, if_cases, ap, ◌∙◌, append_nil,
}
use ll2games_rpg_server.Common.Int.{ℤ, pos, ◌<ℤ◌, eqb_ℤ_refl, leb_ℤ, eqb_ℤ_ne}
use ll2games_rpg_server.Common.Keys.{
  lookup, insert, ℤ_eq, lookup-insert_self, erase, lookup-erase, lookup-insert_ne, lookup-erase_ne,
}
use ll2games_rpg_server.Roster.{
  Roster, member, finalize_player, submit_final_player_data_save, remove_player, remove_found,
}
use ll2games_rpg_server.Roster.Handover.{
  of_id, of_id-append, member-removed, Life, View, view, IsCurrent, online, saving, stored_only,
  entering,
}

module _ {D : Type 0} where
  pub plays_lem :
      (k : ℤ) (old new : D) (l : Life D)
      → lookup k l.roster.players ≡ some old
      → IsCurrent l.latest (view k l)
      → IsCurrent new (
          view k (record l {
            roster = record l.roster { players = insert k new l.roster.players };
            latest = new;
          }))
  plays_lem k old new l found now = from (view k l) refl now
    where
      from :
          (v : View D)
          → view k l ≡ v
          → IsCurrent l.latest v
          → IsCurrent new (
              view k (record l {
                roster = record l.roster { players = insert k new l.roster.players };
                latest = new;
              }))
      from v e (online stored) =
          subst (IsCurrent new) (sym (ground (arith, lookup-insert_self k new l.roster.players)))
            (online stored)
      from v e (saving stored) = absurd (ground arith)
      from v e stored_only = absurd (ground arith)
      from v e entering = absurd (ground arith)

  abbrev with_save : ℤ → D → Roster D → Roster D
  with_save k player r = record r {
    pending = k ∷ r.pending;
    save_tasks = r.save_tasks ++ ((k, player) ∷ []);
  }

  submits_lem :
      (k : ℤ) (player : D) (r : Roster D)
      → pos 0 <ℤ k
      → member k r.pending ≡ false
      → submit_final_player_data_save true k player r ≡ (true, with_save k player r)
  unfolding submit_final_player_data_save
  submits_lem k player r more clear =
      if_cases Submits (leb_ℤ k (pos 0)) (λ e. absurd (ground arith))
        λ e. if_cases Submits (member k r.pending) (λ f. absurd (ground arith)) λ f. refl
    where
      Submits : Bool × Roster D → Type 0
      Submits x = x ≡ (true, with_save k player r)

  leave_saving :
      (k : ℤ) (player : D) (r : Roster D)
      → pos 0 <ℤ k
      → lookup k r.players ≡ some player
      → member k r.pending ≡ false
      → finalize_player true true k player r ≡ record r {
        players = erase k r.players;
        pending = k ∷ r.pending;
        save_tasks = r.save_tasks ++ ((k, player) ∷ []);
      }
  unfolding finalize_player remove_player
  leave_saving k player r more found clear =
      ap (λ (x : Bool × Roster D). (remove_player k x.1).1) (submits_lem k player r more clear)
      ∙ ap (λ (o : Option D). (remove_found o k (with_save k player r)).1) found

  leave_unsaved :
      (k : ℤ) (player : D) (r : Roster D)
      → lookup k r.players ≡ some player
      → finalize_player false true k player r ≡ record r { players = erase k r.players }
  unfolding finalize_player remove_player
  leave_unsaved k player r found = ap (λ (o : Option D). (remove_found o k r).1) found

  pub leaves_lem :
      (k : ℤ) (save_needed : Bool) (player : D) (l : Life D)
      → pos 0 <ℤ k
      → lookup k l.roster.players ≡ some player
      → (save_needed ≡ false → lookup k l.database ≡ some player)
      → (v : View D) → view k l ≡ v
      → IsCurrent l.latest v
      → IsCurrent l.latest
          (view k (record l { roster = finalize_player save_needed true k player l.roster }))
  leaves_lem k true player l more found clean v e (online stored) =
      let player_latest : player ≡ l.latest = some_inj (ground (arith, e, found)) in
      subst (λ r. IsCurrent l.latest (view k (record l { roster = r })))
        (sym (leave_saving k player l.roster more found (ground arith)))
        (subst (IsCurrent l.latest)
          (sym (
            ground (
              arith,
              eqb_ℤ_refl k,
              lookup-erase k k l.roster.players,
              of_id-append k l.roster.save_tasks ((k, player) ∷ []),
            )))
          (saving stored))
  leaves_lem k false player l more found clean v e (online stored) =
      let player_latest : player ≡ l.latest = some_inj (ground (arith, e, found)) in
      let same = clean refl in
      subst (λ r. IsCurrent l.latest (view k (record l { roster = r })))
        (sym (leave_unsaved k player l.roster found))
        (subst (IsCurrent l.latest)
          (sym (ground (arith, eqb_ℤ_refl k, lookup-erase k k l.roster.players))) stored_only)
  leaves_lem k b player l more found clean v e (saving stored) = absurd (ground arith)
  leaves_lem k b player l more found clean v e stored_only = absurd (ground arith)
  leaves_lem k b player l more found clean v e entering = absurd (ground arith)

  -- Steps of other characters leave the view alone.
  pub others_play_lem :
      (k id : ℤ) (new : D) (l : Life D)
      → id ≢ k
      → view k (record l { roster = record l.roster { players = insert id new l.roster.players } })
        ≡ view k l
  others_play_lem k id new l other =
      ap
        (λ (o : Option D). (
          o,
          member k l.roster.pending,
          of_id k l.roster.save_tasks,
          of_id k l.roster.auth_results,
          lookup k l.database,
        ))
        (lookup-insert_ne k id new l.roster.players (lookup k l.roster.players) (λ e. other (sym e))
          refl)

  abbrev pub place : ℤ → Roster D → Option D × Bool × List D × List D
  place k r = (lookup k r.players, member k r.pending, of_id k r.save_tasks, of_id k r.auth_results)

  removed_other : (k id : ℤ) (r : Roster D) → id ≢ k → place k (remove_player id r).1 ≡ place k r
  unfolding remove_player
  removed_other k id r other = from (lookup id r.players)
    where
      from : (o : Option D) → place k (remove_found o id r).1 ≡ place k r
      from none = refl
      from (some player) =
          ap
            (λ (o : Option D).
              (o, member k r.pending, of_id k r.save_tasks, of_id k r.auth_results))
            (lookup-erase_ne k id r.players (lookup k r.players) (λ e. other (sym e)) refl)

  submitted_other :
      (k id : ℤ) (submits : Bool) (player : D) (r : Roster D)
      → id ≢ k
      → place k (submit_final_player_data_save submits id player r).1 ≡ place k r
  unfolding submit_final_player_data_save
  submitted_other k id submits player r other =
      if_cases Same (leb_ℤ id (pos 0)) (λ e. refl)
        λ e.
          if_cases Same (member id r.pending) (λ f. refl)
            λ f.
              if_cases Same submits
                (λ g. ground (
                  arith,
                  eqb_ℤ_ne k id (λ h. other (sym h)),
                  of_id-append k r.save_tasks ((id, player) ∷ []),
                  append_nil (of_id k r.save_tasks),
                ))
                λ g.
                  ground (
                    arith,
                    eqb_ℤ_ne k id (λ h. other (sym h)),
                    member-removed k id (id ∷ r.pending),
                  )
    where
      Same : Bool × Roster D → Type 0
      Same x = place k x.1 ≡ place k r

  pub finalized_other :
      (k id : ℤ) (save_needed submits : Bool) (player : D) (r : Roster D)
      → id ≢ k
      → place k (finalize_player save_needed submits id player r) ≡ place k r
  unfolding finalize_player
  finalized_other k id true submits player r other =
      removed_other k id (submit_final_player_data_save submits id player r).1 other
      ∙ submitted_other k id submits player r other
  finalized_other k id false submits player r other = removed_other k id r other
