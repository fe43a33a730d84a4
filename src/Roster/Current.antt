-- ===== src/Roster/Current.antt =====
-- The data of a character in every order of the calls of a channel.
use ll2games_rpg_server.Common.{
  ◌≡◌, refl, sym, ap, subst, ◌∙◌, ◌≢◌, inl, inr, Bool, List, [], ◌∷◌, arith, if◌then◌else◌,
  Bool-cases, none, Option, none≢some, if_cases, some, append_nil,
}
use ll2games_rpg_server.Common.Int.{ℤ, eqb_ℤ, eqb_ℤ_iff, eqb_ℤ_refl, eqb_ℤ_ne, ne_of_eqb_ℤ}
use ll2games_rpg_server.Common.Keys.{ℤ_eq, lookup-insert, lookup-insert_self, lookup}
use ll2games_rpg_server.Roster.{
  auth_task, add_player, is_final_player_data_save_pending, process_from, Roster, loaded, add_found,
  member, process_auth_result,
}
use ll2games_rpg_server.Roster.Handover.{
  of_id, of_id-append, Life, View, view, IsCurrent, online, saving, stored_only, entering, Reach,
  plays, leaves, others_play, others_leave, saves, authenticates, processes, begins,
}
use ll2games_rpg_server.Roster.Leaving.{plays_lem, leaves_lem, others_play_lem, finalized_other}
use ll2games_rpg_server.Roster.Saves.{split_one, saves_lem}

module _ {D : Type 0} where
  authenticates_own :
      (k : ℤ) (l : Life D)
      → lookup k l.roster.players ≡ none
      → of_id k l.roster.auth_results ≡ []
      → (v : View D) → view k l ≡ v
      → IsCurrent l.latest v
      → IsCurrent l.latest (view k (record l { roster = (auth_task k l.database l.roster).1 }))
  unfolding auth_task is_final_player_data_save_pending
  authenticates_own k l offline fresh v e (online stored) =
      absurd (none≢some {x = l.latest} (sym offline ∙ ground (arith, e)))
  authenticates_own k l offline fresh v e entering = absurd (ground (arith, e, fresh))
  authenticates_own k l offline fresh v e (saving stored) =
      if_cases (λ (x : Bool × Roster D). IsCurrent l.latest (view k (record l { roster = x.1 })))
        (member k l.roster.pending) (λ f. subst (IsCurrent l.latest) (sym e) (saving stored))
        λ f. absurd (ground (arith, e, f))
  authenticates_own k l offline fresh v e stored_only =
      if_cases (λ (x : Bool × Roster D). IsCurrent l.latest (view k (record l { roster = x.1 })))
        (member k l.roster.pending) (λ f. absurd (ground (arith, e, f)))
        λ f.
          let found : lookup k l.database ≡ some l.latest = ground (arith, e) in
          subst
            (λ (o : Option D).
              IsCurrent l.latest (view k (record l { roster = (loaded o k l.roster).1 })))
            (sym found)
            (subst (IsCurrent l.latest)
              (sym (
                ground
                  (arith, eqb_ℤ_refl k, of_id-append k l.roster.auth_results ((k, l.latest) ∷ []))))
              entering)

  authenticates_other :
      (k id : ℤ) (l : Life D)
      → id ≢ k
      → view k (record l { roster = (auth_task id l.database l.roster).1 }) ≡ view k l
  unfolding auth_task is_final_player_data_save_pending
  authenticates_other k id l other =
      if_cases Same (member id l.roster.pending) (λ f. refl) λ f. by_load (lookup id l.database)
    where
      Same : Bool × Roster D → Type 0
      Same x = view k (record l { roster = x.1 }) ≡ view k l

      by_load : (o : Option D) → Same (loaded o id l.roster)
      by_load none = refl
      by_load (some d) = ground (
        arith,
        eqb_ℤ_ne k id (λ h. other (sym h)),
        of_id-append k l.roster.auth_results ((id, d) ∷ []),
        append_nil (of_id k l.roster.auth_results),
      )

  processes_lem :
      (k : ℤ) (l : Life D) (results : List (ℤ × D))
      → l.roster.auth_results ≡ results
      → (v : View D) → view k l ≡ v
      → IsCurrent l.latest v
      → IsCurrent l.latest (view k (record l { roster = (process_from results l.roster).1 }))
  unfolding add_player
  processes_lem k l [] split v e now = subst (IsCurrent l.latest) (sym e) now
  processes_lem k l ((id, d) ∷ rest) split v e now = elim (Bool-cases (eqb_ℤ id k)) [
    | inl h ↦
        let here = (eqb_ℤ_iff id k).0 h in
        subst (λ (j : ℤ). Goal (add_player j d (record l.roster { auth_results = rest })))
          (sym here)
          (own v e now (
            ap (of_id k) split
            ∙ ap (λ (j : ℤ). of_id k ((j, d) ∷ rest)) here
            ∙ ap (λ (b : Bool). if b then d ∷ of_id k rest else of_id k rest) (eqb_ℤ_refl k)))
    | inr h ↦ other (ne_of_eqb_ℤ id k h) (lookup id l.roster.players)
  ]
    where
      Goal : Bool × Roster D → Type 0
      Goal x = IsCurrent l.latest (view k (record l { roster = x.1 }))

      other :
          id ≢ k
          → (o : Option D) → Goal (add_found o id d (record l.roster { auth_results = rest }))
      other far (some p) =
          subst (IsCurrent l.latest)
            (sym (ground (arith, e, eqb_ℤ_ne k id (λ h. far (sym h)), ap (of_id k) split))) now
      other far none =
          subst (IsCurrent l.latest)
            (sym (
              ground (
                arith,
                e,
                eqb_ℤ_ne k id (λ h. far (sym h)),
                ap (of_id k) split,
                lookup-insert k id d l.roster.players,
              )))
            now

      own :
          (v : View D)
          → view k l ≡ v
          → IsCurrent l.latest v
          → of_id k l.roster.auth_results ≡ d ∷ of_id k rest
          → Goal (add_player k d (record l.roster { auth_results = rest }))
      own v e (online stored) h = absurd (ground (arith, e, h))
      own v e (saving stored) h = absurd (ground (arith, e, h))
      own v e stored_only h = absurd (ground (arith, e, h))
      own v e entering h =
          let offline : lookup k l.roster.players ≡ none = ground (arith, e) in
          let (same, none_left) =
            split_one [] (of_id k rest) d l.latest (sym h ∙ ground (arith, e)) in
          subst (λ (o : Option D). Goal (add_found o k d (record l.roster { auth_results = rest })))
            (sym offline)
            (subst (IsCurrent l.latest)
              (sym (ground (arith, e, lookup-insert_self k d l.roster.players)))
              (online (some l.latest)))

  -- In whatever order the sessions, the final saves and the authentications of a channel run, the latest
  -- data of a character is always at one place, and only there: at its player online, in its final save
  -- that is pending, in the player loaded for its next session, or in the database; so the next session
  -- begins with the data that the last one ended with. This holds where an authentication of the
  -- character checks and loads while it is neither online nor loaded, final saves succeed within their
  -- three attempts, and a session that ends without a save has changed nothing.
  pub Reach-IsCurrent :
      (k : ℤ) (first : D) {l : Life D} → Reach k first l → IsCurrent l.latest (view k l)
  unfolding process_auth_result
  Reach-IsCurrent k first begins =
      subst (IsCurrent first) (sym (ground (arith, eqb_ℤ_refl k))) stored_only
  Reach-IsCurrent k first (plays {l} old new found r) =
      plays_lem k old new l found (Reach-IsCurrent k first r)
  Reach-IsCurrent k first (leaves {l} b player more found clean r) =
      leaves_lem k b player l more found clean (view k l) refl (Reach-IsCurrent k first r)
  Reach-IsCurrent k first (others_play {l} id new other r) =
      subst (IsCurrent l.latest) (sym (others_play_lem k id new l other))
        (Reach-IsCurrent k first r)
  Reach-IsCurrent k first (others_leave {l} b submits id player other r) =
      subst (IsCurrent l.latest)
        (sym (
          ap (λ (x : Option D × Bool × List D × List D). (x.0, x.1, x.2, x.3, lookup k l.database))
            (finalized_other k id b submits player l.roster other)))
        (Reach-IsCurrent k first r)
  Reach-IsCurrent k first (saves {l} attempt before after id player split ok r) =
      saves_lem k id attempt player before after l split ok (Reach-IsCurrent k first r)
  Reach-IsCurrent k first (authenticates {l} id free r) = elim (Bool-cases (eqb_ℤ id k)) [
    | inl e ↦
        let here = (eqb_ℤ_iff id k).0 e in
        let (offline, fresh) = free here in
        subst
          (λ (j : ℤ).
            IsCurrent l.latest (view k (record l { roster = (auth_task j l.database l.roster).1 })))
          (sym here)
          (authenticates_own k l offline fresh (view k l) refl (Reach-IsCurrent k first r))
    | inr e ↦
        subst (IsCurrent l.latest) (sym (authenticates_other k id l (ne_of_eqb_ℤ id k e)))
          (Reach-IsCurrent k first r)
  ]
  Reach-IsCurrent k first (processes {l} r) =
      processes_lem k l l.roster.auth_results refl (view k l) refl (Reach-IsCurrent k first r)
