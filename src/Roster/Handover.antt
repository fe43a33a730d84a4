-- ===== src/Roster/Handover.antt =====
-- The data of one character from session to session.
use ll2games_rpg_server.Common.{
  ℕ, ◌≡◌, refl, Bool, true, false, Option, none, some, List, [], ◌∷◌, ◌++◌, arith, if◌then◌else◌,
  ◌≢◌,
}
use ll2games_rpg_server.Common.Int.{ℤ, pos, ◌<ℤ◌, eqb_ℤ, eqb_ℤ_iff}
use ll2games_rpg_server.Common.Keys.{Dict, lookup, insert, ℤ_eq}
use ll2games_rpg_server.Roster.{
  Roster, member, removed, Attempted, save_attempts, finalize_player, run_save_task, auth_task,
  process_auth_result,
}

module _ {D : Type 0} where
  -- The entries of a character
  abbrev pub of_id : ℤ → List (ℤ × D) → List D
  of_id k [] = []
  of_id k ((j, d) ∷ rest) = if eqb_ℤ k j then d ∷ of_id k rest else of_id k rest

  pub of_id-append : (k : ℤ) (xs ys : List (ℤ × D)) → of_id k (xs ++ ys) ≡ of_id k xs ++ of_id k ys
  of_id-append k [] ys = refl
  of_id-append k ((j, d) ∷ xs) ys = ground (arith, of_id-append k xs ys)

pub member-removed :
    (k j : ℤ) (js : List ℤ) → member k (removed j js) ≡ (if eqb_ℤ k j then false else member k js)
member-removed k j [] = ground arith
member-removed k j (i ∷ js) =
    ground (arith, member-removed k j js, eqb_ℤ_iff k j, eqb_ℤ_iff j i, eqb_ℤ_iff k i)

-- A channel, the database, and the data that character `k` has come to have.
pub record Life (D : Type 0) : Type 0 where
  pub roster : Roster D
  pub database : Dict ℤ D
  pub latest : D

-- Everything about one character: its player, whether a final save is pending, the tasks that will save
-- it, the players that were loaded for it, and what the database has.
abbrev pub View : Type 0 → Type 0
View D = Option D × Bool × List D × List D × Option D

module _ {D : Type 0} where
  abbrev pub view : ℤ → Life D → View D
  view k l = (
    lookup k l.roster.players,
    member k l.roster.pending,
    of_id k l.roster.save_tasks,
    of_id k l.roster.auth_results,
    lookup k l.database,
  )

  -- What calls lead to, for character `k`: it plays, sessions end, final saves run, each with one attempt
  -- at least that succeeds, and clients authenticate. A session that ends without a save has changed
  -- nothing. An authentication of `k` checks and loads while `k` is neither online nor loaded.
  pub data Reach (k : ℤ) (first : D) : Life D → Type 0 where
    begins : Reach k first (record {
      roster = record { players = []; pending = []; save_tasks = []; auth_results = [] };
      database = (k, first) ∷ [];
      latest = first;
    })
    plays :
        {l : Life D} (old new : D)
        → lookup k l.roster.players ≡ some old
        → Reach k first l
        → Reach k first (record l {
          roster = record l.roster { players = insert k new l.roster.players };
          latest = new;
        })
    leaves :
        {l : Life D} (save_needed : Bool) (player : D)
        → pos 0 <ℤ k
        → lookup k l.roster.players ≡ some player
        → (save_needed ≡ false → lookup k l.database ≡ some player)
        → Reach k first l
        → Reach k first (record l { roster = finalize_player save_needed true k player l.roster })
    others_play :
        {l : Life D} (id : ℤ) (new : D)
        → id ≢ k
        → Reach k first l
        → Reach k first
            (record l { roster = record l.roster { players = insert id new l.roster.players } })
    others_leave :
        {l : Life D} (save_needed submits : Bool) (id : ℤ) (player : D)
        → id ≢ k
        → Reach k first l
        → Reach k first
            (record l { roster = finalize_player save_needed submits id player l.roster })
    saves :
        {l : Life D} (attempt : ℕ → Attempted) (before after : List (ℤ × D)) (id : ℤ) (player : D)
        → l.roster.save_tasks ≡ before ++ ((id, player) ∷ after)
        → save_attempts 3 1 attempt ≡ true
        → Reach k first l
        → Reach k first (record l {
          database = (run_save_task attempt id player l.database l.roster).0;
          roster = record (run_save_task attempt id player l.database l.roster).1 {
            save_tasks = before ++ after;
          };
        })
    authenticates :
        {l : Life D} (id : ℤ)
        → (id ≡ k → (lookup k l.roster.players ≡ none) × (of_id k l.roster.auth_results ≡ []))
        → Reach k first l
        → Reach k first (record l { roster = (auth_task id l.database l.roster).1 })
    processes :
        {l : Life D}
        → Reach k first l
        → Reach k first (record l { roster = (process_auth_result l.roster).1 })

  -- The four places of a character's latest data.
  pub data IsCurrent (d : D) : View D → Type 0 where
    online : (stored : Option D) → IsCurrent d (some d, false, [], [], stored)
    saving : (stored : Option D) → IsCurrent d (none, true, d ∷ [], [], stored)
    stored_only : IsCurrent d (none, false, [], [], some d)
    entering : IsCurrent d (none, false, [], d ∷ [], some d)
