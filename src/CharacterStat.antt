-- ===== src/CharacterStat.antt =====
-- SERVER/src/CHANNEL/domain/CharacterStat.h and CharacterStat.cpp, with `LevelManager::GetNeedExp`.
-- The level table is a dictionary from a level to the experience it needs. `AddExp` computes without a
-- check of the range, so `int` and `int64_t` wrap there.
pub mod Levels
mod Tests
use ll2games_rpg_server.Common.{
  ℕ, zero, suc, ◌+◌, ◌-◌, ◌*◌, ◌/◌, ◌%◌, ◌^◌, ◌≤◌, ◌<◌, ◌≡◌, refl, sym, ap, ap₂, subst, ◌∙◌, ◌≢◌,
  false≢true, ◌↔◌, ◌⊎◌, inl, inr, Bool, true, false, ◌&&◌, ◌||◌, not, Option, none, some, List, [],
  ◌∷◌, ◌++◌, map, arith, ltb, leb, ◌==◌, if◌then◌else◌, Bool-cases, Option-cases, is_some, codes,
  if_cases, not-false, length, take, drop, length-append,
}
use ll2games_rpg_server.Common.Int.{
  ℤ, pos, negsuc, ◌+ℤ◌, ◌-ℤ◌, ◌*ℤ◌, ◌≤ℤ◌, ◌<ℤ◌, ltb_ℤ, leb_ℤ, eqb_ℤ, eqb_ℤ_iff, min_ℤ, min-le_left,
  min-le_right, le-min, pos_part, neg_part, int_laws, parts, eqb_ℤ_refl, eqb_ℤ_ne, ne_of_eqb_ℤ,
  +ℤ_parts, -ℤ_parts, eq_of_parts, to_int, to_int64,
}
use ll2games_rpg_server.Common.Keys.{
  Dict, lookup, insert, erase, ℤ_eq, lookup-insert, lookup-erase, eqb_bytes,
}

pub record BaseStat : Type 0 where
  pub str : ℤ
  pub dex : ℤ
  pub intel : ℤ
  pub luck : ℤ

pub record DerivedStat : Type 0 where
  pub max_hp : ℤ
  pub max_mp : ℤ

pub record CharacterStat : Type 0 where
  pub base : BaseStat
  pub derived : DerivedStat
  pub level : ℤ
  pub exp : ℤ
  pub cur_hp : ℤ
  pub cur_mp : ℤ
  pub remain_ap : ℤ

pub record ExpResult : Type 0 where
  pub gained_exp : ℤ
  pub old_level : ℤ
  pub new_level : ℤ
  pub cur_exp : ℤ
  pub need_exp : ℤ
  pub remain_ap : ℤ
  pub cur_hp : ℤ
  pub max_hp : ℤ
  pub cur_mp : ℤ
  pub max_mp : ℤ
  pub level_up : Bool

-- `ExpResult result{}`
abbrev pub no_exp : ExpResult
no_exp = record {
  gained_exp = pos 0;
  old_level = pos 0;
  new_level = pos 0;
  cur_exp = pos 0;
  need_exp = pos 0;
  remain_ap = pos 0;
  cur_hp = pos 0;
  max_hp = pos 0;
  cur_mp = pos 0;
  max_mp = pos 0;
  level_up = false;
}

-- `m_levelUp_ap`
abbrev pub level_up_ap : ℤ
level_up_ap = pos 5

-- The body of the loop of `AddExp` where a level is gained.
pub gain_level : ℤ → CharacterStat → CharacterStat
gain_level need s = record s {
  exp = to_int64 (s.exp -ℤ need);
  level = to_int (s.level +ℤ pos 1);
  remain_ap = to_int (s.remain_ap +ℤ level_up_ap);
  cur_hp = s.derived.max_hp;
  cur_mp = s.derived.max_mp;
}

module _ (get_need_exp : ℤ → ℤ) where
  -- The loop of `AddExp`. Each turn that goes on takes at least 1 from the experience, so the
  -- experience at the start is enough fuel.
  pub level_loop : ℕ → CharacterStat → CharacterStat
  level_loop zero s = s
  level_loop (suc fuel) s =
      let need = get_need_exp s.level in
      let rest = level_loop fuel (gain_level need s) in
      if leb_ℤ need (pos 0) then s else if ltb_ℤ s.exp need then s else rest

  pub add_exp : ℤ → CharacterStat → ExpResult × CharacterStat
  unfolding level_loop
  add_exp exp s =
      if leb_ℤ exp (pos 0)
      then (no_exp, s)
      else let started : CharacterStat = record s { exp = to_int64 (s.exp +ℤ exp) } in
        let s' : CharacterStat = level_loop (pos_part started.exp) started in
        (
          record {
            gained_exp = exp;
            old_level = s.level;
            new_level = s'.level;
            cur_exp = s'.exp;
            need_exp = get_need_exp s'.level;
            remain_ap = s'.remain_ap;
            cur_hp = s'.cur_hp;
            max_hp = s'.derived.max_hp;
            cur_mp = s'.cur_mp;
            max_mp = s'.derived.max_mp;
            level_up = ltb_ℤ s.level s'.level;
          },
          s',
        )

  -- `ReduceExp(percent)` for a percentage in (0, 100]; `share need` is
  -- `static_cast<int64_t>(need * (percent / 100.0))`, whose floating point is not modelled.
  unfoldable pub reduce_exp : (ℤ → ℤ) → CharacterStat → ℤ × CharacterStat
  reduce_exp share s =
      let need = get_need_exp s.level in
      if leb_ℤ need (pos 0)
      then (pos 0, s)
      else let reduced = if ltb_ℤ s.exp (share need) then s.exp else share need in
        (reduced, record s { exp = s.exp -ℤ reduced })

-- `Up`: a text that names no statistic raises `str`.
unfoldable pub up : List ℕ → CharacterStat → CharacterStat
up stat_type s =
    if leb_ℤ s.remain_ap (pos 0)
    then s
    else let spent : CharacterStat = record s { remain_ap = s.remain_ap -ℤ pos 1 } in
      let base = s.base in
      if eqb_bytes stat_type (codes "dex")
      then record spent { base = record base { dex = base.dex +ℤ pos 1 } }
      else if eqb_bytes stat_type (codes "intel")
      then record spent { base = record base { intel = base.intel +ℤ pos 1 } }
      else if eqb_bytes stat_type (codes "luck")
      then record spent { base = record base { luck = base.luck +ℤ pos 1 } }
      else record spent { base = record base { str = base.str +ℤ pos 1 } }
