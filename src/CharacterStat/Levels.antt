-- ===== src/CharacterStat/Levels.antt =====
-- What gaining experience and spending ability points do, for CharacterStat.cpp.
use ll2games_rpg_server.Common.{
  ℕ, zero, suc, ◌*◌, ◌≡◌, refl, ap, ◌≢◌, ◌↔◌, ◌⊎◌, inl, inr, true, arith, ◌^◌, ◌-◌, ◌+◌, ◌≤◌,
  Bool-cases, if_cases,
}
use ll2games_rpg_server.Common.Int.{
  ℤ, pos, ◌+ℤ◌, ◌≤ℤ◌, ◌<ℤ◌, ltb_ℤ, leb_ℤ, pos_part, int_laws, parts, +ℤ_parts, -ℤ_parts, ◌-ℤ◌,
  to_int-fits, to_int64-fits,
}
use ll2games_rpg_server.Common.Keys.{ℤ_eq}
use ll2games_rpg_server.CharacterStat.{
  CharacterStat, ExpResult, gain_level, level_loop, add_exp, subst, sym,
}

module _ (get_need_exp : ℤ → ℤ) where
  -- A statistic that can gain no level: the last level is reached, or the experience is short.
  abbrev pub IsSettled : CharacterStat → Type 0
  IsSettled s = (get_need_exp s.level ≤ℤ pos 0) ⊎ (s.exp <ℤ get_need_exp s.level)

  -- `s` after one level that needs `need`, in integers without a bound.
  abbrev pub paid_level : ℤ → CharacterStat → CharacterStat
  paid_level need s = record s {
    exp = s.exp -ℤ need;
    level = s.level +ℤ pos 1;
    remain_ap = s.remain_ap +ℤ pos 5;
    cur_hp = s.derived.max_hp;
    cur_mp = s.derived.max_mp;
  }

  -- From `s` to `t` `n` levels were gained, each paid for with exactly the experience that it needs.
  pub data Rises : ℕ → CharacterStat → CharacterStat → Type 0 where
    stays : {s : CharacterStat} → Rises 0 s s
    rises :
        {n : ℕ} {s t : CharacterStat}
        → pos 0 <ℤ get_need_exp s.level
        → get_need_exp s.level ≤ℤ s.exp
        → Rises n (paid_level (get_need_exp s.level) s) t
        → Rises (suc n) s t

  -- No level from `last` on needs experience, as none stands in the table, and up to `last` the level
  -- and the ability points fit an `int`.
  abbrev pub IsLast : ℤ → Type 0
  IsLast last = (last ≤ℤ pos (2 ^ 31 - 1)) × ((l : ℤ) → last ≤ℤ l → get_need_exp l ≤ℤ pos 0)

  abbrev pub HasRoom : ℤ → CharacterStat → Type 0
  HasRoom last s =
      (pos 0 ≤ℤ s.level)
      × (pos 0 ≤ℤ s.remain_ap)
      × (pos_part s.remain_ap + 5 * pos_part last ≤ 2 ^ 31 - 1 + 5 * pos_part s.level)

  abbrev pub IsExp : ℤ → Type 0
  IsExp exp = (pos 0 ≤ℤ exp) × (exp ≤ℤ pos (2 ^ 63 - 1))

  not_last : (last l : ℤ) → IsLast last → pos 0 <ℤ get_need_exp l → l <ℤ last
  not_last last l (top, ends) real = elim (Bool-cases (leb_ℤ last l)) [
    | inl e ↦ absurd (let none_needed = ends l (ground arith) in omega arith)
    | inr e ↦ ground arith
  ]

  -- Where there is room, nothing wraps as a level is gained, and there is room again.
  gain_level-paid :
      (last : ℤ) (s : CharacterStat)
      → IsLast last
      → HasRoom last s
      → IsExp s.exp
      → pos 0 <ℤ get_need_exp s.level
      → get_need_exp s.level ≤ℤ s.exp
      → (gain_level (get_need_exp s.level) s ≡ paid_level (get_need_exp s.level) s)
        × HasRoom last (paid_level (get_need_exp s.level) s)
        × IsExp (s.exp -ℤ get_need_exp s.level)
  unfolding gain_level
  gain_level-paid last s is_last (level, points, room) (sign, fits) real enough =
      let below = not_last last s.level is_last real in
      let top = is_last.0 in
      let need = get_need_exp s.level in
      let left = -ℤ_parts s.exp need in
      let next = +ℤ_parts s.level (pos 1) in
      let more = +ℤ_parts s.remain_ap (pos 5) in
      let exp_sign : pos 0 ≤ℤ s.exp -ℤ need = omega arith in
      let exp_fits : s.exp -ℤ need ≤ℤ pos (2 ^ 63 - 1) = omega arith in
      let level_sign : pos 0 ≤ℤ s.level +ℤ pos 1 = omega arith in
      let level_fits : s.level +ℤ pos 1 ≤ℤ pos (2 ^ 31 - 1) = omega arith in
      let points_sign : pos 0 ≤ℤ s.remain_ap +ℤ pos 5 = omega arith in
      let points_fit : s.remain_ap +ℤ pos 5 ≤ℤ pos (2 ^ 31 - 1) = ground arith in
      let room' : pos_part (s.remain_ap +ℤ pos 5) + 5 * pos_part last
          ≤ 2 ^ 31 - 1 + 5 * pos_part (s.level +ℤ pos 1) =
        ground arith in
      (
        rw (
          to_int64-fits (s.exp -ℤ need) exp_sign exp_fits,
          to_int-fits (s.level +ℤ pos 1) level_sign level_fits,
          to_int-fits (s.remain_ap +ℤ pos 5) points_sign points_fit,
        ),
        (level_sign, points_sign, room'),
        (exp_sign, exp_fits),
      )

  -- The loop ends with a statistic that can gain no level, in paid steps.
  abbrev Settles : CharacterStat → CharacterStat → Type 0
  Settles s t = IsSettled t × ((n : ℕ) × Rises n s t)

  level_loop-Settles :
      (last : ℤ) (fuel : ℕ) (s : CharacterStat)
      → IsLast last
      → HasRoom last s
      → IsExp s.exp
      → s.exp ≤ℤ pos fuel
      → Settles s (level_loop get_need_exp fuel s)
  unfolding level_loop
  level_loop-Settles last zero s is_last room real short =
      elim (Bool-cases (leb_ℤ (get_need_exp s.level) (pos 0))) [
        | inl e ↦ (inl (ground arith), (0, stays))
        | inr e ↦ (inr (ground arith), (0, stays))
      ]
  level_loop-Settles last (suc fuel) s is_last room real short =
      let need = get_need_exp s.level in
      if_cases (Settles s) (leb_ℤ need (pos 0)) (λ e. (inl (ground arith), (0, stays)))
        λ paid.
          if_cases (Settles s) (ltb_ℤ s.exp need) (λ e. (inr (ground arith), (0, stays)))
            λ enough.
              let (same, room', real') =
                gain_level-paid last s is_last room real (ground arith) (ground arith) in
              let (settled, (n, r)) =
                level_loop-Settles last fuel (paid_level need s) is_last room' real'
                  (let taken = -ℤ_parts s.exp need in ground arith) in
              subst (λ (x : CharacterStat). Settles s (level_loop get_need_exp fuel x)) (sym same)
                (settled, (suc n, rises (ground arith) (ground arith) r))

  -- What `n` levels leave of a statistic: 5 ability points for each.
  Rises-points :
      {n : ℕ} {s t : CharacterStat}
      → Rises n s t
      → (t.level ≡ s.level +ℤ pos n)
        × (t.remain_ap ≡ s.remain_ap +ℤ pos (5 * n))
        × (t.base ≡ s.base)
        × (t.derived ≡ s.derived)
        × (pos 0 ≤ℤ s.exp → pos 0 ≤ℤ t.exp)
  Rises-points (stays {s}) = (omega int_laws, omega int_laws, refl, refl, λ h. h)
  Rises-points (rises {n} {s} {t} real enough r) =
      let (level, ap, base, derived, sign) = Rises-points r in
      (
        omega (int_laws, parts level),
        omega (int_laws, parts ap),
        base,
        derived,
        λ h. sign (let taken = -ℤ_parts s.exp (get_need_exp s.level) in ground arith),
      )

  raised : (a b : ℤ) (n : ℕ) → b ≡ a +ℤ pos n → (ltb_ℤ a b ≡ true) ↔ (n ≢ 0)
  raised a b n e =
      let (p, q) = parts e in
      let sum = +ℤ_parts a (pos n) in (λ h z. absurd (ground arith), λ h. ground arith)

  -- `AddExp` of a positive amount, to a statistic whose level, experience and ability points are not
  -- negative, where the sum of the experience fits 64 bits and the level and the ability points fit an
  -- `int` up to a level `last` from which on the table has no entry. It ends with a level that the table has no entry for, or whose entry the experience left
  -- does not reach; it gets there by gaining levels one by one, each of which takes exactly the
  -- experience that the table says, and no arithmetic wraps; it gives 5 ability points for each level
  -- gained, raises no base statistic, and reports a level-up exactly where a level was gained.
  pub add_exp-IsSettled :
      (last exp : ℤ) (s : CharacterStat)
      → IsLast last
      → HasRoom last s
      → pos 0 <ℤ exp
      → pos 0 ≤ℤ s.exp
      → s.exp +ℤ exp ≤ℤ pos (2 ^ 63 - 1)
      → let (result, s') = add_exp get_need_exp exp s in
        IsSettled s'
        × (pos 0 ≤ℤ s'.exp)
        × (s'.base ≡ s.base)
        × ((n : ℕ) × Rises n (record s { exp = s.exp +ℤ exp }) s'
            × (s'.level ≡ s.level +ℤ pos n)
            × (s'.remain_ap ≡ s.remain_ap +ℤ pos (5 * n))
            × ((result.level_up ≡ true) ↔ (n ≢ 0)))
  unfolding add_exp
  add_exp-IsSettled last exp s is_last room gain real fits =
      if_cases IsDone (leb_ℤ exp (pos 0)) (λ e. absurd (ground arith))
        λ e.
          let started : CharacterStat = record s { exp = s.exp +ℤ exp } in
          let total = +ℤ_parts s.exp exp in
          let sign : pos 0 ≤ℤ s.exp +ℤ exp = ground arith in
          let (settled, (n, rise)) =
            level_loop-Settles last (pos_part started.exp) started is_last room (sign, fits)
              (ground arith) in
          let (level, points, base, derived, kept) = Rises-points rise in
          rw (to_int64-fits (s.exp +ℤ exp) sign fits)
            (settled, kept sign, base, (n, rise, level, points, (raised s.level _ n level)))
    where
      IsDone : ExpResult × CharacterStat → Type 0
      IsDone r =
          IsSettled r.1
          × (pos 0 ≤ℤ r.1.exp)
          × (r.1.base ≡ s.base)
          × ((n : ℕ) × Rises n (record s { exp = s.exp +ℤ exp }) r.1
              × (r.1.level ≡ s.level +ℤ pos n)
              × (r.1.remain_ap ≡ s.remain_ap +ℤ pos (5 * n))
              × ((r.0.level_up ≡ true) ↔ (n ≢ 0)))
