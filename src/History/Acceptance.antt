-- ===== src/History/Acceptance.antt =====
-- Which moves is_allowed_move of engine/board.c accepts, for the different rules.
use gnugo.Base.{
  ℕ, zero, suc, ◌-◌, ◌≤◌, ◌≡◌, refl, sym, ◌∙◌, Bool, true, false, ◌&&◌, ◌||◌, not, leb, ◌==◌, arith,
  Bool-cases, inl, inr,
}
use gnugo.Color.{empty}
use gnugo.Point.{pass_move}
use gnugo.Board.Legality.{is_suicide, gives_life, takes_ko, on_board1}
use gnugo.Board.Undo.Trying.{gg_assert_lem}
use gnugo.Board.Trymove.{is_legal, max_stack}
use gnugo.History.{History, Game, position_of, assert_game}
use gnugo.History.Rules.{
  SuicideRules, forbidden, allowed, all_allowed, KoRules, simple, no_rule, psk, ssk, has_ko_rule,
  repeats, is_superko_violation, forbids_suicide, refused_by_rules, is_allowed_move,
}

-- The rules in the order of what they forbid.
abbrev pub ko_rank : KoRules → ℕ
ko_rank no_rule = 0
ko_rank simple = 1
ko_rank ssk = 2
ko_rank psk = 3

abbrev pub suicide_rank : SuicideRules → ℕ
suicide_rank all_allowed = 0
suicide_rank allowed = 1
suicide_rank forbidden = 2

repeats-psk :
    (n hash color : ℕ) (h : History)
    → repeats n hash color ssk h ≡ true
    → repeats n hash color psk h ≡ true
unfolding repeats
repeats-psk zero hash color h e = e
repeats-psk (suc n) hash color h e = elim (Bool-cases (repeats n hash color ssk h)) [
  | inl before ↦ ground (arith, e, repeats-psk n hash color h before)
  | inr none ↦ ground (arith, e, none)
]

violation_le :
    (pos color : ℕ) (k k' : KoRules) (g : Game)
    → ko_rank k' ≤ ko_rank k
    → (is_superko_violation pos color k' g).0 ≡ true
    → (is_superko_violation pos color k g).0 ≡ true
unfolding is_superko_violation
violation_le pos color psk psk g le e = e
violation_le pos color ssk ssk g le e = e
violation_le pos color psk ssk g le e =
    ground (arith, e, repeats-psk g.history.move_history_pointer _ color g.history e)
violation_le pos color k simple g le e = absurd (ground (arith, e))
violation_le pos color k no_rule g le e = absurd (ground (arith, e))
violation_le pos color ssk psk g le e = absurd (omega (arith, le))
violation_le pos color simple psk g le e = absurd (omega (arith, le))
violation_le pos color simple ssk g le e = absurd (omega (arith, le))
violation_le pos color no_rule psk g le e = absurd (omega (arith, le))
violation_le pos color no_rule ssk g le e = absurd (omega (arith, le))

has_ko_rule_le :
    (k k' : KoRules) → ko_rank k' ≤ ko_rank k → has_ko_rule k' ≡ true → has_ko_rule k ≡ true
has_ko_rule_le psk k' le e = refl
has_ko_rule_le ssk k' le e = refl
has_ko_rule_le simple k' le e = refl
has_ko_rule_le no_rule no_rule le e = e
has_ko_rule_le no_rule simple le e = absurd (omega (arith, le))
has_ko_rule_le no_rule ssk le e = absurd (omega (arith, le))
has_ko_rule_le no_rule psk le e = absurd (omega (arith, le))

forbids_suicide_le :
    (pos color : ℕ) (s s' : SuicideRules) (g : Game)
    → suicide_rank s' ≤ suicide_rank s
    → forbids_suicide s' pos color g ≡ true
    → forbids_suicide s pos color g ≡ true
unfolding forbids_suicide
forbids_suicide_le pos color forbidden s' g le e = refl
forbids_suicide_le pos color allowed allowed g le e = e
forbids_suicide_le pos color allowed all_allowed g le e = absurd (ground (arith, e))
forbids_suicide_le pos color allowed forbidden g le e = absurd (omega (arith, le))
forbids_suicide_le pos color all_allowed all_allowed g le e = e
forbids_suicide_le pos color all_allowed allowed g le e = absurd (omega (arith, le))
forbids_suicide_le pos color all_allowed forbidden g le e = absurd (omega (arith, le))

-- The game behind the assertions of is_allowed_move.
abbrev entered : ℕ → Game → Game
entered pos g =
    let opened = assert_game (g.reading.stackp == 0) g in
    assert_game (on_board1 pos (position_of g)) opened

-- What is_allowed_move answers, from the outcomes of its tests.
is_allowed_move_lem :
    (pos color : ℕ) (s : SuicideRules) (k : KoRules) (g : Game)
    → (is_allowed_move pos color s k g).0 ≡ (
        pos == pass_move
        || (not (refused_by_rules pos color s k (entered pos g))
            && not (is_superko_violation pos color k (entered pos g)).0))
unfolding is_allowed_move
is_allowed_move_lem pos color s k g = elim (Bool-cases (pos == pass_move)) [
  | inl pass ↦ rw pass refl
  | inr move ↦ elim (Bool-cases (refused_by_rules pos color s k (entered pos g))) [
    | inl refused ↦ rw (move, refused) refl
    | inr fine ↦ rw (move, fine) refl
  ]
]

accepted_le :
    (pass r v r' v' : Bool)
    → (r ≡ false → r' ≡ false)
    → (v' ≡ true → v ≡ true)
    → (pass || (not r && not v)) ≡ true
    → (pass || (not r' && not v')) ≡ true
accepted_le true r v r' v' keep more e = refl
accepted_le false true v r' v' keep more e = absurd (ground (arith, e))
accepted_le false false true r' v' keep more e = absurd (ground (arith, e))
accepted_le false false false r' false keep more e = rw (keep refl) refl
accepted_le false false false r' true keep more e = absurd (ground (arith, more refl))

module _ (pos color : ℕ) (s s' : SuicideRules) (k k' : KoRules) where
  refused_by_rules_le :
      (g : Game)
      → suicide_rank s' ≤ suicide_rank s
      → ko_rank k' ≤ ko_rank k
      → refused_by_rules pos color s k g ≡ false
      → refused_by_rules pos color s' k' g ≡ false
  unfolding refused_by_rules
  refused_by_rules_le g le le' e =
      let suicide = forbids_suicide_le pos color s s' g le in
      let ko = has_ko_rule_le k k' le' in ground (arith, e, suicide, ko)

  -- A move that is allowed by some rules on suicide and ko is allowed by any rules that forbid no
  -- more: all suicides, suicides of more than one stone, none; no ko rule, simple ko, situational
  -- superko, positional superko.
  pub is_allowed_move_le :
      (g : Game)
      → suicide_rank s' ≤ suicide_rank s
      → ko_rank k' ≤ ko_rank k
      → (is_allowed_move pos color s k g).0 ≡ true
      → (is_allowed_move pos color s' k' g).0 ≡ true
  is_allowed_move_le g le le' e =
      is_allowed_move_lem pos color s' k' g
      ∙ accepted_le (pos == pass_move) _ _ _ _ (refused_by_rules_le (entered pos g) le le')
          (violation_le pos color k k' (entered pos g) le')
          (sym (is_allowed_move_lem pos color s k g) ∙ e)

legal_lem :
    (pass free ko suicide : Bool)
    → (pass || (not (not free || (true && ko) || (suicide && true)) && not false))
      ≡ (pass || (free && not ko && not false && not suicide))
legal_lem true free ko suicide = refl
legal_lem false false ko suicide = refl
legal_lem false true true suicide = refl
legal_lem false true false true = refl
legal_lem false true false false = refl

-- With no trial moves under way, simple ko and suicides forbidden, the allowed moves are those that
-- is_legal accepts; it refuses a suicide too, though its comment says that suicide is allowed.
pub is_allowed_move-is_legal :
    (pos color : ℕ) (g : Game)
    → g.reading.stackp ≡ 0
    → (is_allowed_move pos color forbidden simple g).0 ≡ is_legal pos color g.reading
unfolding is_legal is_superko_violation refused_by_rules forbids_suicide takes_ko is_suicide
    gives_life
is_allowed_move-is_legal pos color g none =
    let (f, e) = gg_assert_lem (g.reading.stackp == 0) (position_of g) in
    let (f', e') =
      gg_assert_lem (on_board1 pos (position_of g)) (record (position_of g) { faulty = f }) in
    let room : leb (max_stack - 2) g.reading.stackp ≡ false = ground (arith, none) in
    let b = position_of g in
    is_allowed_move_lem pos color forbidden simple g
    ∙ rw (e, e', room)
        (legal_lem (pos == pass_move) (b.board pos == empty) (takes_ko pos color b)
          (is_suicide pos color b))
