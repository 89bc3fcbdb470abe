-- ===== src/Outcome/Model/Complete.antt =====
-- Every score and count that is enumerated has a state with its settlement vector.
use void.Base.{
  ℕ, ◌≡◌, refl, ap, ◌∙◌, sym, true, Option, none, some, List, [], ◌∷◌, map, arith, inl, inr, In,
  here, there, All, All-In, map-ext, map-eq-In, ◌≢◌, Bool-cases,
}
use void.Domain.Values.{SettlementResult}
use void.Outcome.Score.{match_state}
use void.Outcome.Classes.{
  GoalClass, CountClass, result_at, settle_vector, is_half_period, goal_states, goal_key,
  half_selections, build_goal_classes, build_count_classes, count_states, count_key, count_match,
  Tag, corner_tag, card_tag, values,
}
use void.Outcome.Bounds.{resolve_limit, boundary_max}
use void.Outcome.Classes.Fold.{represented, In-nested, In-filter_by, In-values}
use void.Outcome.Classes.Grid.{half_states-has}
use void.Outcome.Model.{
  OutcomeState, StateModelOptions, combinations, combine, combine_cards, combine_rest,
  family_filter, model_combinations, model_states, is_goal, is_corners, is_cards, all_settled,
  collect_states,
}
use void.Outcome.Model.States.{collect_states-Holds, collect_states-All, all_settled-some}
use void.Outcome.Model.Independent.{result_at-goals, result_at-corners, result_at-cards}
use void.Outcome.Model.Known.{IsKnown, IsFed, IsKnown-has, all_settled-All}
use void.Settlement.Selection.{SettleableSelection, MatchState}
use void.Settlement.Settle.Settled.{has}

-- The goal states that are enumerated; with no goal selection every state is one.
abbrev pub GoalGrid : List SettleableSelection → Option ℕ → GoalClass → Type 0
GoalGrid [] limit g = Unit
GoalGrid (s ∷ ss) limit g = In g (goal_states (s ∷ ss) limit (half_selections (s ∷ ss)))

abbrev pub CountGrid : Tag → List SettleableSelection → Option ℕ → ℕ → CountClass → Type 0
CountGrid tag [] limit cap c = Unit
CountGrid tag (s ∷ ss) limit cap c =
    In c (count_states tag (resolve_limit limit (boundary_max (s ∷ ss)) cap))

goal_represented :
    (gs : List SettleableSelection) (limit : Option ℕ) (g : GoalClass)
    → GoalGrid gs limit g
    → (d : GoalClass) × In d (build_goal_classes gs limit) × (goal_key gs d ≡ goal_key gs g)
unfolding build_goal_classes settle_vector
goal_represented [] limit g i = (_, here, refl)
goal_represented (s ∷ ss) limit g i = represented (goal_key (s ∷ ss)) _ i

count_represented :
    (tag : Tag) (ss : List SettleableSelection) (limit : Option ℕ) (cap : ℕ) (c : CountClass)
    → CountGrid tag ss limit cap c
    → (d : CountClass) × In d (build_count_classes ss tag limit cap)
      × (count_key tag ss d ≡ count_key tag ss c)
unfolding build_count_classes settle_vector
count_represented tag [] limit cap c i = (_, here, refl)
count_represented tag (s ∷ ss) limit cap c i = represented (count_key tag (s ∷ ss)) _ i

goal_states-has :
    (ss : List SettleableSelection) (limit : Option ℕ) (hs : List SettleableSelection)
    {g : GoalClass} {s : SettleableSelection}
    → In g (goal_states ss limit hs)
    → In s hs
    → has g.first ≡ true
unfolding goal_states
goal_states-has ss limit [] i j = elim j [ ]
goal_states-has ss limit (h ∷ hs) i j =
    half_states-has (resolve_limit limit (boundary_max ss) 12)
      (resolve_limit limit (boundary_max (h ∷ hs)) 12) i

GoalGrid-has :
    (gs : List SettleableSelection) (limit : Option ℕ) (g : GoalClass) {s : SettleableSelection}
    → GoalGrid gs limit g
    → In s gs
    → is_half_period s.period ≡ true
    → has g.first ≡ true
GoalGrid-has [] limit g i j e = elim j [ ]
GoalGrid-has (s ∷ ss) limit g i j e =
    goal_states-has (s ∷ ss) limit _ i (In-filter_by _ (s ∷ ss) j e)

module _ (known : List SettleableSelection) (options : StateModelOptions) where
  abbrev goals : List SettleableSelection
  goals = family_filter is_goal known

  abbrev corners : List SettleableSelection
  corners = family_filter is_corners known

  abbrev cards : List SettleableSelection
  cards = family_filter is_cards known

  -- A score with counts that the model enumerates for the known selections.
  pub record OnGrid (g : GoalClass) (c k : CountClass) : Type 0 where
    pub goal : GoalGrid goals options.max_goals g
    pub corner : CountGrid corner_tag corners options.max_corners 20 c
    pub card : CountGrid card_tag cards options.max_cards 12 k
    pub corner_there : has c.counts ≡ true
    pub card_there : has k.counts ≡ true

  abbrev match_of : GoalClass → CountClass → CountClass → MatchState
  match_of g c k = match_state g.full g.first c.counts k.counts

  module _ (g g' : GoalClass) (c c' k k' : CountClass) (eg : goal_key goals g' ≡ goal_key goals g)
      (ec : count_key corner_tag corners c' ≡ count_key corner_tag corners c)
      (ek : count_key card_tag cards k' ≡ count_key card_tag cards k) where
    -- Matches of classes with the same keys settle each known selection alike.
    same_result :
        (s : SettleableSelection)
        → In s known
        → result_at (match_of g' c' k') s ≡ result_at (match_of g c k) s
    unfolding settle_vector
    same_result s i = elim (Bool-cases (is_corners s.family)) [
      | inl e ↦
          result_at-corners s g'.full g'.first c'.counts k'.counts e
          ∙ map-eq-In (result_at (count_match corner_tag c'.counts))
              (result_at (count_match corner_tag c.counts)) corners ec (In-filter_by _ known i e)
          ∙ sym (result_at-corners s g.full g.first c.counts k.counts e)
      | inr e ↦ elim (Bool-cases (is_cards s.family)) [
        | inl e' ↦
            result_at-cards s g'.full g'.first c'.counts k'.counts e'
            ∙ map-eq-In (result_at (count_match card_tag k'.counts))
                (result_at (count_match card_tag k.counts)) cards ek (In-filter_by _ known i e')
            ∙ sym (result_at-cards s g.full g.first c.counts k.counts e')
        | inr e' ↦
            result_at-goals s g'.full g'.first c'.counts k'.counts (ground arith)
            ∙ map-eq-In (result_at (match_state g'.full g'.first none none))
                (result_at (match_state g.full g.first none none)) goals eg
                (In-filter_by _ known i (ground arith))
            ∙ sym (result_at-goals s g.full g.first c.counts k.counts (ground arith))
      ]
    ]

    same_vector : settle_vector known (match_of g' c' k') ≡ settle_vector known (match_of g c k)
    unfolding settle_vector
    same_vector = map-ext _ _ known same_result

  IsFed-OnGrid :
      {g : GoalClass} {c k : CountClass} (s : SettleableSelection)
      → OnGrid g c k
      → In s known
      → IsFed s g.full g.first c.counts k.counts
  IsFed-OnGrid {g} s o i = record {
    half = λ e.
        GoalGrid-has goals options.max_goals g o.goal (In-filter_by _ known i (ground arith))
          (ground arith);
    corners = λ e. o.corner_there;
    cards = λ e. o.card_there;
  }

  In-combinations :
      (gs : List GoalClass) (cs ks : List CountClass) {g : GoalClass} {c k : CountClass}
      → In g gs
      → In c cs
      → In k ks
      → In (record { goal = g; corner = c; card = k }) (combinations gs cs ks)
  unfolding combinations
  In-combinations gs cs ks {g} {c} i j l =
      In-nested (combine_rest cs ks) i
        (In-nested (combine_cards ks g) j (In-nested (combine g c) l here))

  All-map-In :
      (P : SettleableSelection → Type 0) (ss : List SettleableSelection)
      → ((s : SettleableSelection) → In s ss → P s)
      → All P ss
  All-map-In P [] h = tt
  All-map-In P (s ∷ ss) h = (h s here, All-map-In P ss (λ t i. h t (there i)))

  -- The vector of an enumerated score is that of a state.
  module _ (all_known : All IsKnown known) {g : GoalClass} {c k : CountClass}
      (o : OnGrid g c k) where
    settled_there :
        (v : List SettlementResult) × (all_settled (settle_vector known (match_of g c k)) ≡ some v)
    settled_there = all_settled-All (match_of g c k) known (
        All-map-In _ known λ s i.
          IsKnown-has s g.full g.first c.counts k.counts (All-In IsKnown i all_known)
            (IsFed-OnGrid s o i))

    state_there :
        (v : List SettlementResult)
        → all_settled (settle_vector known (match_of g c k)) ≡ some v
        → (st : OutcomeState) × In st
            (values (collect_states known (model_combinations known options) []))
          × (map some st.vector ≡ settle_vector known (match_of g c k))
    unfolding model_combinations
    state_there v e =
        let (g', i, eg) = goal_represented goals options.max_goals g o.goal in
        let (c', j, ec) = count_represented corner_tag corners options.max_corners 20 c o.corner in
        let (k', l, ek) = count_represented card_tag cards options.max_cards 12 k o.card in
        let same = same_vector g g' c c' k k' eg ec ek in
        let (st, p) =
          collect_states-Holds known (model_combinations known options) [] v
            (In-combinations _ _ _ i j l) (ap all_settled same ∙ e) in
        (
          st,
          In-values _ p,
          sym (All-In _ p (collect_states-All known (model_combinations known options) [] tt)).0
              ∙ sym (all_settled-some _ v e),
        )

-- Every enumerated score of a model with a known selection has a state with its vector.
pub model_states_complete :
    (known : List SettleableSelection) (options : StateModelOptions) {g : GoalClass}
    {c k : CountClass}
    → known ≢ []
    → All IsKnown known
    → OnGrid known options g c k
    → (st : OutcomeState) × In st (model_states known options)
      × (map some st.vector ≡ settle_vector known (match_state g.full g.first c.counts k.counts))
unfolding model_states
model_states_complete [] options n all_known o = absurd (n refl)
model_states_complete (s ∷ ss) options n all_known o =
    let (v, e) = settled_there (s ∷ ss) options all_known o in
    state_there (s ∷ ss) options all_known o v e
