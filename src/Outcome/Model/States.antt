-- ===== src/Outcome/Model/States.antt =====
-- The states that the loop over the combinations pushes.
use void.Base.{
  ◌≡◌, refl, sym, Option, none, some, List, [], ◌∷◌, map, arith, inl, inr, In, here, there, All,
  Option-cases,
}
use void.Domain.Values.{SettlementResult}
use void.Outcome.Score.{match_state}
use void.Outcome.Classes.{Vector, ClassMap, settle_vector}
use void.Outcome.Classes.Fold.{
  Holds, Distinct, set_new-Holds, set_new-grows, set_new-All, set_new-Distinct,
}
use void.Outcome.Model.{
  OutcomeState, Combination, combination_match, combination_state, all_settled, add_state,
  collect_states,
}
use void.Settlement.Selection.{SettleableSelection, MatchState}

pub all_settled-some :
    (u : Vector) (v : List SettlementResult) → all_settled u ≡ some v → u ≡ map some v
unfolding all_settled
all_settled-some [] v h = ground arith
all_settled-some (none ∷ u) v h = cc
all_settled-some (some r ∷ u) v h = elim (Option-cases (all_settled u)) [
  | inl e ↦ ground arith
  | inr (w, e) ↦ ground (arith, all_settled-some u w e)
]

-- The match that a state stands for.
abbrev pub state_match : OutcomeState → MatchState
state_match st = match_state st.representative st.first_half st.corners st.cards

module _ (known : List SettleableSelection) where
  abbrev vector_at : Combination → Vector
  vector_at c = settle_vector known (combination_match c)

  -- A state under the key that its vector spells, and that its match settles to.
  abbrev pub IsSettled : Vector × OutcomeState → Type 0
  IsSettled e = (e.0 ≡ map some e.1.vector) × (e.0 ≡ settle_vector known (state_match e.1))

  add_state-grows :
      (c : Combination) (o : Option (List SettlementResult)) (m : ClassMap OutcomeState)
      {e : Vector × OutcomeState}
      → In e m
      → In e (add_state c o m)
  unfolding add_state
  add_state-grows c none m i = i
  add_state-grows c (some v) m i = set_new-grows _ _ m i

  collect_states-grows :
      (cs : List Combination) (m : ClassMap OutcomeState) {e : Vector × OutcomeState}
      → In e m
      → In e (collect_states known cs m)
  unfolding collect_states
  collect_states-grows [] m i = i
  collect_states-grows (c ∷ cs) m i =
      collect_states-grows cs (add_state c (all_settled (vector_at c)) m)
        (add_state-grows c (all_settled (vector_at c)) m i)

  add_state-Holds :
      (c : Combination) (v : List SettlementResult) (o : Option (List SettlementResult))
      (m : ClassMap OutcomeState)
      → o ≡ some v
      → Holds (map some v) (add_state c o m)
  unfolding add_state
  add_state-Holds c v o m e = rw e (set_new-Holds (map some v) (combination_state c v) m)

  pub collect_states-Holds :
      (cs : List Combination) (m : ClassMap OutcomeState) (v : List SettlementResult)
      {c : Combination}
      → In c cs
      → all_settled (vector_at c) ≡ some v
      → Holds (map some v) (collect_states known cs m)
  unfolding collect_states
  collect_states-Holds [] m v i e = elim i [ ]
  collect_states-Holds (c ∷ cs) m v here e =
      let (st, i) = add_state-Holds c v (all_settled (vector_at c)) m e in
      (st, collect_states-grows cs _ i)
  collect_states-Holds (c ∷ cs) m v (there i) e =
      collect_states-Holds cs (add_state c (all_settled (vector_at c)) m) v i e

  add_state-All :
      (c : Combination) (o : Option (List SettlementResult)) (m : ClassMap OutcomeState)
      → all_settled (vector_at c) ≡ o
      → All IsSettled m
      → All IsSettled (add_state c o m)
  unfolding add_state combination_state
  add_state-All c none m e h = h
  add_state-All c (some v) m e h =
      set_new-All IsSettled (map some v) (combination_state c v) m h
        (refl, sym (all_settled-some (vector_at c) v e))

  pub collect_states-All :
      (cs : List Combination) (m : ClassMap OutcomeState)
      → All IsSettled m
      → All IsSettled (collect_states known cs m)
  unfolding collect_states
  collect_states-All [] m h = h
  collect_states-All (c ∷ cs) m h =
      collect_states-All cs (add_state c (all_settled (vector_at c)) m)
        (add_state-All c (all_settled (vector_at c)) m refl h)

  add_state-Distinct :
      (c : Combination) (o : Option (List SettlementResult)) (m : ClassMap OutcomeState)
      → Distinct m
      → Distinct (add_state c o m)
  unfolding add_state
  add_state-Distinct c none m d = d
  add_state-Distinct c (some v) m d = set_new-Distinct _ _ m d

  pub collect_states-Distinct :
      (cs : List Combination) (m : ClassMap OutcomeState)
      → Distinct m
      → Distinct (collect_states known cs m)
  unfolding collect_states
  collect_states-Distinct [] m d = d
  collect_states-Distinct (c ∷ cs) m d =
      collect_states-Distinct cs (add_state c (all_settled (vector_at c)) m)
        (add_state-Distinct c (all_settled (vector_at c)) m d)
