-- ===== src/Outcome/Model/Reduction.antt =====
-- The states of `buildStateModel`: each is the settlement of its representative, no two have one
-- vector, and every enumerated score has one. And how the first loop shares the selections out.
use mathlib.Core.Option.{some-injective}
use mathlib.Core.List.{append_assoc}
use void.Base.{
  ℕ, zero, suc, ◌+◌, ◌≡◌, ◌≢◌, refl, ap, ◌∙◌, sym, some, List, [], ◌∷◌, ◌++◌, map, arith, In, here,
  there, All, get_elem?, length, length-append, true, false, ok, throws,
}
use void.Domain.Values.{Period}
use void.Outcome.Score.{match_state}
use void.Outcome.Classes.{
  Vector, ClassMap, GoalClass, CountClass, settle_vector, values, has_key, vector_eq,
}
use void.Outcome.Classes.Fold.{Distinct, vector_eq_refl}
use void.Settlement.Settle.Selection.{settle_selection-returned}
use void.Outcome.Model.{
  OutcomeState, StateModelOptions, Sorted, model_combinations, model_states, collect_states,
  build_state_model, sort_selections, sort_one, sort_settled, probe,
}
use void.Outcome.Model.States.{IsSettled, state_match, collect_states-All, collect_states-Distinct}
use void.Outcome.Model.Known.{sort_selections-All}
use void.Outcome.Model.Complete.{OnGrid, model_states_complete}
use void.Settlement.Settle.{settle_selection}
use void.Settlement.Selection.{SettleableSelection, Settles, settled, unknown}

-- The selections that are kept.
abbrev pub known_of : List SettleableSelection → List SettleableSelection
known_of selections = (sort_selections 0 selections).known

values_sound :
    (known : List SettleableSelection) (m : ClassMap OutcomeState) {st : OutcomeState}
    → All (IsSettled known) m
    → In st (values m)
    → map some st.vector ≡ settle_vector known (state_match st)
unfolding values
values_sound known [] h i = elim i [ ]
values_sound known ((k, st) ∷ m) h here = sym h.0.0 ∙ h.0.1
values_sound known ((k, st) ∷ m) h (there i) = values_sound known m h.1 i

model_states_sound :
    (known : List SettleableSelection) (options : StateModelOptions) {st : OutcomeState}
    → In st (model_states known options)
    → map some st.vector ≡ settle_vector known (state_match st)
unfolding model_states
model_states_sound [] options i = elim i [ ]
model_states_sound (s ∷ ss) options i =
    values_sound (s ∷ ss) (collect_states (s ∷ ss) (model_combinations (s ∷ ss) options) [])
      (collect_states-All (s ∷ ss) (model_combinations (s ∷ ss) options) [] tt) i

-- The vector of each state is what the kept selections settle to at the state's representative.
pub build_state_model_sound :
    (selections : List SettleableSelection) (options : StateModelOptions) (st : OutcomeState)
    → In st (build_state_model selections options).states
    → map some st.vector ≡ settle_vector (known_of selections) (state_match st)
unfolding build_state_model
build_state_model_sound selections options st i = model_states_sound (known_of selections) options i

-- If a selection is kept, every score with counts that is enumerated has a state with its vector.
pub build_state_model_complete :
    (selections : List SettleableSelection) (options : StateModelOptions) (g : GoalClass)
    (c k : CountClass)
    → known_of selections ≢ []
    → OnGrid (known_of selections) options g c k
    → (st : OutcomeState) × In st (build_state_model selections options).states
      × (map some st.vector
          ≡ settle_vector (known_of selections) (match_state g.full g.first c.counts k.counts))
unfolding build_state_model
build_state_model_complete selections options g c k n o =
    model_states_complete (known_of selections) options n (sort_selections-All 0 selections) o

abbrev key_of : OutcomeState → Vector
key_of st = map some st.vector

no_such_key :
    (known : List SettleableSelection) (k : Vector) (m : ClassMap OutcomeState) (i : ℕ)
    {st : OutcomeState}
    → All (IsSettled known) m
    → has_key k m ≡ false
    → get_elem? (values m) i ≡ some st
    → k ≢ map some st.vector
unfolding values has_key
no_such_key known k [] i h n e = cc
no_such_key known k ((j, s) ∷ m) zero h n e = λ q.
    let same : j ≡ k = h.0.0 ∙ ap key_of (some-injective _ _ e) ∙ sym q in
    let found : vector_eq j k ≡ true = rw same (vector_eq_refl k) in ground arith
no_such_key known k ((j, s) ∷ m) (suc i) h n e = no_such_key known k m i h.1 (ground arith) e

values-injective :
    (known : List SettleableSelection) (m : ClassMap OutcomeState) (i j : ℕ) {s t : OutcomeState}
    → All (IsSettled known) m
    → Distinct m
    → get_elem? (values m) i ≡ some s
    → get_elem? (values m) j ≡ some t
    → s.vector ≡ t.vector
    → i ≡ j
unfolding values
values-injective known [] i j h d p q e = cc
values-injective known ((k, r) ∷ m) zero zero h d p q e = refl
values-injective known ((k, r) ∷ m) zero (suc j) h d p q e =
    absurd (
      no_such_key known k m j h.1 d.0 q
        (h.0.0 ∙ ap key_of (some-injective _ _ p) ∙ ap (map some) e))
values-injective known ((k, r) ∷ m) (suc i) zero h d p q e = absurd (
    no_such_key known k m i h.1 d.0 p
      (h.0.0 ∙ ap key_of (some-injective _ _ q) ∙ ap (map some) (sym e)))
values-injective known ((k, r) ∷ m) (suc i) (suc j) h d p q e =
    ap suc (values-injective known m i j h.1 d.1 p q e)

model_states-injective :
    (known : List SettleableSelection) (options : StateModelOptions) (i j : ℕ) {s t : OutcomeState}
    → get_elem? (model_states known options) i ≡ some s
    → get_elem? (model_states known options) j ≡ some t
    → s.vector ≡ t.vector
    → i ≡ j
unfolding model_states
model_states-injective [] options i j p q e = cc
model_states-injective (s ∷ ss) options i j p q e =
    let cs = model_combinations (s ∷ ss) options in
    values-injective (s ∷ ss) (collect_states (s ∷ ss) cs []) i j
      (collect_states-All (s ∷ ss) cs [] tt) (collect_states-Distinct (s ∷ ss) cs [] tt) p q e

-- No two states of a model have the same vector.
pub build_state_model-distinct :
    (selections : List SettleableSelection) (options : StateModelOptions) (i j : ℕ)
    (s t : OutcomeState)
    → get_elem? (build_state_model selections options).states i ≡ some s
    → get_elem? (build_state_model selections options).states j ≡ some t
    → s.vector ≡ t.vector
    → i ≡ j
unfolding build_state_model
build_state_model-distinct selections options i j s t p q e =
    model_states-injective (known_of selections) options i j p q e

-- Each index is the place of the selection beside it.
abbrev pub Aligned : List SettleableSelection → List ℕ → List SettleableSelection → Type 0
Aligned all [] [] = Unit
Aligned all (i ∷ is) (s ∷ ss) = (get_elem? all i ≡ some s) × Aligned all is ss
Aligned all _ _ = ⊥

-- What the first loop does from place `i` on, where `all` has the selections `ss`.
abbrev Shares : List SettleableSelection → List SettleableSelection → Sorted → Type 0
Shares all ss r = Aligned all r.indices r.known × (length r.known + length r.unknown ≡ length ss)

sort_settled-Shares :
    (all ss : List SettleableSelection) (i : ℕ) (s : SettleableSelection) (x : Settles) (r : Sorted)
    → settle_selection s probe ≡ x
    → get_elem? all i ≡ some s
    → Shares all ss r
    → Shares all (s ∷ ss) (sort_settled i s x r)
unfolding sort_settled
sort_settled-Shares all ss i s (ok (settled a)) r e g h = ((g, h.0), omega (arith, h.1))
sort_settled-Shares all ss i s (ok (unknown x)) r e g h = (h.0, omega (arith, h.1))
sort_settled-Shares all ss i s (throws x) r e g h =
    absurd (ground (arith, settle_selection-returned s probe))

sort_one-Shares :
    (all ss : List SettleableSelection) (i : ℕ) (s : SettleableSelection) (p : Period) (r : Sorted)
    → get_elem? all i ≡ some s
    → Shares all ss r
    → Shares all (s ∷ ss) (sort_one i s p r)
unfolding sort_one
sort_one-Shares all ss i s Period.extra_time r g h = (h.0, omega (arith, h.1))
sort_one-Shares all ss i s Period.penalties r g h = (h.0, omega (arith, h.1))
sort_one-Shares all ss i s _ r g h =
    sort_settled-Shares all ss i s (settle_selection s probe) r refl g h

get_elem?-skip :
    (before : List SettleableSelection) (s : SettleableSelection) (after : List SettleableSelection)
    → get_elem? (before ++ s ∷ after) (length before) ≡ some s
get_elem?-skip [] s after = refl
get_elem?-skip (b ∷ before) s after = get_elem?-skip before s after

sort_selections-Shares :
    (all before ss : List SettleableSelection) (i : ℕ)
    → all ≡ before ++ ss
    → i ≡ length before
    → Shares all ss (sort_selections i ss)
unfolding sort_selections
sort_selections-Shares all before [] i e l = (tt, omega arith)
sort_selections-Shares all before (s ∷ ss) i e l =
    sort_one-Shares all ss i s s.period (sort_selections (suc i) ss)
      (rw (e, l) (get_elem?-skip before s ss))
      (sort_selections-Shares all (before ++ s ∷ []) ss (suc i)
        (e ∙ sym (append_assoc before (s ∷ []) ss)) (omega (arith, length-append before (s ∷ []))))

-- Every selection is kept or reported as unknown, and each reported index is the place of the kept
-- selection beside it.
pub build_state_model-shares :
    (selections : List SettleableSelection) (options : StateModelOptions)
    → let model = build_state_model selections options in
      Aligned selections model.selection_indices (known_of selections)
      × (length (known_of selections) + length model.unknown ≡ length selections)
unfolding build_state_model
build_state_model-shares selections options =
    sort_selections-Shares selections [] selections 0 refl refl
