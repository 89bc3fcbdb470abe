-- ===== src/Tests/Generating.antt =====
-- Generation and pruning of candidates.
use void.Base.{
  ℕ, ◌≤◌, ◌<◌, ◌≡◌, refl, sym, subst, true, false, some, List, [], ◌∷◌, In, here, arith, length,
  get_elem?, max, All-In,
}
use void.Base.Ratio.{IsProper}
use void.Domain.Values.{Period}
use void.Arbitrage.Candidate.{
  Candidate, PricedSelection, PruneReason, PruneVerdict, SourceStatus, StructureType, ratio,
}
use void.Arbitrage.Combos.{combinations}
use void.Arbitrage.Combos.Chosen.{sublists, combinations-sublists}
use void.Arbitrage.Generate.Best.{IsBest, best_price_per_selection-IsBest}
use void.Arbitrage.Generate.{
  GeneratorOptions, combo_usable, make_candidate, best_price_per_selection,
}
use void.Arbitrage.Generate.Capped.{
  generated, cap_of, combos, generate_candidates-capped, generate_candidates_complete,
}
use void.Arbitrage.Generate.Structured.{Structured, generate_candidates-Structured}
use void.Arbitrage.Prune.{PruneOptions, prune_candidate}
use void.Arbitrage.Prune.Clean.{is_structural, prune_candidate-generated}
use void.Arbitrage.Structure.{text_lt}
use void.Text.{Text, codes}
use void.Tests.Scanning.{priced_over, priced_under, priced, code_le, options}

abbrev combo_ids : List (List ℕ)
combo_ids = combinations (1 ∷ 2 ∷ 3 ∷ []) 2

combinations-sublists_example : combo_ids ≡ sublists (1 ∷ 2 ∷ 3 ∷ []) 2
combinations-sublists_example = combinations-sublists (1 ∷ 2 ∷ 3 ∷ []) 2

abbrev pair : Candidate
pair = record {
  id = codes "e|FULL_MATCH|over+under";
  event_id = codes "e";
  period = Period.full_match;
  structure = StructureType.same_market_complement;
  legs = priced;
}

is_pair : generated code_le priced options.generator ≡ pair ∷ []
unfolding void.Arbitrage.Report.join_bar void.Arbitrage.Report.metric_key
    void.Arbitrage.Report.selection_key void.Arbitrage.Report.leg_id_or
    void.Arbitrage.Report.leg_ids_for void.Arbitrage.Report.empty_report
    void.Arbitrage.Report.push_group void.Arbitrage.Report.large_groups
    void.Arbitrage.Report.group_legs void.Arbitrage.Report.duplicate_legs
    void.Arbitrage.Report.push_rejection void.Domain.Names.family_name void.Domain.Names.type_name
    void.Domain.Names.period_name void.Domain.Names.participant_name void.Domain.Names.outcome_name
    void.Arbitrage.Structure.text_lt void.Arbitrage.Structure.family_eq
    void.Arbitrage.Structure.period_eq void.Arbitrage.Structure.pair_key
    void.Arbitrage.Structure.families_compatible void.Arbitrage.Structure.is_standard_complement
    void.Arbitrage.Structure.distinct_from void.Arbitrage.Structure.classify_structure
    void.Arbitrage.Combos.run_from void.Arbitrage.Combos.advance void.Arbitrage.Combos.index_lists
    void.Arbitrage.Combos.binomial void.Arbitrage.Combos.pick void.Arbitrage.Combos.combinations
    void.Arbitrage.Generate.duplicate_from void.Arbitrage.Generate.pairwise_compatible
    void.Arbitrage.Generate.is_source_available void.Arbitrage.Generate.lookup
    void.Arbitrage.Generate.put void.Arbitrage.Generate.improve void.Arbitrage.Generate.best_prices
    void.Arbitrage.Generate.winners_of void.Arbitrage.Generate.best_price_per_selection
    void.Arbitrage.Generate.group_priced void.Arbitrage.Generate.combos_of
    void.Arbitrage.Generate.all_combos void.Arbitrage.Generate.join_with
    void.Arbitrage.Generate.insert_leg void.Arbitrage.Generate.sort_legs
    void.Arbitrage.Generate.candidate_of void.Arbitrage.Generate.make_candidate
    void.Arbitrage.Generate.accept void.Arbitrage.Generate.take_new
    void.Arbitrage.Generate.generate_candidates void.Text.is_digit void.Text.digits_value
    void.Text.show_fuel void.Text.show_nat void.Text.span_digits
is_pair = refl

generate_candidates-capped_example :
    (length (generated code_le priced options.generator) ≤ max (cap_of options.generator) 1)
    × ((i j : ℕ) (c d : Candidate)
        → get_elem? (generated code_le priced options.generator) i ≡ some c
        → get_elem? (generated code_le priced options.generator) j ≡ some d
        → c.id ≡ d.id
        → i ≡ j)
generate_candidates-capped_example = generate_candidates-capped code_le priced options.generator

pair_made :
    (length (generated code_le priced options.generator) < cap_of options.generator)
    × In priced (combos priced options.generator)
    × (combo_usable code_le priced ≡ true)
    × (make_candidate code_le priced ≡ some pair)
unfolding void.Arbitrage.Report.join_bar void.Arbitrage.Report.metric_key
    void.Arbitrage.Report.selection_key void.Arbitrage.Report.leg_id_or
    void.Arbitrage.Report.leg_ids_for void.Arbitrage.Report.empty_report
    void.Arbitrage.Report.push_group void.Arbitrage.Report.large_groups
    void.Arbitrage.Report.group_legs void.Arbitrage.Report.duplicate_legs
    void.Arbitrage.Report.push_rejection void.Domain.Names.family_name void.Domain.Names.type_name
    void.Domain.Names.period_name void.Domain.Names.participant_name void.Domain.Names.outcome_name
    void.Arbitrage.Structure.text_lt void.Arbitrage.Structure.family_eq
    void.Arbitrage.Structure.period_eq void.Arbitrage.Structure.pair_key
    void.Arbitrage.Structure.families_compatible void.Arbitrage.Structure.is_standard_complement
    void.Arbitrage.Structure.distinct_from void.Arbitrage.Structure.classify_structure
    void.Arbitrage.Combos.run_from void.Arbitrage.Combos.advance void.Arbitrage.Combos.index_lists
    void.Arbitrage.Combos.binomial void.Arbitrage.Combos.pick void.Arbitrage.Combos.combinations
    void.Arbitrage.Generate.duplicate_from void.Arbitrage.Generate.pairwise_compatible
    void.Arbitrage.Generate.is_source_available void.Arbitrage.Generate.lookup
    void.Arbitrage.Generate.put void.Arbitrage.Generate.improve void.Arbitrage.Generate.best_prices
    void.Arbitrage.Generate.winners_of void.Arbitrage.Generate.best_price_per_selection
    void.Arbitrage.Generate.group_priced void.Arbitrage.Generate.combos_of
    void.Arbitrage.Generate.all_combos void.Arbitrage.Generate.join_with
    void.Arbitrage.Generate.insert_leg void.Arbitrage.Generate.sort_legs
    void.Arbitrage.Generate.candidate_of void.Arbitrage.Generate.make_candidate
    void.Arbitrage.Generate.accept void.Arbitrage.Generate.take_new
    void.Arbitrage.Generate.generate_candidates void.Text.is_digit void.Text.digits_value
    void.Text.show_fuel void.Text.show_nat void.Text.span_digits
pair_made = (omega arith, here, refl, refl)

generate_candidates_complete_example :
    (d : Candidate) × In d (generated code_le priced options.generator) × (pair.id ≡ d.id)
generate_candidates_complete_example =
    generate_candidates_complete code_le priced options.generator priced pair pair_made.0
      pair_made.1 pair_made.2 pair_made.3

pair_there : In pair (generated code_le priced options.generator)
pair_there = subst (In pair) (sym is_pair) here

generate_candidates-Structured_example : Structured priced options.generator pair
generate_candidates-Structured_example =
    generate_candidates-Structured code_le priced options.generator pair pair_there

-- A price of five, at a hundred, may be ten old.
abbrev strict : PruneOptions
strict = record (options.prune) {
  allow_same_bookmaker = some false;
  max_age_ms = some 10;
  now = some 100;
}

abbrev old_over : PricedSelection
old_over = record priced_over { observed_at = some 5 }

abbrev old_pair : Candidate
old_pair = record pair { legs = old_over ∷ priced_under ∷ [] }

abbrev stale : PruneVerdict
stale = record { reason = PruneReason.stale_odds; leg_ids = some (codes "over" ∷ []) }

old_there :
    In old_pair (generated code_le (old_over ∷ priced_under ∷ []) options.generator)
    × In stale (prune_candidate old_pair strict 0)
unfolding void.Arbitrage.Report.join_bar void.Arbitrage.Report.metric_key
    void.Arbitrage.Report.selection_key void.Arbitrage.Report.leg_id_or
    void.Arbitrage.Report.leg_ids_for void.Arbitrage.Report.empty_report
    void.Arbitrage.Report.push_group void.Arbitrage.Report.large_groups
    void.Arbitrage.Report.group_legs void.Arbitrage.Report.duplicate_legs
    void.Arbitrage.Report.push_rejection void.Domain.Names.family_name void.Domain.Names.type_name
    void.Domain.Names.period_name void.Domain.Names.participant_name void.Domain.Names.outcome_name
    void.Arbitrage.Structure.text_lt void.Arbitrage.Structure.family_eq
    void.Arbitrage.Structure.period_eq void.Arbitrage.Structure.pair_key
    void.Arbitrage.Structure.families_compatible void.Arbitrage.Structure.is_standard_complement
    void.Arbitrage.Structure.distinct_from void.Arbitrage.Structure.classify_structure
    void.Arbitrage.Combos.run_from void.Arbitrage.Combos.advance void.Arbitrage.Combos.index_lists
    void.Arbitrage.Combos.binomial void.Arbitrage.Combos.pick void.Arbitrage.Combos.combinations
    void.Arbitrage.Generate.duplicate_from void.Arbitrage.Generate.pairwise_compatible
    void.Arbitrage.Generate.is_source_available void.Arbitrage.Generate.lookup
    void.Arbitrage.Generate.put void.Arbitrage.Generate.improve void.Arbitrage.Generate.best_prices
    void.Arbitrage.Generate.winners_of void.Arbitrage.Generate.best_price_per_selection
    void.Arbitrage.Generate.group_priced void.Arbitrage.Generate.combos_of
    void.Arbitrage.Generate.all_combos void.Arbitrage.Generate.join_with
    void.Arbitrage.Generate.insert_leg void.Arbitrage.Generate.sort_legs
    void.Arbitrage.Generate.candidate_of void.Arbitrage.Generate.make_candidate
    void.Arbitrage.Generate.accept void.Arbitrage.Generate.take_new
    void.Arbitrage.Generate.generate_candidates void.Arbitrage.Prune.odds_invalid
    void.Arbitrage.Prune.faults_found void.Arbitrage.Prune.leg_verdicts
    void.Arbitrage.Prune.group_ids void.Arbitrage.Prune.duplicate_verdicts
    void.Arbitrage.Prune.reuses_bookmaker void.Arbitrage.Prune.fails_prefilter
    void.Arbitrage.Prune.concat void.Arbitrage.Prune.prune_candidate void.Text.is_digit
    void.Text.digits_value void.Text.show_fuel void.Text.show_nat void.Text.span_digits
old_there = (here, here)

prune_candidate-generated_example : is_structural stale.reason ≡ false
prune_candidate-generated_example =
    prune_candidate-generated code_le (old_over ∷ priced_under ∷ []) options.generator old_pair
      strict 0 stale old_there.0 old_there.1

-- The source of the better price is down.
abbrev down_over : PricedSelection
down_over = record priced_over { odds = ratio 30 10; source_status = some SourceStatus.down }

abbrev quoted : List PricedSelection
quoted = down_over ∷ priced_over ∷ []

quoted-IsProper : (e : PricedSelection) → In e quoted → IsProper e.odds
quoted-IsProper e i = All-In (λ x. IsProper x.odds) i (omega arith, (omega arith, tt))

is_winner : In priced_over (best_price_per_selection quoted)
unfolding void.Arbitrage.Report.join_bar void.Arbitrage.Report.metric_key
    void.Arbitrage.Report.selection_key void.Arbitrage.Report.leg_id_or
    void.Arbitrage.Report.leg_ids_for void.Arbitrage.Report.empty_report
    void.Arbitrage.Report.push_group void.Arbitrage.Report.large_groups
    void.Arbitrage.Report.group_legs void.Arbitrage.Report.duplicate_legs
    void.Arbitrage.Report.push_rejection void.Domain.Names.family_name void.Domain.Names.type_name
    void.Domain.Names.period_name void.Domain.Names.participant_name void.Domain.Names.outcome_name
    void.Arbitrage.Generate.duplicate_from void.Arbitrage.Generate.pairwise_compatible
    void.Arbitrage.Generate.is_source_available void.Arbitrage.Generate.lookup
    void.Arbitrage.Generate.put void.Arbitrage.Generate.improve void.Arbitrage.Generate.best_prices
    void.Arbitrage.Generate.winners_of void.Arbitrage.Generate.best_price_per_selection
    void.Arbitrage.Generate.group_priced void.Arbitrage.Generate.combos_of
    void.Arbitrage.Generate.all_combos void.Arbitrage.Generate.join_with
    void.Arbitrage.Generate.insert_leg void.Arbitrage.Generate.sort_legs
    void.Arbitrage.Generate.candidate_of void.Arbitrage.Generate.make_candidate
    void.Arbitrage.Generate.accept void.Arbitrage.Generate.take_new
    void.Arbitrage.Generate.generate_candidates
is_winner = here

best_price_per_selection-IsBest_example : IsBest quoted priced_over
best_price_per_selection-IsBest_example =
    best_price_per_selection-IsBest quoted priced_over quoted-IsProper is_winner
