-- ===== src/Lib.antt =====
-- 22_VOID finds sets of bets, at the prices of several bookmakers, that win whatever the score is.
-- This library models the packages that decide whether such a set exists and whether it may be shown.
--
-- How the program's parts fit together. packages/domain has the value sets and the algebra that turns
-- the components of a settled bet into a result. packages/settlement settles one selection at one
-- match: settleSelection (src/settle.ts), on lines that src/line.ts parses and splits, with the
-- payouts of src/payout.ts, behind the versioned rules of src/engine.ts. packages/outcome-engine
-- (src/state-model.ts) runs settleSelection over an enumeration of scores and keeps one state for each
-- vector of results. packages/arbitrage generates sets of priced selections and prunes them
-- (src/candidates.ts), checks the states of a set (src/coverage.ts), finds stakes for it
-- (src/optimizer.ts, src/simplex.ts) and decides what it may be shown as (src/validation.ts).
-- packages/alerting (src/evaluate.ts) folds health signals into alerts. workers/odds-collector polls
-- the suppliers, with retries and a rate limit, reports its own health, and runs the detection: it
-- takes the best price of each selection, scans, and validates each set that pays
-- (src/detect.ts). apps/web limits the requests of each caller.
--
-- Which file models which part:
--   Base, Text             shared tests, lists, integers, rationals; strings and printed numbers
--   Domain/Values, Names   packages/domain/src/value-sets.ts and the MarketType of market.ts
--   Domain/Components      packages/domain/src/settlement.ts
--   Domain/Freshness       packages/domain/src/freshness.ts
--   Domain/Stamp           timestamps, as the result of Date.parse
--   Settlement/Line        packages/settlement/src/line.ts: parse_canonical_line is parseCanonicalLine
--   Settlement/Selection   the data of packages/settlement/src/settle.ts
--   Settlement/Settle      its functions: settle_selection is settleSelection
--   Settlement/Payout      packages/settlement/src/payout.ts
--   Settlement/Engine      packages/settlement/src/engine.ts: a store is its list of rules; the methods
--                          take it as an argument and return the next one
--   Outcome/Score          packages/outcome-engine/src/score.ts
--   Outcome/Bounds         boundaryMax and resolveLimit of packages/outcome-engine/src/state-model.ts
--   Outcome/Classes        buildGoalClasses and buildCountClasses of state-model.ts
--   Outcome/Model          buildStateModel, settlementMatrix and payoffMatrix of state-model.ts
--   Arbitrage/Report       the report of packages/arbitrage/src/coverage.ts and its keys
--   Arbitrage/Coverage     the detection of coverage.ts: detect_false_arb is detectFalseArb; the
--                          arrays that the loop over the states fills are the record Findings
--   Arbitrage/Candidate    the data of packages/arbitrage/src/validation.ts and candidates.ts
--   Arbitrage/Simplex      packages/arbitrage/src/simplex.ts: a tableau is its rows and its basis
--   Arbitrage/Stakes       packages/arbitrage/src/optimizer.ts: optimize_stakes is optimizeStakes
--   Arbitrage/Structure    the families and the structure classes of packages/arbitrage/src/candidates.ts
--   Arbitrage/Combos       its generator combinations, as the list of what it yields
--   Arbitrage/Generate     bestPricePerSelection and generateCandidates of candidates.ts
--   Arbitrage/Prune        its pruneCandidate
--   Arbitrage/Scan         its scanCandidates, which runs all of these
--   Arbitrage/Checks       the checks of validation.ts: ages, confidences, timestamps and the recheck
--   Arbitrage/Validation   its decision: validate_candidate is validateCandidate
--   Signals                packages/alerting/src/types.ts and the events of evaluate.ts
--   Alerting               packages/alerting/src/evaluate.ts: advance_rule is advanceRule and returns
--                          the state with the events that the code pushes
--   Worker/Retry           workers/odds-collector/src/retry.ts: with_retry is withRetry; the callback is
--                          a function from the attempt to what it returns
--   Worker/Limiter         workers/odds-collector/src/rate-limit.ts: the fields of the limiter that change
--                          are the record TokenBucket, the clock and the timer a parameter
--   Worker/Health          workers/odds-collector/src/health.ts: the variables of the state are a record
--   Worker/Detect          workers/odds-collector/src/detect.ts: the price selection of each event and
--                          period; the groups are those of generateCandidates
--   Worker/Detection       its runDetection, which picks, scans and validates; the rows that the store
--                          loads are an argument
--   Web/Limiter            apps/web/lib/security/rate-limit.ts: the callers' buckets are a list
--   Tests                  runs on concrete inputs, and the theorems applied to some
-- The modules below these have the proofs.
--
-- How the code is modelled. A value set of strings is a data type. A floating-point amount is an exact
-- rational and a line an exact fraction, so rounding is no part of the model. Goals and counts are
-- natural numbers, and margins integers. A reason or note in English is a constructor with its
-- arguments. An exception is a value of a Result. A JavaScript Map or Set with string keys is a list in
-- the order of insertion; the keys that the state model joins from results are the lists of results.
-- Date.now is an argument. A timestamp of a rule or a price is a natural number of milliseconds, so none
-- is before 1970; those of the worker's health are integers, and out of the range of a Date they throw
-- where the code prints them. A number of hundredths prints with all its digits, where the code would
-- turn to an exponent from 1e21. Every loop of the program runs over a list or over a range with a known
-- end, so it is structural recursion, but for some. The printing of a number recurses on fuel, which
-- is the number plus one and is enough because each step divides by ten. The loop of combinations has
-- as fuel the number of combinations. The simplex has the cap of its own code, 20000 rounds, after which
-- it reports an optimum as the code does; nothing that is proved depends on that report. Euclid's
-- algorithm, which keeps the rationals of the simplex small, has the second number plus one.
-- withRetry has one round for each allowed attempt and one more. The loop of acquire has any fuel: two
-- rounds are enough where the capacity is a token or more and the clock goes on.
--
-- Not modelled: schemas of zod, databases, HTTP and the web application, whose code is calls of
-- libraries; prose details and the format functions; packages/normalization and the loop of the
-- collector worker.
-- localeCompare, the order of ids, is a parameter.
pub mod Base
pub mod Text
pub mod Domain
pub mod Settlement
pub mod Outcome
pub mod Arbitrage
pub mod Signals
pub mod Alerting
pub mod Worker
pub mod Web
pub mod Tests
