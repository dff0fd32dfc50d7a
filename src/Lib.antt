-- ===== src/Lib.antt =====
-- Verification library of CodeSkeptic, a static analyzer for C and C++ built on Clang.
--
-- The analyzer runs abstract interpretations over Clang's control-flow graphs. A domain gives an
-- initial state, a merge, a transfer of statements, a refinement on branch edges and a widening; the
-- engine iterates them over a work list until nothing changes; rules read the states and report
-- findings; the counts of a run decide its verdict and exit code. The library follows that chain for
-- the numeric domain, from 64-bit interval arithmetic up to the stored states.
--
-- The parts, and the code that each is about:
--   Prelude: Boolean tests, lists and signed integers over the native numbers.
--   Interval (src/engine/Interval.h, Interval.cpp): the class Interval. Checked holds the
--     overflow-checked operations in both build variants, Arith the arithmetic and the guard
--     refinement (constrainLt and so on). An integer is exact, and the checked operations
--     compare with the 64-bit bounds. Lattice, Sound, Guards, Widening and Portable hold theorems.
--   Condition (src/engine/ConditionWalk.h): expressions as far as the walk tells them apart, and
--     walkCondition, whose two callbacks are the two constructors of a fact. Meaning says what
--     expressions evaluate to; Walk and Parts hold theorems. The digests walkNullCondition and
--     walkZeroCondition are in Digests, with edgeCondition of src/engine/DataflowEngine.h.
--   IntervalEval (src/engine/IntervalEval.cpp, CallRefArgs.h): evalInterval and
--     refineIntervalOnEdge in the parent, the scanf formats in Scanf, applyIntervalAssign in Assign.
--     Ranges, Values, Eval and Refine hold theorems.
--   Dataflow (src/engine/DataflowEngine.h): the graph, the interface of an analysis, and the
--     predecessor loop; Loop holds computeEntryState, the block walk, widening, the work list and
--     runDataflow. Semantics defines executions and the laws of a sound analysis; Entry, Round,
--     Visit, Pending and Sound hold theorems.
--   IntervalAnalysis (src/engine/IntervalAnalysis.h): the class as the engine takes it. Engine
--     makes it an analysis of Dataflow; Execution defines what statements do and which are plain, those
--     that the domain is right about; the other modules hold theorems, and Sound composes the domain with the engine.
--   PathFacts (src/engine/PathFacts.cpp): the keys of conditions, normalizeCompare and
--     factsContradict in the parent, conditionFact and the readings of expressions in Conditions.
--     Stores says what a fact means; Contradiction, Normal, Keying, Comparison and Facts hold theorems.
--   Disjuncts (src/engine/GuardedDisjuncts.h): states as lists of facts with values, their canonical
--     form, join and collapse in the parent, the refinement by conditions in Edges, and the facts
--     that statements erase and stamp in Statements. Covers and Execution define what a state covers
--     and what a statement does; Maps, Normalize, Refinement, Leaves, Assignments and Lifecycle
--     hold theorems. Expressions and statements are those of Condition and IntervalEval.
--   SummaryDiff (src/engine/SummaryDiff.cpp): the comparison of two harvests of function summaries
--     in Diff. Weakening says, relation by relation, what it is to become weaker; Gate, Visited, Report
--     and Unchanged hold theorems.
--   Summaries (src/engine/FunctionSummary.cpp): mergeConservative and mergeTargetSummaries, on the
--     record of SummaryDiff. Columns and Scalars are columns of the lines that saveGlobal writes
--     and parseSummaryFile reads, at version 11. Calls says what a summary claims of a call; Agreement,
--     Params, Conservative, Targets, ColumnTrip, Decimals, ScalarTrip and Savable hold theorems.
--   Baseline (src/analyzer/Baseline.cpp): the two kinds of keys with the hash of the source line,
--     and write, load and filter. Strings are lists of bytes and files lists of lines. Keys,
--     Budget, Filter and Moved hold theorems.
--   Contracts (src/contracts/ContractParser.cpp): the clauses, the lexer in Lexer, the class Parser and
--     parseClauseBody in Parser, the scan of a comment in Comments. The state of the parser is the
--     list of the tokens left. Outcome tells nullopt from an exception of std::stoll; Grammar is
--     section 3 of docs/CONTRACTS.md, and Printer writes predicates as tokens. Fuel, LexFuel,
--     Totality, Complete, Sound, ClauseSound, Reads, RoundTrip and Clauses hold theorems.
--   Sidecar (src/contracts/Sidecar.cpp): parseSidecarText and sidecarContractsForDecl, on the text of
--     the file and the names of the function. Lines holds theorems.
--   Verdict (src/core/AnalysisResult.h, ExitPolicy.h): the verdict of a run and its exit code.
--   Examples: concrete runs, and the theorems at concrete inputs.
--
-- Bounds and fuel. The engine's loop runs on the fuel that the code computes, numBlocks times
-- (latticeHeight + 2); when it is used up the result says so, and the theorems on results ask for
-- a run that converged, as the code's clients do. The format parser runs on one more than the
-- length of the format. Decimal numbers have the 10 digits of a 32-bit unsigned at most, and hexadecimal
-- ones the 16 of a hash. The lexer of contracts runs on one more than the length of its text, and
-- the parser on 5 n + 6 for n tokens, where it needs 4 n + 4. Everything else recurs on its argument.
--
-- Not modelled: Clang's AST, graph builder and constant evaluator, which are data and parameters; the
-- reporting pass; evalSizeInterval and soleDefIntervals; arithmetic that wraps around, writes through
-- pointers and scanf conversions that fail, which no execution here contains; the rules; the
-- enforcement of contracts and the cache of sidecar files; the null condition, the field writes and
-- the older versions of summary files; and the reading and writing of files.
--
-- Limits. The theorems on intervals hold of plain statements: an initialiser or an assigned value whose
-- literal reaches the sign bit of its type is read as negative by the code, and a variable of 64 bits
-- without a sign that a scanf or an untrusted source writes keeps its old interval. On a branch every
-- variable has a signed 64-bit value, and Clang's constant evaluator is right in the states of the
-- program, which are a parameter. The theorems on facts ask that no implicit cast in a condition
-- changes a value and that no variable or part of the condition that has an unsigned type is
-- negative; signed variables have any value. Enum constants of an unsigned type are below the sign
-- bit. The gate does not compare the claims that a zero or a null is passed on from a parameter, nor
-- the condition of a null return.
pub mod Prelude
pub mod Interval
pub mod Verdict
pub mod Dataflow
pub mod Condition
pub mod IntervalEval
pub mod IntervalAnalysis
pub mod Examples
pub mod SummaryDiff
pub mod Baseline
pub mod PathFacts
pub mod Disjuncts
pub mod Contracts
pub mod Summaries
pub mod Sidecar
