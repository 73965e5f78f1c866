-- ===== src/Lib.antt =====
-- cudaEdgeElimination: certified elimination of edges of a travelling salesman instance.
--
-- The program keeps a snapshot of a sparse graph over points of the plane, proposes edges that no
-- optimal tour can use, verifies every proposal on the CPU, and commits the verified ones in epochs.
-- A CUDA device may propose, and is not trusted.
--
-- Files and the code they model:
--   Base            shared names, Boolean tests, lists under native indices, signed integers, results
--                   that may be an exception, 64-bit words
--   Types           include/cuda_edge_elimination/types.hpp
--   Distance        src/common/distance.cpp: IntegerSqrtFloor, ExactIntegerDistance, FloatingDistance;
--                   Distance/Sqrt and Distance/Rounding hold their proofs
--   Graph           include/cuda_edge_elimination/graph.hpp and src/common/graph.cpp: RebuildCsr,
--                   Distance, Degree, HasActiveEdge, ActiveEdgeCount; Graph/Hash is ContentHash;
--                   Graph/Offsets, Fill, Order and Rows prove the rebuild, Graph/Edges and Metric
--                   relate the arrays to the edges and to a metric, and Graph/Search and
--                   Membership are about the binary search
--   Tours           the specification: tours, costs, optimality; Tours/Exchange, Walk and Crossing
--                   are the 2-exchange argument, Tours/Bound and Check serve the examples
--   Jv              src/cpu/jv_elimination.cpp: PotentialCandidateNodes, IsJvWitness,
--                   FindJvCandidatesCpu, VerifyJvCandidate, VerifyCandidates
--   Commit          src/cpu/elimination_commit.cpp: CommitVerifiedCandidates
--   Elimination     include/cuda_edge_elimination/elimination.hpp and src/cpu/jv_elimination.cpp:
--                   ValidateProofContainer; Elimination/Run is RunJvElimination, Elimination/Replay
--                   is ReplayProof, and Survive, Replay/Container, Certified and Fuel their proofs
--   HtEpoch         src/cpu/ht_epoch.cpp: CommitHtProofEpoch; HtEpoch/Safe holds the proof
--   HtScan          src/cpu/ht_scan.cpp: ValidateTargetDevices, SelectHtTargetEdgeIds and the result of
--                   EvaluateHtTarget; HtScan/Workers are the target workers, HtScan/Run is
--                   RunHtScanEpoch; Targets with Targets/Order, Workers/InOrder, Run/Counts and
--                   Run/Outcomes hold the proofs.
--                   HtScan/Validate is ValidateHtGraph of src/cpu/hamilton_tutte.cpp, with which a
--                   scan begins
--   Local           src/cpu/local_elimination.cpp: AppendEliminationStage, with Local/Chain and
--                   Chain/Joined for its proofs; Local/Run is RunLocalElimination, and Run/Outcomes,
--                   Outcomes/Results and Outcomes/Converged its proofs
--   Paths           src/cpu/path_system.cpp: endpoint matchings, their enumeration and the cycle test;
--                   Paths/Table is the compatibility table and EvaluatePathCompatibility;
--                   Paths/Normalize is NormalizePathSystem. The proofs are in Perfect and Inside with
--                   their children, Cycle, Table/Bits, Table/Covers and Table/Answers with their
--                   children, Outside, Normalize/Disjoint and Normalize/Ends
--   Protection      src/common/tour.cpp: CheckProtectedTour; Protection/Walked holds the proof
--   Examples        a sample snapshot; Examples/Witnesses, Scans, Stages and
--                   Matchings apply the theorems to it and to small matchings
--
-- State is passed explicitly. An operation that throws returns `err` with the class of the exception.
-- A run of RunJvElimination returns the snapshot that the caller is left with beside its outcome.
-- A snapshot that is meant by "consistent" satisfies Graph.Rows.IsWellFormed.
--
-- Bounds: the two loops of the integer square root run on 32 rounds of fuel, which a 64-bit value
-- never exceeds; the search of std::lower_bound runs on one more round than the range is long. The
-- round limit of RunJvElimination is the source's own. The outer loop of ReplayProof runs on as much
-- fuel as there are records, and every epoch takes one; a loop that has not ended is `none`. The
-- loop of RunLocalElimination runs on the source's own limit of epochs. The enumeration of inside matchings and the walk of the cycle test run
-- on one more round than there are endpoints, and the loop over permutations of at most six paths on
-- 721 rounds. The walk of NormalizePathSystem along a chain runs on one more round than there are
-- nodes. Vertex numbers, edge ids and weights are
-- natural numbers, as GraphSnapshot::Load ensures; row offsets are not bounded by the 32 bits of
-- std::int32_t, which differs beyond 2 ^ 30 active edges only; the edge id
-- and the witness of a candidate are signed. Sums of distances are exact, as in the source, which forms them in 128 bits. A double is
-- its bit pattern, and the operations on doubles are the parameter FloatOps.
--
-- Not modelled: file input and output, the command line, CUDA kernels, times, the search and cache
-- counters of the scans, the texts of error messages, Hamilton-Tutte search and its certificates
-- with VerifyHtRecursiveProof (the epochs and the replay see them through the record HtVerifier, the
-- scans through the record Search; nothing is assumed of what a search proposes or a verifier
-- accepts), NormalizeSparsePathSystem, k-opt and LP epochs. The devices behind FindJvCandidatesCuda
-- and LookupPathCompatibilityCuda are the records Device and PathDevice, and nothing is assumed of
-- their answers.
mod Base
pub mod Types
pub mod Distance
pub mod Graph
pub mod Tours
pub mod Jv
pub mod Commit
pub mod Elimination
pub mod HtEpoch
pub mod HtScan
pub mod Local
pub mod Paths
pub mod Protection
pub mod Examples
