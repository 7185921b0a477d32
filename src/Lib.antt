-- ===== src/Lib.antt =====
-- Kint: a checker of integer errors in LLVM bitcode (xqx12/kint-test). This library models the
-- parts of the program that decide something, and proves what they promise.
--
-- The program is a set of LLVM passes. src/OverflowIdiom.cc recognises comparisons that test for
-- overflow and turns them into LLVM's overflow intrinsics; src/OverflowSimplify.cc turns intrinsics
-- with a constant operand into plain comparisons; src/IdealShift.cc gives shifts by too much a
-- definite result; src/IntRewrite.cc inserts calls of `int.sat` on the condition of an error. To
-- ask a solver (src/SMTSolver.h) about such a condition, src/ValueGen.cc builds an expression for
-- it, with assumptions on the ranges of values, and src/PathGen.cc one for the paths that lead to
-- it. src/CmpOverflow.cc looks for guards that compare with a wrong constant, src/CmpTautology.cc
-- for comparisons that always come out the same. src/IntGlobal.cc runs whole-program analyses until
-- nothing changes; they annotate the values that the other passes read: src/CallGraph.cc finds what
-- a function pointer may be, src/Taint.cc follows untrusted values to what they are stored in and
-- passed to, and src/Range.cc computes ranges, which depend on the two and end as the assumptions
-- of ValueGen.
--
-- Word models machine integers of any width (`APInt`, and the iN values of the IR) as natural
-- numbers below 2 ^ n, with their signed reading in Word/Signed. Ir models integer values of the IR
-- as trees (Ir/Defs), with the meaning that LLVM's language reference gives to the instructions; an
-- operation whose result the reference leaves undefined takes it from the environment. Both are the
-- vocabulary of the models, and no code of the repository. Solver is the interface of the solver,
-- an abstract record of operations and of what the theory of bit vectors says of them: Solver for
-- the Boolean part, which PathGen and the ranges use, and Solver/Words for the rest; `formulas` and
-- `meanings` are instances. OverflowSimplify, OverflowIdiom, IntRewrite, IdealShift, CmpOverflow,
-- CmpTautology, PathGen and ValueGen model the files of these names: the pass in Pass (IntRewrite:
-- Checks, Sinks for findSink, and Overflow for insertOverflowCheck; PathGen: Guards; ValueGen:
-- Translate, Ranges for addRangeConstraints and Offsets for visitGEPOperator); Global models
-- src/IntGlobal.cc (Driver) and src/IntGlobal.h (TaintMap). Sat models the checks of src/CmpSat.cc
-- (Comparisons) and src/IntSat.cc (Bugs). CallGraph, Taint and Range model the three analyses
-- (Pass; CallGraph: Find for findFunctions, Init for the initializers; Range: State for the maps
-- and getRange, Visits for instructions, Refine for terminators, Init, and Algebra for what
-- src/CRange.h takes from LLVM, with Flat as an instance). They have each function of the file as
-- one definition, and the theorems in the modules beside it (Range: Results for the ranges of
-- results, Edges for those on the edges of branches; CallGraph: Driven for the pass under the
-- driver of Global); Tests holds runs, and the theorems at concrete inputs. A function that walks
-- over instructions is modelled over the list of what the walk reads of each, and gives the values
-- that take their place together with its `Changed`. Where an assertion of LLVM fails, as in
-- OverflowIdiom for a constant 0, the model has a result of its own.
--
-- Parameters: whether two operands are one object, `isa<Constant>`, the order of printed operands,
-- the solver, and the nearest common dominator are arguments of the definitions that use them. So
-- are ScalarEvolution's answers and the three functions of a whole-program pass. PathGen's `get`
-- takes fuel, for which a rank of the blocks that falls at each recursive call is a bound, and so
-- does Global's `run`, for which a measure that the pass lowers is one; findFunctions takes more
-- than there are values, and doModulePass of Taint and Range more than there are identifiers, and
-- five rounds, and that of CallGraph more than there are pairs of an identifier and a function.
-- llvm::ConstantRange is a record of operations and of what LLVM documents of them. Identifiers of
-- src/Annotation.cc, descriptions and names are numbers, and 0 is the empty one. The caches of
-- expressions and guards are left out, since they only save work.
--
-- Not modelled: the metadata that insertIntSat copies (src/IntRewrite.cc), bit casts, ptrtoint and
-- constant pointers (src/ValueGen.cc), the loading of modules (main of src/IntGlobal.cc), the texts
-- of identifiers (src/Annotation.cc), src/LoadRewrite.cc, the sizes that library calls take
-- (src/IntLibcalls.cc), and the text of reports. The solver bindings and the diagnostics call
-- libraries, but for the shifts of src/SMTBoolector.cc: they are built from shifts at a power of
-- two of bits, and the laws of Solver/Words leave out the widths at which they differ from those of
-- the theory, namely one bit, and for arithmetic shifts all widths that are no power of two.
pub mod Base
pub mod Word
pub mod Ir
pub mod OverflowSimplify
pub mod OverflowIdiom
pub mod IntRewrite
pub mod IdealShift
pub mod CmpOverflow
pub mod Solver
pub mod PathGen
pub mod ValueGen
pub mod Global
pub mod CmpTautology
pub mod Range
pub mod Taint
pub mod CallGraph
pub mod Sat
