-- ===== src/Lib.antt =====
-- Rlyeh, a systems programming language with layered memory management: plain values, regions and
-- a traced `Gc<T>`. The compiler takes a source file to HIR, whose use of regions it checks, and
-- lowers that to MIR, a control-flow graph, on which it runs its optimisation passes; the compiled
-- program calls two run-time libraries, the region allocator and the collector; an actor runtime
-- supervises the actors of a program, and the package manager resolves versions. This development
-- models the region checker, the lowering and the passes, both libraries, the supervision of actors
-- and the version requirements.
--
-- Parts:
--   Common, Common/*: tests into Bool, lists over the native numbers, and decimal notation.
--   Gc, Gc/*: crates/rlyeh-gc-runtime/src/lib.rs. GcState is the global state; alloc, region_begin,
--     escape and collect are the four functions rlyeh_gc_*; mark is fn mark. Gc/Survival has the
--     step relation of the program that calls them.
--   Hir: the types of crates/rlyeh-hir/src/lib.rs, with Span of crates/rlyeh-lexer/src/token.rs.
--   RegionCheck, RegionCheck/*: crates/rlyeh-regionck/src/checker.rs and the errors of error.rs. The
--     state and its operations are in RegionCheck, check_program and the walk in
--     RegionCheck/Checker. RegionCheck/Transfers lists the transfers that a program writes.
--   Mir: the types of crates/rlyeh-mir/src/lib.rs, and the enums of crates/rlyeh-hir/src/lib.rs that
--     they use.
--   Mir/ConstFold, Mir/ConstFold/*: crates/rlyeh-mir/src/passes/const_fold.rs, function by function;
--     Mir/Int128 has the integer operations that it calls.
--   Mir/Dce, Mir/Dce/*: crates/rlyeh-mir/src/passes/dce.rs, function by function.
--   Mir/Inline, Mir/Inline/*: crates/rlyeh-mir/src/passes/inline.rs. The statements of one call are
--     expand_call, the loop over the program is inline_small_functions.
--   Mir/Lower, Mir/Lower/*: crates/rlyeh-mir/src/lower.rs. Mir/Lower has MirLowerer, its basic
--     operations and their chains, Mir/Lower/Control the functions for conditionals, loops and
--     jumps, Mir/Lower/Expr lower_value and its fellows, Mir/Lower/Program lower_program.
--     Mir/Lower/Scopes says what type checking has made sure of.
--   Mir/Passes, Mir/Passes/*: crates/rlyeh-mir/src/passes/mod.rs, the pipeline.
--   Incremental, Incremental/*: crates/rlyeh-driver/src/incremental/depgraph.rs, the graph of the
--     modules, what is compiled again, and in Incremental/Order the order of compilation.
--   Region, Region/*: crates/rlyeh-region-alloc/src: region.rs, bump.rs and block.rs in Region,
--     strategy.rs and stats.rs in Region/Strategy, destructor.rs in Region/Destructors,
--     static_sizer.rs in Region/StaticSizer.
--   Actor/Supervisor, Actor/Restarts: crates/rlyeh-actor-runtime/src/supervisor.rs, with the errors
--     of error.rs.
--   Actor/Sync, Actor/Sync/*: crates/rlyeh-actor-runtime/src/sync.rs, the runtime of WASI programs,
--     with the results that ffi.rs gives. The compiled program, its handlers and factories are data,
--     of which exec runs the calls; a lock of the held mutex is a deadlock.
--   Dagon, Dagon/*: dagon/src/version.rs, of the package manager: the comparisons in Dagon/Version,
--     the solver's sets in Dagon/Ranges, parse and Display in Dagon/Text.
--
-- A panic of the compiler is `none`. The lowering and the region checker recurse on the program.
-- Whether the compiler is built with debug assertions is a field of the lowering's state; with them
-- some programs are not lowered, such as that of the test `debug_build` in Mir/Examples/Lowering.
--
-- Numbers are native; a 64-bit or 128-bit word has its wrap-around or its overflow check written
-- out. Five loops run on fuel: the recursion of mark, with one unit for each registered object, the
-- traversal of remove_unreachable_blocks, with one for each block, the loop of affected_by, with
-- one for each changed module and, for each name, one for each edge, and the two of
-- topological_order, with one for each module. None runs out: each nested call marks a further
-- object, no block is pushed twice, a name pushes its dependents once, and a module is placed or
-- visited once. A
-- run of an actor program has one unit for each call, since such a program need not end; what is
-- said of an answer assumes that the handler and the factory return.
--
-- Parameters: the results of malloc and of the system allocator, the memory that the collector
-- scans, the f64 operations of the growth strategies, the version sets of the
-- crate pubgrub, and two instructions of LLVM, with their documented laws, and the meaning of the statements that a pass
-- moves or keeps, of which the hypotheses are named where they are used.
--
-- Not modelled: the front end (lexer, parser, desugaring, type and borrow checks), LIR and
-- code generation, which are to follow; the mailboxes and threads of
-- the actor runtime of other targets, the rest of the package manager and the size advisor of the
-- region allocator, likewise; reports, profiles, files and processes, which are input and output.
pub mod Common
pub mod Gc
pub mod Mir
pub mod Region
pub mod Hir
pub mod RegionCheck
pub mod Dagon
pub mod Actor
pub mod Incremental
