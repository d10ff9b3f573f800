-- ===== src/Lib.antt =====
-- The k-CAS library: a compare-and-swap of several words at once, without locks.
--
-- A thread that performs an operation saves its words in the shared `State`, claims the target
-- addresses one after another by swapping the expected values for a marker (its thread identifier and
-- the sequence number of the operation in one word), then swaps the markers for the desired values, or
-- swaps them back if a target did not hold its expected value. The stage of the operation stands in
-- the shared state, so that a thread that meets the marker of another can help it to the end first.
--
-- Files, and the code that they model (paths from the repository's root):
--   Word          `usize` on a 64-bit platform. Addition and subtraction wrap around, as in a release
--                 build.
--   Types, Stage  src/types.rs: the stages, and the packing of stages, threads and sequence numbers.
--                 Children of Types prove the round trips (StageAndSequence, Marker) and what the bit
--                 length is (BitLength).
--   Err           src/err.rs: the errors.
--   Sync          src/sync.rs chooses the library of atomics; here a program is the tree of its atomic
--                 accesses (`Prog`), each followed by the code that depends on what it returns.
--   Kcas          src/kcas/mod.rs: `State`, `initialize_operation`, `prepare_for_next_operation`.
--                 Kcas/Operation has `help_thread`, and `kcas` as `perform_kcas`.
--   Kcas/Claim    src/kcas/claim.rs.
--   Kcas/Set      src/kcas/set.rs.
--   Kcas/Revert   src/kcas/revert.rs.
--   Kcas/StageChange, Kcas/Concurrent
--                 src/kcas/stage_change.rs: stage changes, and the reactions to another thread's.
--   Kcas/Memory   the memory that a program runs on (`State` and the caller's words by address), and
--                 `run`, which performs the accesses of one program one after another.
--                 Kcas/Memory/Returns has the rules of total correctness for such runs.
--   Kcas/Sequence the sequence number of the next operation.
--   Wrapper       src/wrapper.rs: the search for a thread slot (Wrapper/Slots) and the three wrappers
--                 (Wrapper/Arc, Wrapper/Ref, Wrapper/Unsafe). Wrapper/Search, Wrapper/Session and
--                 Wrapper/Count prove what they do; Wrapper/Session has the interface that the three
--                 fill.
--   Solo          the proofs for a thread that is not disturbed, phase by phase (Initialize, Claim,
--                 Verdict, Set, Revert, Kcas), of the whole operation (Contract, Setup,
--                 Operation, Spec), and of
--                 a helper that comes too late (Help, Late) or finishes the operation of another
--                 (Finish, with Finish/Claim and Finish/Revert), of a thread that finds its
--                 operation decided by helpers (Finish/Reaction), and of one that meets the marker of
--                 an operation that is over (Waits, Blocked). The targets of one operation are taken
--                 to be different, which the code does not check.
--   Shared        several threads on one memory: the discipline of the accesses (Discipline), the
--                 functions of src/kcas under it (Phases, Setting, Claiming, Whole), schedules as
--                 lists of steps (Schedule), what others do meanwhile (Forward,
--                 Ownership), and bounds on the accesses of a thread (Bounded, Loops, Ends,
--                 WaitFree).
--   Safety        the same, from a new state on, with what the documentation asks of callers: what the
--                 threads keep true together (Order, World), what one can rely on while the others
--                 take steps (Later), the writes that keep to it (Writes, StageWrites), programs that are safe
--                 (Safe, Work), the functions of src/kcas as such (Check, Phases, Setting, Change,
--                 OwnChange, Handlers, Claiming, Helping, Operation), and all points of all interleavings (Steps,
--                 Run, Always).
--   Tests         witnesses, and whole runs at concrete inputs.
--
-- How the state corresponds: each array of atomics is a function of its indices, and an access outside
-- the array panics (`in_bounds`). An `AtomicBool` holds 0 or 1, a null pointer is address 0, and a
-- `KCasWord` holds the address of its target. `NUM_THREADS` and `NUM_WORDS` are arguments. The
-- functions that call each other in a cycle through src/kcas take their partner as an argument, and
-- Kcas/Operation and Kcas/Concurrent tie the knot.
--
-- Fuel: 'cas_loop of `claim`, which a spurious failure of the weak compare-exchange starts again,
-- nested help, and the reactions to concurrent stage changes are recursions on fuel, and
-- `out_of_fuel` is an end of its own. A list of Booleans says which weak compare-exchanges of a run
-- fail spuriously. The operation of a thread that is not disturbed goes through 'cas_loop once more
-- for each such failure, so fuel above their number is enough for it. A fuel of 2 is enough for the
-- reactions of a thread to concurrent changes of its own stage, in any interleaving.
--
-- Not modelled: the memory orderings (accesses are sequentially consistent), tracing, `Display` and
-- `Debug`, the lifetimes of `Arc`, references and `NonNull` (there is one shared state, and it is
-- valid), 32-bit platforms, the choice of the library of atomics, and the tests.
pub mod Base
pub mod Word
pub mod Stage
pub mod Err
pub mod Types
pub mod Sync
pub mod Kcas
pub mod Wrapper
pub mod Solo
pub mod Shared
pub mod Safety
pub mod Tests
