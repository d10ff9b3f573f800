-- ===== src/Kcas/Sequence.antt =====
-- src/kcas/mod.rs: the sequence number of the next operation, and what becomes of it when it no
-- longer fits beside a thread identifier.
use kcas.Base.{ℕ, ◌+◌, ◌%◌, ◌^◌, ◌<◌, ◌≡◌, arith}
use native.Mathlib.Nat.{mod-eq_of_lt}
use kcas.Types.{get_sequence_mask_for_thread_and_sequence}
use kcas.Types.Marker.{sequence_mask, sequence_limit-gt}
use kcas.Kcas.{next_sequence}

-- The sequence number of the next operation is one more, with no regard to the mask: it never
-- becomes smaller while it fits in a word (for fewer than 2 ^ 62 - 1 threads).
pub next_sequence-eq-suc :
    (num_threads sequence : ℕ)
    → num_threads + 1 < 2 ^ 62
    → sequence + 1 < 2 ^ 64
    → next_sequence num_threads sequence ≡ sequence + 1
unfolding next_sequence
next_sequence-eq-suc num_threads sequence fits small =
    let mask : 1 % get_sequence_mask_for_thread_and_sequence num_threads ≡ 1 =
      rw (sequence_mask num_threads (omega arith))
        (mod-eq_of_lt (omega (arith, sequence_limit-gt num_threads (omega arith) fits))) in
    rw mask (omega arith)
