-- ===== src/Ebr/Progress.antt =====
-- A poll of source/utils/clog_ebr.c that no thread is in the way of.
use casca_log.Base.{
  ℕ, zero, suc, ◌+◌, ◌%◌, ◌<◌, ◌≡◌, ◌∙◌, refl, ap, false, List, [], ◌∷◌, ◌++◌, ◌==◌, arith, length,
  update,
}
use casca_log.Ebr.{
  MemoryNode, idle, freeing, scanning, Ebr, normal, gc, is_active, free_index, num_epochs, start_in,
  scan_in, clear_in, poll_start, poll_free, poll_clear, poll_scan, Move, starts, frees, clears,
  scans, step, run,
}
use casca_log.Ebr.Polls.{free_index_next}

run-append : (ms ns : List Move) (s : Ebr) → run (ms ++ ns) s ≡ run ns (run ms s)
unfolding run
run-append [] ns s = refl
run-append (m ∷ ms) ns s = run-append ms ns (step m s)

-- So many of a move.
unfoldable pub times : ℕ → Move → List Move
times zero m = []
times (suc n) m = m ∷ times n m

-- The pointers of some entries, freed after others.
unfoldable pub freed_after : List ℕ → List MemoryNode → List ℕ
freed_after freed [] = freed
freed_after freed (x ∷ xs) = freed_after (x.ptr ∷ freed) xs

abbrev at_freeing : Ebr → List ℕ → List MemoryNode → Ebr
at_freeing s freed xs = record s { state = gc; poll = freeing xs; freed = freed }

free_all :
    (s : Ebr) (freed : List ℕ) (xs : List MemoryNode)
    → run (times (length xs) frees) (at_freeing s freed xs) ≡ at_freeing s (freed_after freed xs) []
unfolding run times step poll_free freed_after
free_all s freed [] = refl
free_all s freed (x ∷ xs) = free_all s (x.ptr ∷ freed) xs

abbrev at_scanning : Ebr → List ℕ → (ℕ → List MemoryNode) → ℕ → Ebr
at_scanning s freed memory k = record s {
  state = gc;
  poll = scanning k;
  freed = freed;
  memory = memory;
}

-- The state behind the poll.
abbrev polled : Ebr → List ℕ → (ℕ → List MemoryNode) → Ebr
polled s freed memory = record s {
  state = normal;
  poll = idle;
  freed = freed;
  memory = memory;
  epoch = (s.epoch + 1) % num_epochs;
}

scan_one :
    (s : Ebr) (freed : List ℕ) (memory : ℕ → List MemoryNode) (k : ℕ)
    → is_active (s.threads k) ≡ false
    → step scans (at_scanning s freed memory (suc k)) ≡ at_scanning s freed memory k
unfolding step poll_scan
scan_one s freed memory k n = rw (n, scan_in) refl

scan_all :
    (s : Ebr) (freed : List ℕ) (memory : ℕ → List MemoryNode) (k : ℕ)
    → ((i : ℕ) → i < k → is_active (s.threads i) ≡ false)
    → run (times (suc k) scans) (at_scanning s freed memory k) ≡ polled s freed memory
unfolding run times step poll_scan
scan_all s freed memory zero q = refl
scan_all s freed memory (suc k) q =
    ap (run (times (suc k) scans)) (scan_one s freed memory k (q k (omega arith)))
    ∙ scan_all s freed memory k (λ i l. q i (omega (arith, l)))

-- The moves of a poll.
unfoldable pub whole_poll : Ebr → List Move
whole_poll s =
    starts ∷ times (length (s.memory (free_index s.epoch))) frees
    ++ clears ∷ times (suc s.count) scans

clear_all :
    (s : Ebr) (freed : List ℕ)
    → (s.count == 0) ≡ false
    → step clears (at_freeing s freed [])
      ≡ at_scanning s freed (update s.memory (free_index s.epoch) []) s.count
unfolding step poll_clear
clear_all s freed n = rw (n, clear_in) refl

start_all :
    (s : Ebr)
    → s.state ≡ normal
    → step starts s ≡ at_freeing s s.freed (s.memory (free_index s.epoch))
unfolding step poll_start
start_all s e = ap (λ t. start_in t s) e

-- A poll that starts in the normal state, at one of the three epochs, with some thread registered and
-- none of them active, and that runs to its end with no move of another thread: of the three lists, it
-- frees each entry of the one of the epoch after the current one modulo three, in order, clears that
-- list, leaves the others, and enters that epoch in the normal state, idle.
pub run-whole_poll :
    (s : Ebr)
    → s.state ≡ normal
    → s.epoch < 3
    → 0 < s.count
    → ((i : ℕ) → i < s.count → is_active (s.threads i) ≡ false)
    → run (whole_poll s) s ≡ record s {
      state = normal;
      poll = idle;
      freed = freed_after s.freed (s.memory ((s.epoch + 1) % 3));
      memory = update s.memory ((s.epoch + 1) % 3) [];
      epoch = (s.epoch + 1) % 3;
    }
unfolding run whole_poll
run-whole_poll s e b c q =
    let index = free_index_next s.epoch b in
    let nodes = s.memory (free_index s.epoch) in
    let freed = freed_after s.freed nodes in
    let memory = update s.memory (free_index s.epoch) [] in
    let scan = times (suc s.count) scans in
    ap (run (times (length nodes) frees ++ clears ∷ scan)) (start_all s e)
    ∙ run-append (times (length nodes) frees) (clears ∷ scan) (at_freeing s s.freed nodes)
    ∙ ap (run (clears ∷ scan)) (free_all s s.freed nodes)
    ∙ ap (run scan) (clear_all s freed (ground (arith, c)))
    ∙ scan_all s freed memory s.count q
    ∙ ap (λ k. polled s (freed_after s.freed (s.memory k)) (update s.memory k [])) index
