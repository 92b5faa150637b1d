-- ===== src/Ebr.antt =====
-- source/utils/clog_ebr.c: nodes that threads retire are freed when nobody can still read them.
--
-- A move is what one thread does to the shared state in one atomic operation, or in a stretch that
-- holds the mutex or owns the state CLOG_EBR_GLOBAL_STATE_ACTIVE_GC and that no other thread can see
-- into. What a thread has read and not yet used stands in the state too. Threads are numbered in the
-- order of their registration, and a local epoch, which nothing reads, is left out. Operations are
-- sequentially consistent, the mutex is granted, and clog_ebr_destroy has not been called.
pub mod Grace
pub mod Release
pub mod Polls
pub mod Progress
mod Tests
use casca_log.Base.{
  ℕ, zero, suc, ◌+◌, ◌-◌, ◌*◌, ◌%◌, ◌^◌, Bool, true, false, ◌&&◌, not, Option, none, some, List, [],
  ◌∷◌, if◌then◌else◌, ◌==◌, ltb, Res, success, already_existed, abnormal_state, update,
}

-- `clog_ebr_global_state_e` and `clog_ebr_local_state_e`, but for their UNKNOWN.
pub data GlobalState : Type 0 where
  normal gc ended : GlobalState

pub data LocalState : Type 0 where
  active inactive released : LocalState

-- `clog_ebr_memory_node_t`, with the time when its release was deferred.
pub record MemoryNode : Type 0 where
  pub ptr : ℕ
  pub since : ℕ

-- Where the thread is that runs `clog_ebr_poll`: nowhere; freeing a list, with what is left of it; or
-- looking at the threads, from the last that it has not seen down.
pub data Poll : Type 0 where
  idle : Poll
  freeing : List MemoryNode → Poll
  scanning : ℕ → Poll

-- `clog_ebr_global_t`, with the states of the threads that are registered; for a thread that enters,
-- the state that it has read; for one that defers a release, the entry and the list that it goes to.
-- There is a clock that counts entries into an epoch, with the time when each thread last entered.
pub record Ebr : Type 0 where
  pub state : GlobalState
  pub epoch : ℕ
  pub memory : ℕ → List MemoryNode
  pub poll : Poll
  pub threads : ℕ → LocalState
  pub count : ℕ
  pub entering : ℕ → Option LocalState
  pub retiring : ℕ → Option (MemoryNode × ℕ)
  pub freed : List ℕ
  pub clock : ℕ
  pub entered : ℕ → ℕ

-- CLOG_EBR_NUM_EPOCHS.
abbrev pub num_epochs : ℕ
num_epochs = 3

-- `clog_ebr_create`.
abbrev pub create : Ebr
create = record {
  state = normal;
  epoch = 0;
  memory = λ j. [];
  poll = idle;
  threads = λ i. inactive;
  count = 0;
  entering = λ i. none;
  retiring = λ i. none;
  freed = [];
  clock = 0;
  entered = λ i. 0;
}

unfoldable pub is_active : LocalState → Bool
is_active active = true
is_active inactive = false
is_active released = false

unfoldable pub same_state : LocalState → LocalState → Bool
same_state active active = true
same_state inactive inactive = true
same_state released released = true
same_state _ _ = false

-- Whether the mutex is free.
abbrev pub is_unlocked : Poll → Bool
is_unlocked idle = true
is_unlocked (freeing rest) = true
is_unlocked (scanning k) = false

-- `clog_ebr_register`.
unfoldable pub register : Ebr → Ebr
register s =
    if is_unlocked s.poll
    then record s { threads = update s.threads s.count inactive; count = s.count + 1 }
    else s

abbrev pub has_ended : GlobalState → Bool
has_ended normal = false
has_ended gc = false
has_ended ended = true

-- The loads of a round of `clog_ebr_enter`: what it returns, or the state that is to be exchanged.
unfoldable pub check_enter : LocalState → GlobalState → Option Res
check_enter local state =
    if is_active local
    then some already_existed
    else if has_ended state
    then some abnormal_state
    else none

unfoldable pub enter_load : ℕ → Ebr → Ebr
enter_load i s = elim (check_enter (s.threads i) s.state) [
  | none ↦ record s { entering = update s.entering i (some (s.threads i)) }
  | some ret ↦ s
]

-- The exchange of a round of `clog_ebr_enter`. When it fails, there is another round.
unfoldable pub enter_swap : ℕ → Ebr → Ebr
enter_swap i s =
    let idle_again = record s { entering = update s.entering i none } in
    let inside = record s {
      entering = update s.entering i none;
      threads = update s.threads i active;
      clock = s.clock + 1;
      entered = update s.entered i (s.clock + 1);
    } in
    elim (s.entering i) [
      | none ↦ s
      | some old ↦ if same_state (s.threads i) old then inside else idle_again
    ]

-- `clog_ebr_exit`, and `clog_ebr_unregister`, whose attempt to destroy is refused.
unfoldable pub exit : ℕ → Ebr → Ebr
exit i s = record s { threads = update s.threads i inactive }

unfoldable pub unregister : ℕ → Ebr → Ebr
unregister i s = record s { threads = update s.threads i released }

-- The start of `clog_ebr_defer_release_global`, up to its load of the epoch. Without memory for an
-- entry, the pointer is freed at once.
unfoldable pub defer_release : ℕ → ℕ → Bool → Ebr → Ebr
defer_release i ptr malloc s = elim (s.retiring i) [
  | none ↦
      if malloc
      then record s {
        retiring =
            update s.retiring i
              (some (record { ptr = ptr; since = s.clock }, s.epoch % num_epochs));
      }
      else record s { freed = ptr ∷ s.freed }
  | some r ↦ s
]

-- Its exchange, when that succeeds; and the load of the epoch in the next round.
unfoldable pub defer_push : ℕ → Ebr → Ebr
defer_push i s = elim (s.retiring i) [
  | none ↦ s
  | some (x, index) ↦ record s {
    memory = update s.memory index (x ∷ s.memory index);
    retiring = update s.retiring i none;
  }
]

unfoldable pub defer_retry : ℕ → Ebr → Ebr
defer_retry i s = elim (s.retiring i) [
  | none ↦ s
  | some (x, index) ↦ record s { retiring = update s.retiring i (some (x, s.epoch % num_epochs)) }
]

-- The list that `clog_ebr_poll` frees, by unsigned numbers of 64 bits.
abbrev pub free_index : ℕ → ℕ
free_index epoch = (epoch + (2 ^ 64 - 2) + num_epochs) % 2 ^ 64 % num_epochs

-- `clog_ebr_poll`, up to its load of the head of the list; by the state.
abbrev pub start_in : GlobalState → Ebr → Ebr
start_in normal s = record s { state = gc; poll = freeing (s.memory (free_index s.epoch)) }
start_in gc s = s
start_in ended s = s

unfoldable pub poll_start : Ebr → Ebr
poll_start s = start_in s.state s

-- Its first loop: one node.
abbrev pub free_in : Poll → Ebr → Ebr
free_in idle s = s
free_in (freeing []) s = s
free_in (freeing (x ∷ xs)) s = record s { freed = x.ptr ∷ s.freed; poll = freeing xs }
free_in (scanning k) s = s

unfoldable pub poll_free : Ebr → Ebr
poll_free s = free_in s.poll s

-- Behind the loop, the list is cleared, and the mutex is taken. Without threads, it is over.
abbrev pub clear_in : Poll → Ebr → Ebr
clear_in idle s = s
clear_in (freeing []) s =
    let cleared = update s.memory (free_index s.epoch) [] in
    if s.count == 0
    then record s { memory = cleared; poll = idle; state = normal }
    else record s { memory = cleared; poll = scanning s.count }
clear_in (freeing (x ∷ xs)) s = s
clear_in (scanning k) s = s

unfoldable pub poll_clear : Ebr → Ebr
poll_clear s = clear_in s.poll s

-- Its second loop: one thread; and behind it the next epoch.
abbrev pub scan_in : Poll → Ebr → Ebr
scan_in idle s = s
scan_in (freeing rest) s = s
scan_in (scanning zero) s = record s {
  epoch = (s.epoch + 1) % num_epochs;
  poll = idle;
  state = normal;
}
scan_in (scanning (suc k)) s =
    if is_active (s.threads k)
    then record s { poll = idle; state = normal }
    else record s { poll = scanning k }

unfoldable pub poll_scan : Ebr → Ebr
poll_scan s = scan_in s.poll s

-- The moves of the threads.
pub data Move : Type 0 where
  registers : Move
  loads swaps exits unregisters : ℕ → Move
  defers : ℕ → ℕ → Bool → Move
  pushes retries : ℕ → Move
  starts frees clears scans : Move

unfoldable pub step : Move → Ebr → Ebr
step registers s = register s
step (loads i) s = enter_load i s
step (swaps i) s = enter_swap i s
step (exits i) s = exit i s
step (unregisters i) s = unregister i s
step (defers i ptr malloc) s = defer_release i ptr malloc s
step (pushes i) s = defer_push i s
step (retries i) s = defer_retry i s
step starts s = poll_start s
step frees s = poll_free s
step clears s = poll_clear s
step scans s = poll_scan s

-- Any moves, in any order.
unfoldable pub run : List Move → Ebr → Ebr
run [] s = s
run (m ∷ ms) s = run ms (step m s)
