-- ===== src/Logger.antt =====
-- source/casca_log_core.c from `clog_record_log` and `clog_module_log` on, with the channel of
-- source/channel/clog_channel_unsafe_queue.c and the dispatcher of
-- source/dispatcher/clog_dispatcher_direct.c.
--
-- A log goes through the filters and the interpolator of Filter.antt and Interpolator.antt. The
-- table of modules is taken by its lookups; recorders by whether they are in their table and by what
-- their functions return. What a log does is a list of events; a shift of bits that C does not define
-- and a write outside its buffer are `none`.
pub mod Release
pub mod Delivery
mod Tests
use casca_log.Base.{
  ℕ, zero, suc, ◌+◌, ◌-◌, ◌/◌, ◌%◌, ◌^◌, Bool, true, false, not, Option, none, some, List, [], ◌∷◌,
  ◌++◌, if◌then◌else◌, ◌==◌, leb, ◌||◌, ◌&&◌, take, Res, success, target_not_found, not_permitted,
  no_memory, abnormal_state, request_flush, is_success,
}
use mathlib.Core.Option
use casca_log.Filter.{Filters, filter_log}
use casca_log.Interpolator.{Bytes, Piece, Reply, Outcome, result, overflow, interpolate}

-- `clog_module_t`, its `num` recorders in a list.
pub record Module : Type 0 where
  pub level : ℕ
  pub recorders : List ℕ

-- `clog_item_t`: its address, and the fields that the way of a log depends on. `content` are the
-- bytes of its text.
pub record Item : Type 0 where
  addr : ℕ
  length : ℕ
  content : Bytes
  recorder : List ℕ

-- What becomes visible: a recorder's `write` and `flush`, and an item that is given back.
pub data Event : Type 0 where
  wrote : ℕ → Bytes → Event
  flushed : ℕ → Event
  released : ℕ → Event

-- `(1 << (level - 1) & info->level) != 0`, with an `int` of 32 bits. The shift is not defined for
-- CLOG_LEVEL_OFF, which is 0, nor when it reaches the sign.
unfoldable pub is_enabled : Module → ℕ → Option Bool
is_enabled info level =
    if level == 0 || leb 32 level then none else some (info.level / 2 ^ (level - 1) % 2 == 1)

unfoldable pub has_recorder : List ℕ → ℕ → Bool
has_recorder [] recorder = false
has_recorder (r ∷ rs) recorder =
    let later = has_recorder rs recorder in if r == recorder then true else later

-- `clog_module_check`.
unfoldable pub module_check : Module → ℕ → ℕ → Option Bool
module_check info level recorder =
    Option.map (λ on. on && has_recorder info.recorders recorder) (is_enabled info level)

-- The recorders of an item: as many as it has places, filled up with CLOG_RECORDER_ID_INVALID.
unfoldable pub fill : ℕ → List ℕ → List ℕ
fill zero recorders = []
fill (suc n) [] = 0 ∷ fill n []
fill (suc n) (r ∷ rs) = r ∷ fill n rs

abbrev pub is_request : Res → Bool
is_request request_flush = true
is_request _ = false

-- What a call comes to: its code, what it does, and the queue that it leaves.
abbrev pub Logged : Type 0
Logged = Res × List Event × List Item

abbrev pub or_zero : Option ℕ → ℕ
or_zero none = 0
or_zero (some n) = n

-- What a caller of `clog_log_internal` does: a log that failed gives its item back.
abbrev pub or_release : ℕ → Option Logged → Option Logged
or_release addr none = none
or_release addr (some (res, events, queue)) =
    if is_success res
    then some (res, events, queue)
    else some (res, events ++ (released addr ∷ []), queue)

module _ (known : ℕ → Bool) (write : ℕ → Bytes → Res) where
  -- One recorder of an item: `write`, and `flush` when it asks for that.
  unfoldable pub write_one : ℕ → Bytes → List Event
  write_one id content =
      if known id
      then if is_request (write id content)
        then wrote id content ∷ flushed id ∷ []
        else wrote id content ∷ []
      else []

  -- The loop over the recorders of an item.
  unfoldable pub deliver : List ℕ → Bytes → List Event
  deliver [] content = []
  deliver (id ∷ ids) content =
      let rest = deliver ids content in if id == 0 then [] else write_one id content ++ rest

  -- `clog_dispatcher_direct_notify`, on the channel's queue, which it empties.
  unfoldable pub notify : List Item → List Event
  notify [] = []
  notify (item ∷ queue) = deliver item.recorder item.content ++ (released item.addr ∷ notify queue)

  -- The end of `clog_log_internal`, with the text that was formatted. `stored` is whether the
  -- queue's node is malloc'd.
  unfoldable pub send : ℕ → Filters → ℕ → Bytes → ℕ → List ℕ → Bool → List Item → Logged
  send slots filters addr content length recorders stored queue =
      let item : Item = record {
        addr = addr;
        length = length % 2 ^ 16;
        content = content;
        recorder = fill slots recorders;
      } in
      if filter_log filters.post_chain (some content)
      then if stored then (success, notify (queue ++ (item ∷ [])), []) else (no_memory, [], queue)
      else (not_permitted, [], queue)

  module _ {H : Type 0} (run : H → ℕ → Reply) (size slots : ℕ) (filters : Filters)
      (pieces : List (Piece H)) where
    -- `clog_log_internal`, for an item at an address whose content is yet to be written.
    unfoldable pub log_internal : ℕ → Bytes → List ℕ → Bool → List Item → Option Logged
    log_internal addr blank recorders stored queue =
        if filter_log filters.pre_chain (some blank)
        then elim (interpolate run size pieces blank) [
          | overflow ↦ none
          | result res buf num ↦
              if is_success res
              then some (
                  send slots filters addr (take (or_zero num) buf) (or_zero num) recorders stored
                    queue)
              else some (res, [], queue)
        ]
        else some (not_permitted, [], queue)

    -- `clog_module_log`. `acquired` is the item that is acquired, with the bytes in it.
    unfoldable pub module_log :
        Bool → Option Module → ℕ → Option (ℕ × Bytes) → Bool → List Item → Option Logged
    module_log is_running found level acquired stored queue =
        if is_running
        then elim found [
          | none ↦ some (target_not_found, [], queue)
          | some info ↦ elim (is_enabled info level) [
            | none ↦ none
            | some false ↦ some (not_permitted, [], queue)
            | some true ↦ elim info.recorders [
              | [] ↦ some (target_not_found, [], queue)
              | r ∷ rs ↦ elim acquired [
                | none ↦ some (no_memory, [], queue)
                | some (addr, blank) ↦
                    or_release addr (log_internal addr blank (r ∷ rs) stored queue)
              ]
            ]
          ]
        ]
        else some (abnormal_state, [], queue)

    -- `clog_record_log`.
    unfoldable pub record_log :
        Bool → Option Module → ℕ → ℕ → Option (ℕ × Bytes) → Bool → List Item → Option Logged
    record_log is_running found recorder level acquired stored queue =
        if is_running
        then elim found [
          | none ↦ some (target_not_found, [], queue)
          | some info ↦ elim (module_check info level recorder) [
            | none ↦ none
            | some false ↦ some (not_permitted, [], queue)
            | some true ↦ elim acquired [
              | none ↦ some (no_memory, [], queue)
              | some (addr, blank) ↦
                  or_release addr (log_internal addr blank (recorder ∷ []) stored queue)
            ]
          ]
        ]
        else some (abnormal_state, [], queue)
