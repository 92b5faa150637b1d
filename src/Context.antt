-- ===== src/Context.antt =====
-- source/casca_log_core.c: a context from its creation to its set-up.
--
-- A channel, a dispatcher and recorders are named by numbers; what their functions return is given.
-- The locks and tags of a context, its filters (in Filter.antt), and the freeing of the tables that a
-- set-up needs no longer are left out.
pub mod Setup
mod Tests
use casca_log.Base.{
  ℕ, Bool, true, false, not, ◌&&◌, Option, none, some, List, [], ◌∷◌, ◌++◌, if◌then◌else◌, Res,
  success, fail, not_completed, abnormal_state, is_success,
}

-- `clog_state_e`, without the state before creation.
pub data State : Type 0 where
  created running stopping destroyed : State

-- `struct clog_context`; `linked` is the channel that its dispatcher has.
pub record Context : Type 0 where
  pub state : State
  pub mask : ℕ
  pub modules : Bool
  pub interpolator : Bool
  pub channel : Option ℕ
  pub dispatcher : Option ℕ
  pub linked : Option ℕ
  pub recorders : Option (List ℕ)

-- The calls that a set-up makes to open, whatever they return, and what a setter destroys.
pub data Effect : Type 0 where
  channel_opened dispatcher_opened recorder_opened : ℕ → Effect
  dispatcher_started channel_destroyed dispatcher_destroyed : ℕ → Effect

-- `CLOG_CONTEXT_SETUP_STATE_CHECK`.
abbrev pub is_created : State → Bool
is_created created = true
is_created _ = false

abbrev pub old_channel : Option ℕ → List Effect
old_channel none = []
old_channel (some c) = channel_destroyed c ∷ []

abbrev pub old_dispatcher : Option ℕ → List Effect
old_dispatcher none = []
old_dispatcher (some d) = dispatcher_destroyed d ∷ []

-- `clog_set_mask`.
unfoldable pub set_mask : Context → ℕ → Context
set_mask c mask = if is_created c.state then record c { mask = mask } else c

-- `clog_set_channel`, of a channel that has all its functions.
unfoldable pub set_channel : Context → ℕ → Res × List Effect × Context
set_channel c channel =
    if is_created c.state
    then (success, old_channel c.channel, record c { channel = some channel })
    else (abnormal_state, [], c)

-- `clog_set_dispatcher`, of a dispatcher that has all its functions and no channel.
unfoldable pub set_dispatcher : Context → ℕ → Res × List Effect × Context
set_dispatcher c dispatcher =
    if is_created c.state
    then (
      success,
      old_dispatcher c.dispatcher,
      record c { dispatcher = some dispatcher; linked = none },
    )
    else (abnormal_state, [], c)

module _ (open_channel open_dispatcher open_recorder : ℕ → Res) where
  -- The loop that opens the recorders: the code, and those opened.
  unfoldable pub open_recorders : List ℕ → Res × List Effect
  open_recorders [] = (success, [])
  open_recorders (r ∷ rs) =
      let (res, effects) = open_recorders rs in
      if is_success (open_recorder r)
      then (res, recorder_opened r ∷ effects)
      else (open_recorder r, recorder_opened r ∷ [])

  -- From the opening of the channel on, which the dispatcher is then given. `iterated` is whether the iterator is malloc'd, which it is
  -- not for a table that is NULL.
  unfoldable pub open_all : Bool → Context → ℕ → ℕ → Res × List Effect × Context
  open_all iterated c channel dispatcher =
      let s : Context = record c { linked = some channel } in
      if is_success (open_channel channel)
      then if is_success (open_dispatcher dispatcher)
        then elim c.recorders [
          | none ↦ (
            fail,
            channel_opened channel
                ∷ dispatcher_opened dispatcher
                ∷ dispatcher_started dispatcher
                ∷ [],
            s,
          )
          | some rs ↦
              let (res, effects) = open_recorders rs in
              if iterated
              then (
                res,
                channel_opened channel
                    ∷ dispatcher_opened dispatcher
                    ∷ dispatcher_started dispatcher
                    ∷ effects,
                if is_success res then record s { state = running } else s,
              )
              else (
                fail,
                channel_opened channel
                    ∷ dispatcher_opened dispatcher
                    ∷ dispatcher_started dispatcher
                    ∷ [],
                s,
              )
        ]
        else (
          open_dispatcher dispatcher,
          channel_opened channel ∷ dispatcher_opened dispatcher ∷ [],
          s,
        )
      else (open_channel channel, channel_opened channel ∷ [], c)

  -- `clog_context_setup`.
  unfoldable pub context_setup : Bool → Context → Res × List Effect × Context
  context_setup iterated c =
      if is_created c.state
      then if c.modules && c.interpolator
        then elim c.channel [
          | none ↦ (not_completed, [], c)
          | some channel ↦ elim c.dispatcher [
            | none ↦ (not_completed, [], c)
            | some dispatcher ↦ open_all iterated c channel dispatcher
          ]
        ]
        else (not_completed, [], c)
      else (abnormal_state, [], c)
