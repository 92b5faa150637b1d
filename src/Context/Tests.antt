-- ===== src/Context/Tests.antt =====
-- A context with two recorders, and the theorem at it.
use casca_log.Base.{
  ℕ, ◌≡◌, refl, true, none, some, [], ◌∷◌, if◌then◌else◌, ◌==◌, Res, success, fail,
}
use casca_log.Context.{
  created, Context, channel_destroyed, set_channel, open_recorders, open_all, context_setup,
}
use casca_log.Context.Setup.{all_opened, connected, Ends, IsReady, context_setup-Ends}

abbrev two : Context
two = connected created 63 true true 4 5 none (1 ∷ 2 ∷ [])

abbrev all_well : ℕ → Res
all_well n = success

-- The second recorder does not open.
abbrev second_fails : ℕ → Res
second_fails n = if n == 2 then fail else success

replaced : set_channel two 9 ≡ (success, channel_destroyed 4 ∷ [], record two { channel = some 9 })
unfolding set_channel
replaced = refl

second : (context_setup all_well all_well second_fails true two).0 ≡ fail
unfolding context_setup open_all open_recorders
second = refl

context_setup-Ends_example :
    Ends
      (IsReady all_well all_well second_fails true created true true 4 5 (1 ∷ 2 ∷ []))
      two
      (record two { linked = some 4 })
      (all_opened 4 5 (1 ∷ 2 ∷ []))
      (context_setup all_well all_well second_fails true two)
context_setup-Ends_example =
    context_setup-Ends all_well all_well second_fails true created 63 true true 4 5 none
      (1 ∷ 2 ∷ [])
