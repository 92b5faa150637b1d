-- ===== src/Context/Setup.antt =====
-- `clog_context_setup`: what a successful one has opened.
use casca_log.Base.{
  if_cases, Option, false, ◌↔◌, ◌⊎◌, ◌++◌, ap, not_completed, abnormal_state, fail, ℕ, ◌≡◌, refl,
  Bool, true, ◌&&◌, some, List, [], ◌∷◌, if◌then◌else◌, Res, is_success, Bool-cases, inl, inr,
}
use casca_log.Context.{
  created, stopping, destroyed, State, running, Context, Effect, channel_opened, dispatcher_opened,
  dispatcher_started, recorder_opened, is_created, open_recorders, open_all, context_setup,
}

unfoldable pub opened : List ℕ → List Effect
opened [] = []
opened (r ∷ rs) = recorder_opened r ∷ opened rs

-- Everything that a set-up opens, in order.
abbrev pub all_opened : ℕ → ℕ → List ℕ → List Effect
all_opened channel dispatcher rs =
    channel_opened channel
    ∷ dispatcher_opened dispatcher
    ∷ dispatcher_started dispatcher
    ∷ opened rs

-- A context that has a channel, a dispatcher and recorders.
abbrev pub connected : State → ℕ → Bool → Bool → ℕ → ℕ → Option ℕ → List ℕ → Context
connected state mask modules interpolator channel dispatcher linked rs = record {
  state = state;
  mask = mask;
  modules = modules;
  interpolator = interpolator;
  channel = some channel;
  dispatcher = some dispatcher;
  linked = linked;
  recorders = some rs;
}

-- A call succeeds just under a condition. Then it has made all of these calls in order, and the context
-- is another one, running. If not, it has made the first of them, and the context is that or as it was.
abbrev pub Ends : Type 0 → Context → Context → List Effect → Res × List Effect × Context → Type 0
Ends P c linked_c effects (res, done, c') =
    ((is_success res ≡ true) ↔ P)
    × (if is_success res
        then (done ≡ effects) × (c' ≡ record linked_c { state = running })
        else ((rest : List Effect) × (done ++ rest ≡ effects)) × ((c' ≡ c) ⊎ (c' ≡ linked_c)))

fails :
    (P : Type 0) (c linked_c : Context) (effects : List Effect) (res : Res)
    (done rest : List Effect) (c' : Context)
    → is_success res ≡ false
    → (P → ⊥)
    → done ++ rest ≡ effects
    → (c' ≡ c) ⊎ (c' ≡ linked_c)
    → Ends P c linked_c effects (res, done, c')
fails P c linked_c effects res done rest c' bad none_of split same =
    ((λ e. absurd cc, λ p. absurd (none_of p)), rw bad ((rest, split), same))

passes :
    (P : Type 0) (c linked_c : Context) (effects : List Effect) (res : Res) (done : List Effect)
    → is_success res ≡ true
    → P
    → done ≡ effects
    → Ends P c linked_c effects (res, done, record linked_c { state = running })
passes P c linked_c effects res done good p same = ((λ e. p, λ q. good), rw good (same, refl))

finishes :
    (P : Type 0) (c linked_c : Context) (effects : List Effect) (res : Res)
    (done rest : List Effect)
    → (is_success res ≡ true → P × (done ≡ effects))
    → (P → is_success res ≡ true)
    → done ++ rest ≡ effects
    → Ends P c linked_c effects
        (res, done, if is_success res then record linked_c { state = running } else linked_c)
finishes P c linked_c effects res done rest good all split =
    if_cases (λ c'. Ends P c linked_c effects (res, done, c')) (is_success res)
      (record linked_c { state = running }) linked_c
      (λ ok. passes P c linked_c effects res done ok (good ok).0 (good ok).1)
      (λ bad.
        fails P c linked_c effects res done rest linked_c bad (λ p. let q = all p in absurd cc)
          split (inr refl))

module _ (open_channel open_dispatcher open_recorder : ℕ → Res) where
  -- Every recorder opens.
  abbrev pub AllOpen : List ℕ → Type 0
  AllOpen [] = Unit {0}
  AllOpen (r ∷ rs) = (is_success (open_recorder r) ≡ true) × AllOpen rs

  -- What a set-up takes to succeed.
  abbrev pub IsReady : Bool → State → Bool → Bool → ℕ → ℕ → List ℕ → Type 0
  IsReady iterated state modules interpolator channel dispatcher rs =
      (state ≡ created)
      × (modules ≡ true)
      × (interpolator ≡ true)
      × (is_success (open_channel channel) ≡ true)
      × (is_success (open_dispatcher dispatcher) ≡ true)
      × (iterated ≡ true)
      × AllOpen rs

  record Opens (rs : List ℕ) (r : Res × List Effect) : Type 0 where
    succeeds : is_success r.0 ≡ true → AllOpen rs × (r.1 ≡ opened rs)
    all : AllOpen rs → is_success r.0 ≡ true
    rest : List Effect
    split : r.1 ++ rest ≡ opened rs

  open_recorders-Opens :
      (rs : List ℕ) → Opens rs (open_recorders open_channel open_dispatcher open_recorder rs)
  unfolding open_recorders opened
  open_recorders-Opens [] = record {
    succeeds = λ e. (tt, refl);
    all = λ a. refl;
    rest = [];
    split = refl;
  }
  open_recorders-Opens (r ∷ rs) =
      let later = open_recorders-Opens rs in
      elim (Bool-cases (is_success (open_recorder r))) [
        | inl y ↦ rw y (record {
          succeeds =
              λ e. let (a, o) = later.succeeds e in ((y, a), ap (λ l. recorder_opened r ∷ l) o);
          all = λ a. later.all a.1;
          rest = later.rest;
          split = ap (λ l. recorder_opened r ∷ l) later.split;
        })
        | inr m ↦ rw m (record {
          succeeds = λ e. absurd cc;
          all = λ a. absurd cc;
          rest = opened rs;
          split = refl;
        })
      ]

  is_created-created : (s : State) → is_created s ≡ true → s ≡ created
  is_created-created created e = refl
  is_created-created running e = absurd cc
  is_created-created stopping e = absurd cc
  is_created-created destroyed e = absurd cc

  not_created : (s : State) → is_created s ≡ false → s ≡ created → ⊥
  not_created s m e = absurd (let g = ap is_created e in cc)

  both_there : (a b : Bool) → a ≡ true → b ≡ true → (a && b) ≡ false → ⊥
  both_there true true e f g = absurd cc
  both_there true false e f g = absurd cc
  both_there false b e f g = absurd cc

  two_true : (a b : Bool) → (a && b) ≡ true → (a ≡ true) × (b ≡ true)
  two_true true true e = (refl, refl)
  two_true true false e = absurd cc
  two_true false b e = absurd cc

  setup_under :
      (P : Type 0) (iterated : Bool) (state : State) (mask : ℕ) (modules interpolator : Bool)
      (channel dispatcher : ℕ) (linked : Option ℕ) (rs : List ℕ)
      → (P ↔ IsReady iterated state modules interpolator channel dispatcher rs)
      → Ends P
          (connected state mask modules interpolator channel dispatcher linked rs)
          (connected state mask modules interpolator channel dispatcher (some channel) rs)
          (all_opened channel dispatcher rs)
          (context_setup open_channel open_dispatcher open_recorder iterated
            (connected state mask modules interpolator channel dispatcher linked rs))
  unfolding context_setup open_all
  setup_under P iterated state mask modules interpolator channel dispatcher linked rs (to, from) =
      let c = connected state mask modules interpolator channel dispatcher linked rs in
      let s = connected state mask modules interpolator channel dispatcher (some channel) rs in
      let effects = all_opened channel dispatcher rs in
      let recorders = open_recorders open_channel open_dispatcher open_recorder rs in
      let opens = open_recorders-Opens rs in
      let tail : List Effect =
        dispatcher_opened dispatcher ∷ dispatcher_started dispatcher ∷ opened rs in
      elim (Bool-cases (is_created state)) [
        | inr m ↦ rw m (
            fails P c s effects abnormal_state [] effects c refl
              (λ x. let p = to x in not_created state m p.0) refl (inl refl))
        | inl made ↦ elim (Bool-cases (modules && interpolator)) [
          | inr m ↦
              rw (made, m)
                (fails P c s effects not_completed [] effects c refl
                  (λ x. let p = to x in both_there modules interpolator p.1 p.2 m) refl (inl refl))
          | inl both ↦ elim (Bool-cases (is_success (open_channel channel))) [
            | inr m ↦
                rw (made, both, m)
                  (fails P c s effects (open_channel channel) (channel_opened channel ∷ []) tail c m
                    (λ x. let p = to x in let q = p.3 in absurd cc) refl (inl refl))
            | inl y ↦ elim (Bool-cases (is_success (open_dispatcher dispatcher))) [
              | inr m ↦
                  rw (made, both, y, m)
                    (fails P c s effects (open_dispatcher dispatcher)
                      (channel_opened channel ∷ dispatcher_opened dispatcher ∷ [])
                      (dispatcher_started dispatcher ∷ opened rs) s m
                      (λ x. let p = to x in let q = p.4 in absurd cc) refl (inr refl))
              | inl z ↦
                  let started = dispatcher_opened dispatcher ∷ dispatcher_started dispatcher ∷ [] in
                  elim (Bool-cases iterated) [
                    | inr m ↦
                        rw (made, both, y, z, m)
                          (fails P c s effects fail (channel_opened channel ∷ started) (opened rs) s
                            refl (λ x. let p = to x in let q = p.5 in absurd cc) refl (inr refl))
                    | inl w ↦
                        let add = λ (l : List Effect). channel_opened channel ∷ started ++ l in
                        let (m_there, i_there) = two_true modules interpolator both in
                        rw (made, both, y, z, w)
                          (finishes P c s effects recorders.0 (add recorders.1) opens.rest
                            (λ g.
                              let (all, same) = opens.succeeds g in
                              (
                                from
                                    (is_created-created state made, m_there, i_there, y, z, w, all),
                                ap add same,
                              ))
                            (λ x. opens.all (to x).6) (ap add opens.split))
                  ]
            ]
          ]
        ]
      ]

  -- A set-up of a context that has a channel, a dispatcher and recorders. It succeeds just when the
  -- context is created and not yet running, it has modules and a template, the channel, the dispatcher
  -- and every recorder open, and the iterator is malloc'd; then each of them has been opened once, in
  -- this order, the dispatcher has the channel, and the context is running. If it fails, no more than
  -- a first part of these calls was made, and nothing but the dispatcher's channel may have changed.
  pub context_setup-Ends :
      (iterated : Bool) (state : State) (mask : ℕ) (modules interpolator : Bool)
      (channel dispatcher : ℕ) (linked : Option ℕ) (rs : List ℕ)
      → Ends
          (IsReady iterated state modules interpolator channel dispatcher rs)
          (connected state mask modules interpolator channel dispatcher linked rs)
          (connected state mask modules interpolator channel dispatcher (some channel) rs)
          (all_opened channel dispatcher rs)
          (context_setup open_channel open_dispatcher open_recorder iterated
            (connected state mask modules interpolator channel dispatcher linked rs))
  context_setup-Ends iterated state mask modules interpolator channel dispatcher linked rs =
      setup_under (IsReady iterated state modules interpolator channel dispatcher rs) iterated state
        mask modules interpolator channel dispatcher linked rs ((λ p. p), λ p. p)
