-- ===== src/Logger/Release.antt =====
-- The item of a log: given back once, whatever happens to the log.
use casca_log.Base.{
  ℕ, suc, ◌+◌, ◌^◌, ◌<◌, ◌≡◌, refl, ◌∙◌, Bool, true, Option, none, some, List, [], ◌∷◌, ◌++◌,
  if◌then◌else◌, ◌==◌, length, take, Res, is_success, arith, Bool-cases, inl, inr,
}
use casca_log.Filter.{Filters, filter_log}
use casca_log.Interpolator.{Bytes, Piece, Reply, Outcome, result, overflow, interpolate}
use casca_log.Interpolator.Output.{FitsReply, IsSafe, interpolate-IsSafe}
use casca_log.Logger.{
  Module, Item, Event, wrote, flushed, released, fill, write_one, deliver, notify, send, or_zero,
  log_internal, or_release, record_log, module_check,
}

-- How often some events give the item at an address back.
unfoldable pub releases : ℕ → List Event → ℕ
releases a [] = 0
releases a (wrote id content ∷ es) = releases a es
releases a (flushed id ∷ es) = releases a es
releases a (released b ∷ es) = let n = releases a es in if b == a then suc n else n

releases-append :
    (a : ℕ) (es fs : List Event) → releases a (es ++ fs) ≡ releases a es + releases a fs
unfolding releases
releases-append a [] fs = omega arith
releases-append a (wrote id content ∷ es) fs = releases-append a es fs
releases-append a (flushed id ∷ es) fs = releases-append a es fs
releases-append a (released b ∷ es) fs = ground (arith, releases-append a es fs)

releases_self : (a : ℕ) → releases a (released a ∷ []) ≡ 1
unfolding releases
releases_self a = ground arith

-- What a call does when it had an item at an address, and the queue was empty.
abbrev pub GivesBack : ℕ → Option (Res × List Event × List Item) → Type 0
GivesBack a none = ⊥
GivesBack a (some (res, events, queue)) = (releases a events ≡ 1) × (queue ≡ [])

-- Of `log_internal`: it gave the item back just when it succeeded.
abbrev Settles : ℕ → Option (Res × List Event × List Item) → Type 0
Settles a none = ⊥
Settles a (some (res, events, queue)) =
    (releases a events ≡ (if is_success res then 1 else 0)) × (queue ≡ [])

module _ (known : ℕ → Bool) (write : ℕ → Bytes → Res) where
  releases-write_one :
      (a id : ℕ) (content : Bytes) → releases a (write_one known write id content) ≡ 0
  unfolding releases write_one
  releases-write_one a id content = ground arith

  releases-deliver :
      (a : ℕ) (ids : List ℕ) (content : Bytes) → releases a (deliver known write ids content) ≡ 0
  unfolding deliver releases
  releases-deliver a [] content = refl
  releases-deliver a (id ∷ ids) content = elim (Bool-cases (id == 0)) [
    | inl y ↦ rw y refl
    | inr n ↦ rw n (
        omega (
          arith,
          releases-append a (write_one known write id content) (deliver known write ids content),
          releases-write_one a id content,
          releases-deliver a ids content,
        ))
  ]

  or_release-GivesBack :
      (a : ℕ) (o : Option (Res × List Event × List Item))
      → Settles a o
      → GivesBack a (or_release a o)
  or_release-GivesBack a none h = h
  or_release-GivesBack a (some (res, events, queue)) (n, e) = elim (Bool-cases (is_success res)) [
    | inl y ↦ rw (y, GivesBack) (n ∙ rw y refl, e)
    | inr m ↦
        let zero_n : releases a events ≡ 0 = n ∙ rw m refl in
        rw (m, GivesBack)
          (omega (arith, zero_n, releases-append a events (released a ∷ []), releases_self a), e)
  ]

  module _ {H : Type 0} (run : H → ℕ → Reply) (size slots : ℕ) (filters : Filters)
      (pieces : List (Piece H)) where
    send-Settles :
        (a : ℕ) (content : Bytes) (n : ℕ) (recorders : List ℕ) (stored : Bool)
        → Settles a (some (send known write slots filters a content n recorders stored []))
    unfolding send notify releases
    send-Settles a content n recorders stored =
        elim (Bool-cases (filter_log filters.post_chain (some content))) [
          | inr m ↦ rw (m, Settles) (refl, refl)
          | inl y ↦ elim (Bool-cases stored) [
            | inr m ↦ rw (y, m, Settles) (refl, refl)
            | inl z ↦
                rw (y, z, Settles)
                  (
                    omega (
                      arith,
                      releases-append a (deliver known write (fill slots recorders) content)
                          (released a ∷ []),
                      releases-deliver a (fill slots recorders) content,
                      releases_self a,
                    ),
                    refl,
                  )
          ]
        ]

    log_internal-Settles :
        (a : ℕ) (blank : Bytes) (recorders : List ℕ) (stored : Bool) (o : Outcome)
        → interpolate run size pieces blank ≡ o
        → IsSafe size o
        → Settles a
            (log_internal known write run size slots filters pieces a blank recorders stored [])
    unfolding log_internal releases
    log_internal-Settles a blank recorders stored overflow e safe = absurd safe
    log_internal-Settles a blank recorders stored (result res buf num) e safe =
        elim (Bool-cases (filter_log filters.pre_chain (some blank))) [
          | inr m ↦ rw (m, Settles) (refl, refl)
          | inl y ↦ elim (Bool-cases (is_success res)) [
            | inl z ↦
                rw (y, e, z)
                  (send-Settles a (take (or_zero num) buf) (or_zero num) recorders stored)
            | inr m ↦ rw (y, e, m, Settles) (rw m refl, refl)
          ]
        ]

    module _ (small : size < 2 ^ 64) (room : 1 < size)
        (fits : (h : H) (n : ℕ) → FitsReply n (run h n)) where
      internal-GivesBack :
          (a : ℕ) (blank : Bytes) (recorders : List ℕ) (stored : Bool)
          → length blank ≡ size
          → GivesBack a (
              or_release a (
                log_internal known write run size slots filters pieces a blank recorders stored []))
      internal-GivesBack a blank recorders stored full =
          or_release-GivesBack a
            (log_internal known write run size slots filters pieces a blank recorders stored [])
            (log_internal-Settles a blank recorders stored (interpolate run size pieces blank) refl
              (interpolate-IsSafe run size small room fits pieces blank full))

      -- With handlers that keep to the space they are given, a log for one recorder of its module that
      -- acquires an item, on an empty queue: it ends, the item is given back exactly once, and the
      -- queue is empty again.
      pub record_log-GivesBack :
          (info : Module) (recorder level a : ℕ) (blank : Bytes) (stored : Bool)
          → length blank ≡ size
          → module_check info level recorder ≡ some true
          → GivesBack a (
              record_log known write run size slots filters pieces true
                (some info)
                recorder
                level
                (some (a, blank))
                stored
                [])
      unfolding record_log
      record_log-GivesBack info recorder level a blank stored full checked =
          rw checked (internal-GivesBack a blank (recorder ∷ []) stored full)
