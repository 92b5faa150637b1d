-- ===== src/Config/Array/Ends.antt =====
-- The rounds of the parser of values are enough: it ends.
use casca_log.Base.{
  ℕ, zero, suc, ◌*◌, ◌≤◌, ◌<◌, ◌≡◌, ◌≢◌, refl, Bool, ◌||◌, Option, none, some, [], ◌∷◌, ◌==◌,
  length, arith, Bool-cases, inl, inr,
}
use casca_log.Config.{Bytes, Value, Items, Parsed, failed, parsed, astray, skip, is_space}
use casca_log.Config.Number.{is_digit}
use casca_log.Config.Number.Rest.{Within, Within-le, length-skip, parse_number-Within}
use casca_log.Config.Text.{parse_char}
use casca_log.Config.Text.Rest.{parse_char-Within, parse_string-Within, parse_bool-Within}
use casca_log.Config.Array.{
  prepend, to_array, after_child, on_child, on_element, dispatch, parse_value, array_loop,
}

-- A result that is there, and leaves no more than there was.
abbrev pub Ends {ℓ} : {A : Type ℓ} → ℕ → Option (Parsed A) → Type 0
Ends n none = ⊥
Ends n (some p) = Within n p

to_array-Ends : (n : ℕ) (o : Option (Parsed Items)) → Ends n o → Ends n (to_array o)
to_array-Ends n none h = h
to_array-Ends n (some failed) h = tt
to_array-Ends n (some astray) h = tt
to_array-Ends n (some (parsed items rest)) h = h

dispatch-Ends :
    (in_range : Bytes → Bool) (s : Bytes) (loop : Bytes → Option (Parsed Items))
    → skip s ≡ s
    → (s ≢ [] → Ends (length s) (loop s))
    → Ends (length s) (dispatch in_range s loop)
unfolding dispatch
dispatch-Ends in_range [] loop e h = tt
dispatch-Ends in_range (c ∷ cs) loop e h =
    elim (Bool-cases (c == b'+' || c == b'-' || is_digit c)) [
      | inl y ↦ rw y (parse_number-Within in_range (c ∷ cs))
      | inr m ↦ elim (Bool-cases (c == b'\'')) [
        | inl y ↦ rw (m, y) (Within-le (parse_char cs) (parse_char-Within cs) (omega arith))
        | inr k ↦ elim (Bool-cases (c == b'"')) [
          | inl y ↦ rw (m, k, y) (parse_string-Within c cs e)
          | inr j ↦ elim (Bool-cases (c == b't' || c == b'f')) [
            | inl y ↦ rw (m, k, j, y) (parse_bool-Within (c ∷ cs))
            | inr i ↦ elim (Bool-cases (c == b'[')) [
              | inl y ↦
                  rw (m, k, j, i, y) (to_array-Ends (suc (length cs)) (loop (c ∷ cs)) (h (λ e. cc)))
              | inr g ↦ rw (m, k, j, i, g, Ends) tt
            ]
          ]
        ]
      ]
    ]

skip-skip : (s : Bytes) → skip (skip s) ≡ skip s
unfolding skip
skip-skip [] = refl
skip-skip (c ∷ cs) = elim (Bool-cases (is_space c)) [
  | inl y ↦ rw y (skip-skip cs)
  | inr m ↦ rw (m, m) refl
]

prepend-Ends :
    (v : Value) (m n : ℕ) (o : Option (Parsed Items)) → Ends m o → m ≤ n → Ends n (prepend v o)
prepend-Ends v m n none h l = h
prepend-Ends v m n (some failed) h l = tt
prepend-Ends v m n (some astray) h l = tt
prepend-Ends v m n (some (parsed items rest)) h l = omega (arith, h, l)

-- The loop goes on with a shorter text.
after_child-Ends :
    (v : Value) (s : Bytes) (more : Bytes → Option (Parsed Items)) (n : ℕ)
    → length s ≤ n
    → ((t : Bytes) → length t < n → Ends (length t) (more t))
    → Ends n (after_child v s more)
after_child-Ends v [] more n l h = tt
after_child-Ends v (c ∷ cs) more n l h = elim (Bool-cases (c == b']')) [
  | inl y ↦ rw (y, Ends) (omega (arith, l))
  | inr m ↦ elim (Bool-cases (c == b',')) [
    | inl y ↦
        rw (m, y)
          (prepend-Ends v (length cs) n (more cs) (h cs (omega (arith, l))) (omega (arith, l)))
    | inr k ↦ rw (m, k, Ends) tt
  ]
]

on_child-Ends :
    (o : Option (Parsed Value)) (more : Bytes → Option (Parsed Items)) (n : ℕ)
    → Ends n o
    → ((t : Bytes) → length t < n → Ends (length t) (more t))
    → Ends n (on_child o more)
on_child-Ends none more n e h = e
on_child-Ends (some failed) more n e h = tt
on_child-Ends (some astray) more n e h = tt
on_child-Ends (some (parsed v rest)) more n e h =
    after_child-Ends v (skip rest) more n (omega (arith, length-skip rest, e)) h

Ends-le {ℓ} : {A : Type ℓ} {m n : ℕ} (o : Option (Parsed A)) → Ends m o → m ≤ n → Ends n o
Ends-le none e l = e
Ends-le (some p) e l = Within-le p e l

on_element-Ends :
    (s : Bytes) (value : Bytes → Option (Parsed Value)) (more : Bytes → Option (Parsed Items))
    → Ends (length s) (value s)
    → ((t : Bytes) → length t < length s → Ends (length t) (more t))
    → Ends (length s) (on_element s value more)
on_element-Ends [] value more e h = tt
on_element-Ends (c ∷ cs) value more e h = elim (Bool-cases (c == b']')) [
  | inl y ↦ rw (y, Ends) (omega arith)
  | inr m ↦ rw m (on_child-Ends (value (c ∷ cs)) more (suc (length cs)) e h)
]

fuel_pos : (s : Bytes) (fuel : ℕ) → s ≢ [] → 2 * length s ≤ fuel → 0 < fuel
fuel_pos [] fuel ne h = absurd (ne refl)
fuel_pos (c ∷ cs) fuel ne h = omega (arith, h)

module _ (in_range : Bytes → Bool) where
  mutual
    unfolding parse_value array_loop

    pub parse_value-Ends :
        (fuel : ℕ) (s : Bytes) → 2 * length s < fuel → Ends (length s) (parse_value in_range fuel s)
    parse_value-Ends zero s h = absurd (omega (arith, h))
    parse_value-Ends (suc fuel) s h =
        let l = length-skip s in
        Ends-le (dispatch in_range (skip s) (array_loop in_range fuel))
          (dispatch-Ends in_range (skip s) (array_loop in_range fuel) (skip-skip s) (λ ne.
            array_loop-Ends fuel (skip s) (omega (arith, h, l))
              (fuel_pos (skip s) fuel ne (omega (arith, h, l)))))
          l

    array_loop-Ends :
        (fuel : ℕ) (s : Bytes)
        → 2 * length s ≤ fuel
        → 0 < fuel
        → Ends (length s) (array_loop in_range fuel s)
    array_loop-Ends zero s h p = absurd (omega (arith, p))
    array_loop-Ends (suc fuel) [] h p = tt
    array_loop-Ends (suc fuel) (c ∷ cs) h p =
        let l = length-skip cs in
        Ends-le (on_element (skip cs) (parse_value in_range fuel) (array_loop in_range fuel))
          (on_element-Ends (skip cs) (parse_value in_range fuel) (array_loop in_range fuel)
            (parse_value-Ends fuel (skip cs) (omega (arith, h, l)))
            (λ t lt. array_loop-Ends fuel t (omega (arith, h, l, lt)) (omega (arith, h, l, lt))))
          (omega (arith, l))
