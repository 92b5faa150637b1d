-- ===== src/Hashmap/Iterator.antt =====
-- source/utils/clog_hashmap.c: the iterator. The current entry is the rest of its bucket from that
-- entry on, `[]` for NULL.
use casca_log.Base.{
  ℕ, zero, suc, ◌+◌, ◌-◌, ◌≤◌, ◌<◌, ◌≡◌, ◌≢◌, refl, sym, ◌∙◌, ap, Bool, true, false, Option, none,
  some, List, [], ◌∷◌, ◌++◌, flatten, get_or, length, drop, arith, if◌then◌else◌, Bool-cases, inl,
  inr, drop-get_or, drop_all,
}
use mathlib.Core.Path.{subst}
use casca_log.Hashmap.{Entry, Chain, Map, Heap, malloc}
use casca_log.Hashmap.Buckets.{IsValid}

pub record Iterator (V : Type 0) : Type 0 where
  pub bucket_index : ℕ
  pub current : Chain V

module _ {V : Type 0} (m : Map V) where
  -- The loop that finds the next bucket that is not empty, with the rounds it has left.
  unfoldable pub find_bucket : ℕ → ℕ → Bool × Iterator V
  find_bucket zero i = (false, record { bucket_index = i; current = [] })
  find_bucket (suc n) i =
      let later = find_bucket n (i + 1) in
      elim (get_or m.buckets i []) [
        | [] ↦ later
        | e ∷ c ↦ (true, record { bucket_index = i; current = e ∷ c })
      ]

  unfoldable pub reset : Iterator V
  reset = (find_bucket m.buckets_size 0).1

  unfoldable pub create_iterator : Heap V → Option (Iterator V) × Heap V
  create_iterator h = let (done, h') = malloc h in (if done then some reset else none, h')

  unfoldable pub next_bucket : ℕ → Bool × Iterator V
  next_bucket i = find_bucket (m.buckets_size - (i + 1)) (i + 1)

  unfoldable pub next_entry : Iterator V → Bool × Iterator V
  next_entry it = elim it.current [
    | [] ↦ next_bucket it.bucket_index
    | _ ∷ c ↦ elim c [
      | [] ↦ next_bucket it.bucket_index
      | d ∷ c' ↦ (true, record it { current = d ∷ c' })
    ]
  ]

  -- The key and the value at the iterator: NULL at the end.
  unfoldable pub entry : Iterator V → Option (Entry V)
  entry it = elim it.current [ [] ↦ none | e ∷ _ ↦ some e ]

  -- The loop of `clog_context_setup`: while there is a key, visit the entry, and stop when there is
  -- no next one. The fuel bounds the rounds.
  unfoldable pub visit : ℕ → Iterator V → List (Entry V)
  visit zero it = []
  visit (suc n) it =
      let (more, it') = next_entry it in
      let rest = visit n it' in
      elim (entry it) [ none ↦ [] | some e ↦ e ∷ (if more then rest else []) ]

-- What is left to visit.

module _ {V : Type 0} (m : Map V) where
  -- What is left to visit, the current entry included.
  left : Iterator V → Chain V
  left it = it.current ++ flatten (drop (suc it.bucket_index) m.buckets)

  -- What the search for a bucket comes to.
  record Found (i : ℕ) (r : Bool × Iterator V) : Type 0 where
    same_left : left r.1 ≡ flatten (drop i m.buckets)
    at_end : r.0 ≡ false → flatten (drop i m.buckets) ≡ []
    null : r.0 ≡ false → r.1.current ≡ []
    inside : r.0 ≡ true → (r.1.bucket_index < length m.buckets) × (r.1.current ≢ [])

  find_bucket-Found : (n i : ℕ) → i + n ≡ length m.buckets → Found i (find_bucket m n i)
  unfolding find_bucket left flatten
  find_bucket-Found zero i h = record {
    same_left = rw (drop_all m.buckets i (omega arith), drop_all m.buckets (suc i) (omega arith));
    at_end = λ e. rw (drop_all m.buckets i (omega arith));
    null = λ e. refl;
    inside = λ e. cc;
  }
  find_bucket-Found (suc n) i h =
      go (get_or m.buckets i []) refl (find_bucket-Found n (i + 1) (omega arith))
    where
      skip :
          get_or m.buckets i [] ≡ [] → flatten (drop (i + 1) m.buckets) ≡ flatten (drop i m.buckets)
      skip e =
          rw (drop-get_or m.buckets i (omega arith), e)
            (ap (λ j. flatten (drop j m.buckets)) (omega arith))

      go :
          (b : Chain V)
          → get_or m.buckets i [] ≡ b
          → Found (i + 1) (find_bucket m n (i + 1))
          → Found i (find_bucket m (suc n) i)
      go [] e f =
          rw (e, find_bucket)
            (record {
              same_left = f.same_left ∙ skip e;
              at_end = λ n'. sym (skip e) ∙ f.at_end n';
              null = f.null;
              inside = f.inside;
            })
      go (d ∷ c) e f =
          rw (e, find_bucket)
            (record {
              same_left = sym (rw e at (drop-get_or m.buckets i (omega arith)));
              at_end = λ b. cc;
              null = λ b. cc;
              inside = λ b. (omega arith, λ z. cc);
            })

  -- What one step leaves behind it.
  record Stepped (rest : Chain V) (r : Bool × Iterator V) : Type 0 where
    goes : r.0 ≡ true → left r.1 ≡ rest
    ends : r.0 ≡ false → rest ≡ []
    inside : r.0 ≡ true → (r.1.bucket_index < length m.buckets) × (r.1.current ≢ [])

  module _ (sized : length m.buckets ≡ m.buckets_size) where
    Found-Stepped :
        {i : ℕ} {r : Bool × Iterator V} → Found i r → Stepped (flatten (drop i m.buckets)) r
    Found-Stepped f = record { goes = λ y. f.same_left; ends = f.at_end; inside = f.inside }

    next_entry-Stepped :
        (e : Entry V) (c : Chain V) (i : ℕ)
        → i < length m.buckets
        → Stepped
            (c ++ flatten (drop (suc i) m.buckets))
            (next_entry m (record { bucket_index = i; current = e ∷ c }))
    unfolding next_entry next_bucket left
    next_entry-Stepped e [] i h =
        let j : i + 1 ≡ suc i = omega arith in
        subst (λ k. Stepped (flatten (drop k m.buckets)) (next_bucket m i)) j
          (Found-Stepped
            (find_bucket-Found (m.buckets_size - (i + 1)) (i + 1) (omega (arith, sized))))
    next_entry-Stepped e (d ∷ c) i h = record {
      goes = λ y. refl;
      ends = λ n. cc;
      inside = λ y. (h, λ z. cc);
    }

    visit-left :
        (n i : ℕ) (c : Chain V)
        → i < length m.buckets
        → c ≢ []
        → let it : Iterator V = record { bucket_index = i; current = c } in
          length (left it) ≤ n → visit m n it ≡ left it
    unfolding visit entry left
    visit-left n i [] h ne fuel = absurd (ne refl)
    visit-left zero i (e ∷ c) h ne fuel = absurd (omega arith)
    visit-left (suc n) i (e ∷ c) h ne fuel =
        let r = next_entry m (record { bucket_index = i; current = e ∷ c }) in
        let s = next_entry-Stepped e c i h in
        elim (Bool-cases r.0) [
          | inl y ↦
              let (h', ne') = s.inside y in
              rw y (
                ap (λ t. e ∷ t)
                  (visit-left n r.1.bucket_index r.1.current h' ne' (rw (s.goes y) (omega arith))
                    ∙ s.goes y))
          | inr f ↦ rw (f, s.ends f)
        ]

  visit_end : (n : ℕ) (it : Iterator V) → it.current ≡ [] → visit m n it ≡ []
  unfolding visit entry
  visit_end zero it e = refl
  visit_end (suc n) it e = rw e

  -- The loop that `clog_context_setup` runs from a new iterator visits every entry of a valid table,
  -- once each, in the order of the buckets; as many rounds as there are entries are enough.
  pub visit-reset : (n : ℕ) → IsValid m → m.data_size ≤ n → visit m n (reset m) ≡ flatten m.buckets
  unfolding reset
  visit-reset n valid fuel =
      let f = find_bucket-Found m.buckets_size 0 (omega (arith, valid.sized)) in
      let r = find_bucket m m.buckets_size 0 in
      elim (Bool-cases r.0) [
        | inl y ↦
            let (h, ne) = f.inside y in
            visit-left valid.sized n r.1.bucket_index r.1.current h ne
              (rw f.same_left (unfold drop in omega (arith, valid.counted)))
            ∙ (unfold drop in f.same_left)
        | inr e ↦ visit_end n r.1 (f.null e) ∙ sym (unfold drop in f.at_end e)
      ]
