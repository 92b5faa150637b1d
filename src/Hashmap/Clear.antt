-- ===== src/Hashmap/Clear.antt =====
-- source/utils/clog_hashmap.c: `clog_hashmap_clear` and `clog_hashmap_destroy`.
use casca_log.Base.{
  ℕ, zero, suc, ◌+◌, ◌≤◌, ◌<◌, ◌≡◌, refl, sym, ◌∙◌, ap, List, [], ◌∷◌, ◌++◌, flatten, get_or, set,
  length, drop, arith, none, length-set, drop-get_or, drop_all, get_or-set, get_or_outside,
}
use native.Mathlib.Decide.{dec_lt}
use mathlib.Core.List.{append_assoc, append-nil}
use casca_log.Hashmap.{
  Bytes, Chain, Map, Heap, Freed, key_freed, value_freed, free_entry, free_key, free_value, same,
}
use casca_log.Hashmap.Chain.{find, count}
use casca_log.Hashmap.Buckets.{IsValid, view}

module _ {V : Type 0} where
  -- The inner loops: each entry of a bucket is freed.
  unfoldable pub free_chain : Chain V → Heap V → Heap V
  free_chain [] h = h
  free_chain (e ∷ c) h = free_chain c (free_entry e h)

  -- `free_buckets`, with the rounds it has left.
  unfoldable pub free_buckets : List (Chain V) → ℕ → ℕ → Heap V → Heap V
  free_buckets bs zero i h = h
  free_buckets bs (suc n) i h = free_buckets bs n (i + 1) (free_chain (get_or bs i []) h)

  unfoldable pub destroy : Map V → Heap V → Heap V
  destroy m h = free_buckets m.buckets m.buckets_size 0 h

  -- The loop of `clear`, which also empties each bucket.
  unfoldable pub clear_buckets : ℕ → ℕ → List (Chain V) → Heap V → List (Chain V) × Heap V
  clear_buckets zero i bs h = (bs, h)
  clear_buckets (suc n) i bs h =
      clear_buckets n (i + 1) (set bs i []) (free_chain (get_or bs i []) h)

  unfoldable pub clear : Map V → Heap V → Map V × Heap V
  clear m h =
      let (bs, h') = clear_buckets m.buckets_size 0 m.buckets h in
      (record m { buckets = bs; data_size = 0 }, h')

  -- The log of freeing some entries in order, the last one first: key and value, once each.
  unfoldable pub frees : Chain V → List (Freed V)
  frees [] = []
  frees (e ∷ c) = frees c ++ value_freed e.value ∷ key_freed e.key ∷ []

  frees-append : (a b : Chain V) → frees (a ++ b) ≡ frees b ++ frees a
  unfolding frees
  frees-append [] b = sym (append-nil (frees b))
  frees-append (e ∷ a) b = rw (frees-append a b) (append_assoc (frees b) (frees a) _)

  abbrev logged : Chain V → Heap V → Heap V
  logged c h = record h { freed = frees c ++ h.freed }

  free_chain-frees : (c : Chain V) (h : Heap V) → free_chain c h ≡ logged c h
  unfolding free_chain frees free_entry free_key free_value
  free_chain-frees [] h = refl
  free_chain-frees (e ∷ c) h =
      free_chain-frees c (free_entry e h)
      ∙ ap (λ l. record h { freed = l }) (sym (append_assoc (frees c) _ h.freed))

  logged-append : (a b : Chain V) (h : Heap V) → logged b (logged a h) ≡ logged (a ++ b) h
  logged-append a b h =
      ap (λ l. record h { freed = l })
        (sym (append_assoc (frees b) (frees a) h.freed)
          ∙ ap (λ l. l ++ h.freed) (sym (frees-append a b)))

  free_buckets-frees :
      (bs : List (Chain V)) (n i : ℕ) (h : Heap V)
      → i + n ≡ length bs
      → free_buckets bs n i h ≡ logged (flatten (drop i bs)) h
  unfolding free_buckets
  free_buckets-frees bs zero i h e = unfold frees flatten in rw (drop_all bs i (omega arith))
  free_buckets-frees bs (suc n) i h e =
      free_buckets-frees bs n (i + 1) (free_chain (get_or bs i []) h) (omega arith)
      ∙ ap (logged (flatten (drop (i + 1) bs))) (free_chain-frees (get_or bs i []) h)
      ∙ logged-append (get_or bs i []) (flatten (drop (i + 1) bs)) h
      ∙ ap (λ c. logged c h)
          (ap (λ j. get_or bs i [] ++ flatten (drop j bs)) (omega arith)
            ∙ sym (drop-get_or bs i (omega arith)))

  -- `destroy` frees the key and the value of every entry once, and nothing else.
  pub destroy-frees :
      (m : Map V) (h : Heap V)
      → IsValid m
      → destroy m h ≡ record h { freed = frees (flatten m.buckets) ++ h.freed }
  unfolding destroy drop
  destroy-frees m h v = free_buckets-frees m.buckets m.buckets_size 0 h (omega (arith, v.sized))

  -- The first `i` buckets are empty.
  abbrev Cleared : List (Chain V) → ℕ → Type 0
  Cleared bs i = (j : ℕ) → j < i → get_or bs j [] ≡ []

  -- From bucket `i` on `bs` is still the table `old`.
  clear_buckets-Cleared :
      (n i : ℕ) (old bs : List (Chain V)) (h : Heap V)
      → i + n ≡ length bs
      → Cleared bs i
      → ((j : ℕ) → i ≤ j → get_or bs j [] ≡ get_or old j [])
      → let (bs', h') = clear_buckets n i bs h in
        (length bs' ≡ length bs) × Cleared bs' (length bs) × (h' ≡ free_buckets old n i h)
  unfolding clear_buckets free_buckets
  clear_buckets-Cleared zero i old bs h e c same = (refl, λ j l. c j (omega arith), refl)
  clear_buckets-Cleared (suc n) i old bs h e c same =
      let (l, c', f) =
        clear_buckets-Cleared n (i + 1) old (set bs i []) (free_chain (get_or bs i []) h)
          (rw length-set (omega arith))
          (λ j l. rw (get_or-set bs i j [] [] (omega arith)) (ground (arith, c j)))
          (λ j l. rw (get_or-set bs i j [] [] (omega arith)) (ground (arith, same j))) in
      (
        l ∙ length-set bs i [],
        λ j b. c' j (rw length-set b),
        f ∙ ap (λ b. free_buckets old n (i + 1) (free_chain b h)) (same i (omega arith)),
      )

  flatten_cleared : (bs : List (Chain V)) → ((j : ℕ) → get_or bs j [] ≡ []) → flatten bs ≡ []
  unfolding flatten get_or
  flatten_cleared [] c = refl
  flatten_cleared (b ∷ bs) c = rw (c 0, flatten_cleared bs (λ j. c (suc j)))

  -- `clear` leaves a valid table of the same width that maps no key, and frees the key and the value
  -- of every entry once, and nothing else.
  pub clear-frees :
      (m : Map V) (h : Heap V)
      → IsValid m
      → let (m', h') = clear m h in
        IsValid m'
        × ((q : Bytes) → view m' q ≡ none)
        × (m'.buckets_size ≡ m.buckets_size)
        × (h' ≡ record h { freed = frees (flatten m.buckets) ++ h.freed })
  unfolding clear view find count
  clear-frees m h v =
      let (l, c, f) =
        clear_buckets-Cleared m.buckets_size 0 m.buckets m.buckets h (omega (arith, v.sized))
          (λ j b. absurd (omega arith)) (λ j _. refl) in
      let bs = (clear_buckets m.buckets_size 0 m.buckets h).0 in
      let gone : (j : ℕ) → get_or bs j [] ≡ [] = λ j. elim (dec_lt j (length m.buckets)) [
        | yes b ↦ c j b
        | no b ↦ get_or_outside bs j [] (omega arith)
      ] in
      (
        record {
          sized = l ∙ v.sized;
          pos = v.pos;
          counted = rw (flatten_cleared bs gone);
          placed = λ q i. rw (gone i) (omega arith);
        },
        λ q. rw (gone _),
        refl,
        f ∙ unfold destroy in destroy-frees m h v,
      )
