-- ===== src/Queue/Fifo.antt =====
-- The queue of source/utils/clog_queue.c as a list, first in, first out.
use casca_log.Base.{
  ℕ, ◌≡◌, ◌≢◌, refl, sym, ◌∙◌, ap, false, Option, none, some, List, [], ◌∷◌, ◌++◌, length, ◌==◌,
  arith, length-append, success, ◌↔◌, true, suc,
}
use mathlib.Core.Path.{subst}
use casca_log.Queue.{Queue, Nodes, put_next, put_data, enqueue, dequeue, peek, is_empty, queue_size}

abbrev pub IsNew : ℕ → List ℕ → Type 0
IsNew n [] = Unit {0}
IsNew n (m ∷ ms) = (m ≢ n) × IsNew n ms

abbrev pub AreNew : List ℕ → Type 0
AreNew [] = Unit {0}
AreNew (n ∷ ns) = IsNew n ns × AreNew ns

-- The nodes from a pointer on, up to NULL, ending in the tail.
abbrev pub IsLinked : (ℕ → Option ℕ) → Option ℕ → Option ℕ → List ℕ → Type 0
IsLinked next head tail [] = (head ≡ none) × (tail ≡ none)
IsLinked next head tail (n ∷ []) = (head ≡ some n) × (tail ≡ some n) × (next n ≡ none)
IsLinked next head tail (n ∷ m ∷ ns) = (head ≡ some n) × IsLinked next (next n) tail (m ∷ ns)

unfoldable pub values : (ℕ → ℕ) → List ℕ → List ℕ
values data_of [] = []
values data_of (n ∷ ns) = data_of n ∷ values data_of ns

-- A queue of some nodes, and their data.
pub record Holds (q : Queue) (s : Nodes) (ns xs : List ℕ) : Type 0 where
  pub linked : IsLinked s.next q.head q.tail ns
  pub apart : AreNew ns
  pub counted : q.size ≡ length ns
  pub stored : values s.data_of ns ≡ xs

values-put :
    (data_of : ℕ → ℕ) (n d : ℕ) (ns : List ℕ)
    → IsNew n ns
    → values (put_data data_of n d) ns ≡ values data_of ns
unfolding values
values-put data_of n d [] new = refl
values-put data_of n d (m ∷ ms) (ne, new) =
    let other : (m == n) ≡ false = ground arith in rw (other, values-put data_of n d ms new) refl

some_inj : {x y : ℕ} → some x ≡ some y → x ≡ y
some_inj {x} e = ap (λ (o : Option ℕ). elim o [ none ↦ x | some z ↦ z ]) e

linked_first :
    (next : ℕ → Option ℕ) (head tail : Option ℕ) (n : ℕ) (ns : List ℕ)
    → IsLinked next head tail (n ∷ ns)
    → head ≡ some n
linked_first next head tail n [] (h, t, e) = h
linked_first next head tail n (m ∷ ns) (h, rest) = h

-- The tail is one of the nodes.
linked_last :
    (next : ℕ → Option ℕ) (head : Option ℕ) (tail a : ℕ) (ns : List ℕ)
    → IsNew a ns
    → IsLinked next head (some tail) ns
    → tail ≢ a
linked_last next head tail a [] new (h, t) = absurd cc
linked_last next head tail a (n ∷ []) (ne, new) (h, t, e) = λ same. ne (sym (some_inj t) ∙ same)
linked_last next head tail a (n ∷ m ∷ ns) (ne, new) (h, rest) =
    linked_last next (next n) tail a (m ∷ ns) new rest

-- Dequeuing gives the oldest data and leaves the rest in their order.
pub dequeue-Holds :
    (q : Queue) (s : Nodes) (n x : ℕ) (ns xs : List ℕ)
    → Holds q s (n ∷ ns) (x ∷ xs)
    → ((dequeue q s).0 ≡ success)
      × ((dequeue q s).1 ≡ some x)
      × Holds (dequeue q s).2 (dequeue q s).3 ns xs
unfolding dequeue values
dequeue-Holds q s n x [] xs h =
    let (head, tail, last) = h.linked in
    let size = h.counted in
    let stored = h.stored in
    let value : s.data_of n ≡ x = cc in
    let rest : [] ≡ xs = cc in
    rw (head, last)
      (
        refl,
        ap (λ d. some d) value,
        record { linked = (refl, refl); apart = tt; counted = omega (arith, size); stored = rest },
      )
dequeue-Holds q s n x (m ∷ ns) xs h =
    let (head, linked) = h.linked in
    let (new, apart) = h.apart in
    let size = h.counted in
    let stored = h.stored in
    let value : s.data_of n ≡ x = cc in
    let rest : values s.data_of (m ∷ ns) ≡ xs = cc in
    let next = linked_first s.next (s.next n) q.tail m ns linked in
    let linked' : IsLinked s.next (some m) q.tail (m ∷ ns) =
      subst (λ p. IsLinked s.next p q.tail (m ∷ ns)) next linked in
    rw (head, next)
      (
        refl,
        ap (λ d. some d) value,
        record {
          linked = linked';
          apart = apart;
          counted = omega (arith, size);
          stored = values-put s.data_of n 0 (m ∷ ns) new ∙ rest;
        },
      )

append-IsLinked :
    (next : ℕ → Option ℕ) (head : Option ℕ) (tail : ℕ) (ns : List ℕ) (n : ℕ)
    → AreNew ns
    → IsNew n ns
    → IsLinked next head (some tail) ns
    → IsLinked (put_next (put_next next n none) tail (some n)) head (some n) (ns ++ n ∷ [])
append-IsLinked next head tail [] n apart new (h, t) = absurd cc
append-IsLinked next head tail (a ∷ []) n apart (ne, new) (h, t, e) =
    let same : tail ≡ a = some_inj t in (h, (ground arith, refl, ground arith))
append-IsLinked next head tail (a ∷ b ∷ ns) n (apart_a, apart) (ne, new) (h, rest) =
    let next' = put_next (put_next next n none) tail (some n) in
    let other = linked_last next (next a) tail a (b ∷ ns) apart_a rest in
    let kept : next a ≡ next' a = ground arith in
    let ih = append-IsLinked next (next a) tail (b ∷ ns) n apart new rest in
    (h, subst (λ p. IsLinked next' p (some n) ((b ∷ ns) ++ n ∷ [])) kept ih)

linked_tail :
    (next : ℕ → Option ℕ) (head tail : Option ℕ) (n : ℕ) (ns : List ℕ)
    → IsLinked next head tail (n ∷ ns)
    → (t : ℕ) × (tail ≡ some t)
linked_tail next head tail n [] (h, t, e) = (n, t)
linked_tail next head tail n (m ∷ ns) (h, rest) = linked_tail next (next n) tail m ns rest

append-IsNew : (a n : ℕ) (ns : List ℕ) → n ≢ a → IsNew a ns → IsNew a (ns ++ n ∷ [])
append-IsNew a n [] ne new = (ne, tt)
append-IsNew a n (m ∷ ms) ne (nm, new) = (nm, append-IsNew a n ms ne new)

append-AreNew : (ns : List ℕ) (n : ℕ) → AreNew ns → IsNew n ns → AreNew (ns ++ n ∷ [])
append-AreNew [] n apart new = (tt, tt)
append-AreNew (a ∷ ns) n (new_a, apart) (ne, new) =
    (append-IsNew a n ns (λ e. ne (sym e)) new_a, append-AreNew ns n apart new)

values-append :
    (data_of : ℕ → ℕ) (ns : List ℕ) (n d : ℕ)
    → IsNew n ns
    → values (put_data data_of n d) (ns ++ n ∷ []) ≡ values data_of ns ++ d ∷ []
unfolding values
values-append data_of [] n d new = ground arith
values-append data_of (m ∷ ns) n d (ne, new) =
    let other : (m == n) ≡ false = ground arith in rw (other, values-append data_of ns n d new) refl

-- Enqueuing, with a node that is not in the queue, puts the data behind the others.
pub enqueue-Holds :
    (q : Queue) (s : Nodes) (n ptr : ℕ) (ns xs : List ℕ)
    → IsNew n ns
    → Holds q s ns xs
    → ((enqueue q s (some n) ptr).0 ≡ success)
      × Holds
          (enqueue q s (some n) ptr).1
          (enqueue q s (some n) ptr).2
          (ns ++ n ∷ [])
          (xs ++ ptr ∷ [])
unfolding enqueue
enqueue-Holds q s n ptr [] xs new h =
    let (head, tail) = h.linked in
    let size = h.counted in
    rw tail (
      refl,
      record {
        linked = (refl, refl, ground arith);
        apart = (tt, tt);
        counted = omega (arith, size);
        stored = values-append s.data_of [] n ptr new ∙ ap (λ l. l ++ ptr ∷ []) h.stored;
      },
    )
enqueue-Holds q s n ptr (m ∷ ms) xs new h =
    let (t, tail) = linked_tail s.next q.head q.tail m ms h.linked in
    let linked : IsLinked s.next q.head (some t) (m ∷ ms) =
      subst (λ p. IsLinked s.next q.head p (m ∷ ms)) tail h.linked in
    let size = h.counted in
    rw tail (
      refl,
      record {
        linked = append-IsLinked s.next q.head t (m ∷ ms) n h.apart new linked;
        apart = append-AreNew (m ∷ ms) n h.apart new;
        counted = omega (arith, size, length-append ms (n ∷ []));
        stored = values-append s.data_of (m ∷ ms) n ptr new ∙ ap (λ l. l ++ ptr ∷ []) h.stored;
      },
    )

length-values : (data_of : ℕ → ℕ) (ns : List ℕ) → length (values data_of ns) ≡ length ns
unfolding values
length-values data_of [] = refl
length-values data_of (n ∷ ns) = ap suc (length-values data_of ns)

-- A queue that holds some data has as many as its size, is empty just when there are none, and peeking
-- gives what dequeuing would.
pub peek-Holds :
    (q : Queue) (s : Nodes) (ns xs : List ℕ)
    → Holds q s ns xs
    → (queue_size q ≡ length xs)
      × ((is_empty q ≡ true) ↔ (xs ≡ []))
      × (peek q s ≡ ((dequeue q s).0, (dequeue q s).1))
unfolding queue_size is_empty peek dequeue values
peek-Holds q s [] xs h =
    let (head, tail) = h.linked in
    let size = h.counted in
    let stored = h.stored in
    let none_left : xs ≡ [] = cc in
    let len : length xs ≡ 0 = ap length none_left in
    rw head (omega (arith, size, len), ((λ e. none_left), λ e. refl), refl)
peek-Holds q s (n ∷ ns) xs h =
    let head = linked_first s.next q.head q.tail n ns h.linked in
    let size = h.counted in
    let len : length (values s.data_of (n ∷ ns)) ≡ length xs = ap length h.stored in
    let same = length-values s.data_of (n ∷ ns) in
    rw head (
      size ∙ sym same ∙ len,
      ((λ e. absurd cc), λ e. absurd (omega (arith, len, ap length e))),
      refl,
    )
