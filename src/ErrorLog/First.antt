-- ===== src/ErrorLog/First.antt =====
-- The log of source/utils/clog_error.c keeps the first errors.
use casca_log.Base.{
  ℕ, suc, ◌+◌, ◌≤◌, ◌<◌, ◌≡◌, refl, ◌∙◌, true, false, Option, none, some, List, [], ◌∷◌, ◌==◌, leb,
  arith, Bool-cases, inl, inr,
}
use casca_log.ErrorLog.{ErrorLog, get_index, write_line, put, put_all}

-- A log with lines.
abbrev pub log_with : (ℕ → List ℕ) → ℕ → ℕ → ℕ → ErrorLog
log_with lines num size count = record {
  err_msg = some lines;
  err_num = num;
  err_line_size = size;
  err_count = count;
}

module _ {M : Type 0} (format : ℕ → ℕ → M → List ℕ) where
  -- The messages stand in the lines from one on, as far as there are lines.
  abbrev pub Stands : (ℕ → List ℕ) → ℕ → ℕ → ℕ → List M → Type 0
  Stands lines num size i [] = Unit {0}
  Stands lines num size i (m ∷ ms) =
      (i < num → lines i ≡ format size i m) × Stands lines num size (suc i) ms

  -- The lines before a number, and those past the last, are as they were, and the messages stand from
  -- there on.
  abbrev pub KeepsIn : (ℕ → List ℕ) → ℕ → ℕ → ℕ → List M → ℕ → Option (ℕ → List ℕ) → Type 0
  KeepsIn lines num size count ms now none = ⊥
  KeepsIn lines num size count ms now (some lines') =
      (now ≤ num)
      × ((j : ℕ) → j < count → lines' j ≡ lines j)
      × ((j : ℕ) → num ≤ j → lines' j ≡ lines j)
      × Stands lines' num size count ms

  abbrev pub Keeps : (ℕ → List ℕ) → ℕ → ℕ → ℕ → List M → Option ErrorLog → Type 0
  Keeps lines num size count ms none = ⊥
  Keeps lines num size count ms (some s) = KeepsIn lines num size count ms s.err_count s.err_msg

  put_full :
      (lines : ℕ → List ℕ) (num size count : ℕ) (m : M)
      → num ≤ count
      → put format (log_with lines num size count) m ≡ some (log_with lines num size count)
  unfolding put get_index
  put_full lines num size count m l =
      let full : leb num count ≡ true = ground (arith, l) in
      let past : leb num num ≡ true = ground arith in
      elim (Bool-cases (num == 0)) [ inl y ↦ rw (full, y) refl | inr n ↦ rw (full, n, past) refl ]

  put_next :
      (lines : ℕ → List ℕ) (num size count : ℕ) (m : M)
      → count < num
      → put format (log_with lines num size count) m
        ≡ some (log_with (write_line lines count (format size count m)) num size (count + 1))
  unfolding put get_index
  put_next lines num size count m l =
      let free : leb num count ≡ false = ground (arith, l) in
      let some_lines : (num == 0) ≡ false = ground (arith, l) in rw (free, some_lines, free) refl

  Stands-full :
      (lines : ℕ → List ℕ) (num size i : ℕ) (ms : List M) → num ≤ i → Stands lines num size i ms
  Stands-full lines num size i [] l = tt
  Stands-full lines num size i (m ∷ ms) l =
      (λ k. absurd (omega (arith, k, l)), Stands-full lines num size (suc i) ms (omega (arith, l)))

  KeepsIn-full :
      (lines : ℕ → List ℕ) (num size count : ℕ) (m : M) (ms : List M) (now : ℕ)
      (o : Option (ℕ → List ℕ))
      → num ≤ count
      → KeepsIn lines num size count ms now o
      → KeepsIn lines num size count (m ∷ ms) now o
  KeepsIn-full lines num size count m ms now none l h = h
  KeepsIn-full lines num size count m ms now (some lines') l (c, k, o, s) =
      (c, k, o, Stands-full lines' num size count (m ∷ ms) l)

  Keeps-full :
      (lines : ℕ → List ℕ) (num size count : ℕ) (m : M) (ms : List M) (o : Option ErrorLog)
      → num ≤ count
      → Keeps lines num size count ms o
      → Keeps lines num size count (m ∷ ms) o
  Keeps-full lines num size count m ms none l h = h
  Keeps-full lines num size count m ms (some s) l h =
      KeepsIn-full lines num size count m ms s.err_count s.err_msg l h

  KeepsIn-next :
      (lines : ℕ → List ℕ) (num size count : ℕ) (m : M) (ms : List M) (now : ℕ)
      (o : Option (ℕ → List ℕ))
      → count < num
      → KeepsIn (write_line lines count (format size count m)) num size (suc count) ms now o
      → KeepsIn lines num size count (m ∷ ms) now o
  KeepsIn-next lines num size count m ms now none free h = h
  KeepsIn-next lines num size count m ms now (some lines') free (c, k, o, s) =
      let here : (count == count) ≡ true = ground arith in
      (
        c,
        λ j l.
            let other : (j == count) ≡ false = ground (arith, l) in
            k j (omega (arith, l)) ∙ rw other refl,
        λ j l. let other : (j == count) ≡ false = ground (arith, l, free) in o j l ∙ rw other refl,
        (λ l. k count (omega arith) ∙ rw here refl, s),
      )

  Keeps-next :
      (lines : ℕ → List ℕ) (num size count : ℕ) (m : M) (ms : List M) (o : Option ErrorLog)
      → count < num
      → Keeps (write_line lines count (format size count m)) num size (suc count) ms o
      → Keeps lines num size count (m ∷ ms) o
  Keeps-next lines num size count m ms none free h = h
  Keeps-next lines num size count m ms (some s) free h =
      KeepsIn-next lines num size count m ms s.err_count s.err_msg free h

  -- Messages that are put into a log with lines, of which some are taken: the lines that are taken stay
  -- as they are, the messages go into the lines after them in order, as far as there are lines, for the
  -- others nothing is written past the last line, and the count is never larger than the number of
  -- lines.
  pub put_all-Keeps :
      (lines : ℕ → List ℕ) (num size count : ℕ) (ms : List M)
      → count ≤ num
      → Keeps lines num size count ms (put_all format ms (log_with lines num size count))
  unfolding put_all
  put_all-Keeps lines num size count [] l = (l, (λ j k. refl), (λ j k. refl), tt)
  put_all-Keeps lines num size count (m ∷ ms) l = elim (Bool-cases (leb num count)) [
    | inl y ↦
        let full : num ≤ count = ground (arith, y) in
        rw (put_full lines num size count m full) (
          Keeps-full lines num size count m ms (put_all format ms (log_with lines num size count))
            full (put_all-Keeps lines num size count ms l))
    | inr n ↦
        let free : count < num = ground (arith, n) in
        let lines' = write_line lines count (format size count m) in
        let next : count + 1 ≡ suc count = omega arith in
        rw (put_next lines num size count m free, next)
          (Keeps-next lines num size count m ms
            (put_all format ms (log_with lines' num size (suc count))) free
            (put_all-Keeps lines' num size (suc count) ms (omega (arith, free))))
  ]
