-- ===== src/Filter/Keywords.antt =====
-- The logs that chains of filters on keywords let pass.
use casca_log.Base.{
  ℕ, ◌≡◌, ◌≢◌, ◌↔◌, refl, sym, ◌∙◌, ap, Bool, true, false, ◌&&◌, Option, none, some, List, [], ◌∷◌,
  ◌++◌, ltb, Bool-cases, Option-cases, inl, inr,
}
use casca_log.Filter.{
  Bytes, FilterRes, continue, accept, reject, Filter, filter_post, add_filter_to_chain, filter_log,
  keywords,
}
use casca_log.Filter.Order.{add_filters}

-- What a filter says of a content.
abbrev lets : FilterRes → Bool
lets reject = false
lets _ = true

unfoldable verdict : Filter → Bytes → FilterRes
verdict f content = elim f.filter [ none ↦ reject | some run ↦ run f.param content ]

-- No filter of a chain accepts a content, which would end the chain.
abbrev NoAccept : Bytes → List Filter → Type 0
NoAccept content [] = Unit {0}
NoAccept content (f ∷ fs) = (verdict f content ≢ accept) × NoAccept content fs

lets-reject :
    (r : FilterRes) (rest : Bool)
    → r ≢ accept
    → (elim r [ accept ↦ true | reject ↦ false | continue ↦ rest ]) ≡ lets r && rest
lets-reject continue rest ne = refl
lets-reject accept rest ne = absurd (ne refl)
lets-reject reject rest ne = refl

filter_log-cons :
    (f : Filter) (fs : List Filter) (content : Bytes)
    → verdict f content ≢ accept
    → filter_log (f ∷ fs) (some content) ≡ lets (verdict f content) && filter_log fs (some content)
unfolding filter_log verdict
filter_log-cons f fs content ne = elim (Option-cases f.filter) [
  | inl n ↦ rw n refl
  | inr (run, e) ↦
      rw e (lets-reject (run f.param content) (filter_log fs (some content)) (λ a. ne (rw e a)))
]

swap_and : (a b c : Bool) → a && (b && c) ≡ b && (a && c)
swap_and true b c = refl
swap_and false true c = refl
swap_and false false c = refl

filter_log-add :
    (f : Filter) (fs : List Filter) (content : Bytes)
    → verdict f content ≢ accept
    → NoAccept content fs
    → (filter_log (add_filter_to_chain fs f) (some content)
        ≡ lets (verdict f content) && filter_log fs (some content))
      × NoAccept content (add_filter_to_chain fs f)
unfolding add_filter_to_chain
filter_log-add f [] content ne no_accept = (filter_log-cons f [] content ne, (ne, tt))
filter_log-add f (c ∷ fs) content ne (nc, no_accept) =
    let (ih, keeps) = filter_log-add f fs content ne no_accept in
    elim (Bool-cases (ltb f.priority c.priority)) [
      | inl y ↦ rw (y, NoAccept) (filter_log-cons f (c ∷ fs) content ne, (ne, (nc, no_accept)))
      | inr n ↦
          rw (n, NoAccept)
            (
              filter_log-cons c (add_filter_to_chain fs f) content nc
                  ∙ ap (λ b. lets (verdict c content) && b) ih
                  ∙ swap_and (lets (verdict c content)) (lets (verdict f content))
                      (filter_log fs (some content))
                  ∙ ap (λ b. lets (verdict f content) && b) (sym (filter_log-cons c fs content nc)),
              (nc, keeps),
            )
    ]

-- A string that occurs in another.
pub record IsIn (words content : Bytes) : Type 0 where
  pub before : Bytes
  pub after : Bytes
  pub here : content ≡ before ++ (words ++ after)

module _ (strstr : Bytes → Bytes → Option ℕ)
    (finds : (content words : Bytes)
      → (strstr content words ≡ none) ↔ (IsIn words content → ⊥)) where
  -- The filters that `clog_filter_keywords_create` makes of some priorities and keywords.
  unfoldable pub keywords_filters : List (ℕ × Bytes) → List Filter
  keywords_filters [] = []
  keywords_filters ((p, words) ∷ ks) =
      record {
        priority = p;
        type = filter_post;
        filter = some (keywords strstr);
        param = some words;
      }
      ∷ keywords_filters ks

  -- None of the keywords occurs in a content.
  abbrev pub IsFree : Bytes → List (ℕ × Bytes) → Type 0
  IsFree content [] = Unit {0}
  IsFree content (k ∷ ks) = (IsIn k.1 content → ⊥) × IsFree content ks

  keywords-lets :
      (words content : Bytes)
      → (keywords strstr (some words) content ≢ accept)
        × ((lets (keywords strstr (some words) content) ≡ true) ↔ (IsIn words content → ⊥))
  unfolding keywords
  keywords-lets words content = elim (Option-cases (strstr content words)) [
    | inl n ↦ rw (n, keywords) ((λ e. cc), ((λ e. (finds content words).0 n), (λ h. refl)))
    | inr (at, e) ↦
        rw (e, keywords)
          ((λ e'. cc), ((λ e'. cc), (λ h. absurd (clash at e ((finds content words).1 h)))))
  ]
    where
      clash : (at : ℕ) → strstr content words ≡ some at → strstr content words ≡ none → ⊥
      clash at e n = cc

  and_iff :
      {P Q : Type 0} (a b : Bool)
      → ((a ≡ true) ↔ P)
      → ((b ≡ true) ↔ Q)
      → ((a && b ≡ true) ↔ (P × Q))
  and_iff true b f g = ((λ e. (f.0 refl, g.0 e)), (λ (p, q). g.1 q))
  and_iff false b f g = ((λ e. cc), (λ (p, q). f.1 p))

  add_keywords :
      (ks : List (ℕ × Bytes)) (chain : List Filter) (content : Bytes)
      → NoAccept content chain
      → (filter_log (add_filters chain (keywords_filters ks)) (some content) ≡ true)
        ↔ ((filter_log chain (some content) ≡ true) × IsFree content ks)
  unfolding add_filters keywords_filters verdict
  add_keywords [] chain content no_accept = ((λ e. (e, tt)), λ (e, u). e)
  add_keywords ((p, words) ∷ ks) chain content no_accept =
      let f : Filter = record {
        priority = p;
        type = filter_post;
        filter = some (keywords strstr);
        param = some words;
      } in
      let (ne, free) = keywords-lets words content in
      let (e, keeps) = filter_log-add f chain content ne no_accept in
      let ih = add_keywords ks (add_filter_to_chain chain f) content keeps in
      let both =
        and_iff (lets (keywords strstr (some words) content)) (filter_log chain (some content)) free
          ((λ h. h), λ h. h) in
      (
        (λ h.
            let (now, later) = ih.0 h in
            let (here, there) = both.0 (sym e ∙ now) in (there, (here, later))),
        (λ (there, (here, later)). ih.1 (e ∙ both.1 (here, there), later)),
      )

  -- With `strstr` finding the strings that occur, a log passes the filters made of some keywords,
  -- whatever their priorities, just when none of the keywords occurs in its content.
  pub filter_log-keywords :
      (ks : List (ℕ × Bytes)) (content : Bytes)
      → (filter_log (add_filters [] (keywords_filters ks)) (some content) ≡ true)
        ↔ IsFree content ks
  unfolding filter_log
  filter_log-keywords ks content =
      let r = add_keywords ks [] content tt in ((λ h. (r.0 h).1), λ free. r.1 (refl, free))
