-- ===== src/Interpolator/Parse.antt =====
-- `clog_interpolator_parse` on every format: it ends, and what it does with malformed ones.
use casca_log.Base.{
  ℕ, zero, suc, ◌+◌, ◌≤◌, ◌<◌, ◌≡◌, ◌≢◌, refl, Bool, true, false, Option, none, some, [], ◌∷◌, ◌++◌,
  ◌==◌, length, Alloc, next, arith, Bool-cases, Option-cases, inl, inr,
}
use casca_log.Interpolator.{
  Bytes, name_loop, parse_placeholder_name, scan_text, parse_format, parse, template, wild,
}

name_loop-length :
    (cs : Bytes) {name rest : Bytes} → name_loop cs ≡ some (name, rest) → length rest < length cs
unfolding name_loop
name_loop-length [] e = ground arith
name_loop-length (c ∷ cs) e = elim (Option-cases (name_loop cs)) [
  | inl n ↦ ground arith
  | inr (r, e') ↦ ground (arith, name_loop-length cs {name = r.0} {rest = r.1})
]

pub parse_placeholder_name-length :
    (cs : Bytes) {name rest : Bytes}
    → parse_placeholder_name cs ≡ some (name, rest)
    → length rest < length cs
unfolding parse_placeholder_name
parse_placeholder_name-length [] e = ground arith
parse_placeholder_name-length (c ∷ cs) {name} {rest} e =
    ground (arith, name_loop-length (c ∷ cs) {name = name} {rest = rest})

scan_text-length :
    (esc : Bool) (cs : Bytes) {text rest : Bytes}
    → scan_text esc cs ≡ some (text, rest)
    → length text + length rest ≡ length cs
unfolding scan_text
scan_text-length esc [] e = ground arith
scan_text-length esc (c ∷ cs) e = elim (Option-cases (scan_text (c == b'\\') cs)) [
  | inl n ↦ ground arith
  | inr (r, e') ↦ ground (arith, scan_text-length (c == b'\\') cs {text = r.0} {rest = r.1})
]

-- Text that does not begin with a placeholder is consumed.
scan_text-lt :
    (c : ℕ) (cs : Bytes) {text rest : Bytes}
    → (c == b'{') ≡ false
    → scan_text false (c ∷ cs) ≡ some (text, rest)
    → length rest < length (c ∷ cs)
unfolding scan_text
scan_text-lt c cs ne e = elim (Option-cases (scan_text (c == b'\\') cs)) [
  | inl n ↦ ground arith
  | inr (r, e') ↦ ground (arith, scan_text-length (c == b'\\') cs {text = r.0} {rest = r.1})
]

module _ {H : Type 0} (lookup : Bytes → Option H) where
  parse_format-ne-none :
      (fuel : ℕ) (a : Alloc) (fmt : Bytes)
      → length fmt ≤ fuel
      → parse_format lookup fuel a fmt ≢ none
  unfolding parse_format
  parse_format-ne-none zero a [] h = λ e. cc
  parse_format-ne-none (suc fuel) a [] h = λ e. cc
  parse_format-ne-none zero a (c ∷ cs) h = absurd (omega arith)
  parse_format-ne-none (suc fuel) a (c ∷ cs) h = elim (Bool-cases (c == b'{')) [
    | inl b ↦ elim (Option-cases (parse_placeholder_name cs)) [
      | inl n ↦ rw (b, n) (λ e. cc)
      | inr (r, e) ↦
          let l = parse_placeholder_name-length cs {name = r.0} {rest = r.1} e in
          let ih = parse_format-ne-none fuel (next (next a)) r.1 (omega arith) in
          rw (b, e) (ground (arith, ih))
    ]
    | inr b ↦ elim (Option-cases (scan_text false (c ∷ cs))) [
      | inl n ↦ rw (b, n) (λ e. cc)
      | inr (r, e) ↦
          let l = scan_text-lt c cs {text = r.0} {rest = r.1} b e in
          let ih = parse_format-ne-none fuel (next (next (next a))) r.1 (omega arith) in
          rw (b, e) (ground (arith, ih))
    ]
  ]

  -- Parsing ends, whatever the format, the placeholders and the allocations.
  pub parse_total : (a : Alloc) (fmt : Bytes) → parse lookup a fmt ≢ none
  unfolding parse
  parse_total a fmt = ground (arith, parse_format-ne-none (length fmt) (next a) fmt)

  -- A format that begins with a malformed placeholder: the root is cleared though its `next` was
  -- never written.
  pub parse_wild :
      (a : Alloc) (cs : Bytes)
      → a 0 ≡ true
      → parse_placeholder_name cs ≡ none
      → parse lookup a (b'{' ∷ cs) ≡ some wild
  unfolding parse parse_format
  parse_wild a cs y n = rw (y, n)

  -- Plain text, with no brace and no backslash.
  abbrev pub IsPlain : Bytes → Type 0
  IsPlain [] = Unit {0}
  IsPlain (c ∷ cs) = (c ≢ b'{') × (c ≢ b'}') × (c ≢ b'\\') × IsPlain cs

  scan_text-stray :
      (text rest : Bytes) → IsPlain text → scan_text false (text ++ b'}' ∷ rest) ≡ none
  unfolding scan_text
  scan_text-stray [] rest plain = refl
  scan_text-stray (c ∷ text) rest plain = ground (arith, scan_text-stray text rest)

  -- A closing brace with no opening one before it: the parser returns success, with a root whose
  -- `next` was never written.
  pub parse_stray :
      (a : Alloc) (text rest : Bytes)
      → a 0 ≡ true
      → IsPlain text
      → parse lookup a (text ++ b'}' ∷ rest) ≡ some (template none)
  unfolding parse parse_format
  parse_stray a [] rest y plain = ground (arith, scan_text-stray [] rest plain)
  parse_stray a (c ∷ text) rest y plain = ground (arith, scan_text-stray (c ∷ text) rest plain)
