-- ===== src/LdapErr/Kinds.antt =====
-- Which failures are transient.
use go_adldap.Base.{
  ℕ, ◌≡◌, ◌⊎◌, inl, inr, refl, ap, ◌∙◌, arith, Bool, true, false, Option, none, some, List, [], ◌∷◌,
  ◌==◌, Option-cases, Bool-cases, All,
}
use go_adldap.LdapErr.{
  Kind, transient, RawError, Failure, look_up, by_result_code, kind_of, classify,
  extract_win32_code, result_kinds, or_unknown,
}

abbrev pub is_transient : Kind → Bool
is_transient transient = true
is_transient k = false

-- A row that is transient is one of the two codes.
abbrev IsRow : ℕ × Kind → Type 0
IsRow (code, kind) = (is_transient kind ≡ false) ⊎ ((code ≡ 51) ⊎ (code ≡ 52))

look_up-transient :
    (table : List (ℕ × Kind)) (code : ℕ)
    → All IsRow table
    → look_up table code ≡ some transient
    → (code ≡ 51) ⊎ (code ≡ 52)
unfolding look_up
look_up-transient [] code rows h = cc
look_up-transient ((k, kind) ∷ table) code (row, rows) h = elim (Bool-cases (k == code)) [
  | inl e ↦
      let same : kind ≡ transient = (let h' : some kind ≡ some transient = (rw e at h) in cc) in
      elim row [ inl plain ↦ cc (plain, ap is_transient same) | inr codes ↦ ground (arith) ]
  | inr e ↦ look_up-transient table code rows (rw e at h)
]

result_kinds-IsRow : All IsRow result_kinds
result_kinds-IsRow = (
  inl refl,
  (
    inl refl,
    (
      inl refl,
      (
        inl refl,
        (
          inl refl,
          (
            inl refl,
            (
              inl refl,
              (
                inl refl,
                (
                  inl refl,
                  (
                    inl refl,
                    (
                      inl refl,
                      (
                        inl refl,
                        (
                          inl refl,
                          (
                            inr (inl refl),
                            (
                              inr (inr refl),
                              (
                                inl refl,
                                (inl refl, (inl refl, (inl refl, (inl refl, (inl refl, tt))))),
                              ),
                            ),
                          ),
                        ),
                      ),
                    ),
                  ),
                ),
              ),
            ),
          ),
        ),
      ),
    ),
  ),
)

-- A result code that the table calls transient is busy or unavailable.
by_result_code-transient :
    (code : ℕ) → by_result_code code ≡ some transient → (code ≡ 51) ⊎ (code ≡ 52)
unfolding by_result_code
by_result_code-transient code h = look_up-transient result_kinds code result_kinds-IsRow h

or_unknown-transient : (k : Option Kind) → or_unknown k ≡ transient → k ≡ some transient
or_unknown-transient none h = cc
or_unknown-transient (some k) h = ap some h

module _ (classify_code : ℕ → Option Kind) where
  -- The domain controller said that it is busy: by a Win32 code of that kind, or by a result code
  -- where the message has no Win32 code, or one that adcore does not know.
  abbrev pub SaysBusy : Option ℕ → ℕ → Type 0
  SaysBusy none result = (result ≡ 51) ⊎ (result ≡ 52)
  SaysBusy (some code) result =
      (classify_code code ≡ some transient)
      ⊎ ((classify_code code ≡ none) × ((result ≡ 51) ⊎ (result ≡ 52)))

  kind_of-transient :
      (found : Option ℕ) (result : ℕ)
      → (kind_of classify_code found result).0 ≡ transient
      → SaysBusy found result
  unfolding kind_of
  kind_of-transient none result h = by_result_code-transient result (or_unknown-transient _ h)
  kind_of-transient (some code) result h = elim (Option-cases (classify_code code)) [
    | inl e ↦
        inr (e, by_result_code-transient result (or_unknown-transient _ (rw (kind_of, e) at h)))
    | inr (k, e) ↦ inl (e ∙ ap some (rw (kind_of, e) at h))
  ]

  pub record IsBusy (e : Failure) : Type 0 where
    pub in_time : e.context_error ≡ false
    pub raw : RawError
    pub answered : e.raw ≡ some raw
    pub busy : SaysBusy (extract_win32_code raw.diagnostic_message) raw.result_code

  -- A failure is classified as transient only where the domain controller answered, within the
  -- time of the context, that it is busy: by a Win32 code that adcore knows as transient, or by
  -- result code 51 or 52 where the message has no code that adcore knows.
  pub classify-transient : (e : Failure) → (classify classify_code e).kind ≡ transient → IsBusy e
  unfolding classify
  classify-transient e h = elim (Bool-cases e.context_error) [
    | inl c ↦ cc (ap is_transient (rw c at h))
    | inr c ↦ elim (Option-cases e.raw) [
      | inl n ↦ cc (ap is_transient (rw (c, n) at h))
      | inr (raw, r) ↦ record {
        in_time = c;
        raw = raw;
        answered = r;
        busy = kind_of-transient _ raw.result_code (rw (c, r) at h);
      }
    ]
  ]
