-- ===== src/Redaction/Privacy.antt =====
-- What a transport can learn of a log entry.
use nexus_commerce.Base.{
  ◌≡◌, refl, ap, Bool, true, false, String, List, [], ◌∷◌, ◌++◌, ◌⊎◌, inl, inr, str_eq, str_eq→eq,
  str_eq_self, Bool-cases, ◌||◌, if◌then◌else◌, Any,
}
use mathlib.Core.Path.{subst}
use nexus_commerce.Redaction.{
  LogValue, LogItems, LogSymbols, LogEntries, plain, primitive, array, object, no_items, item,
  no_entries, entry, default_redact_keys, redacted, assign, has_own, is_redacted, redact_value,
  redact_items, redact_entries, redaction_format,
}

or-true_left : (b c : Bool) → b ≡ true → (b || c) ≡ true
or-true_left b c h = cc

or-true_cases : (b c : Bool) → (b || c) ≡ true → (b ≡ true) ⊎ (c ≡ true)
or-true_cases true c h = inl refl
or-true_cases false c h = inr h

module _ (lower : String → String) (is_inherited : String → Bool) where
  -- A key is secret when it is one of `keys` but for upper and lower case, or a name that every object
  -- has.
  abbrev pub IsSecret : List String → String → Type 0
  IsSecret keys key = Any (λ k. lower k ≡ lower key) keys ⊎ (is_inherited (lower key) ≡ true)

  has_own-Any :
      (keys : List String) (name : String)
      → Any (λ k. lower k ≡ name) keys
      → has_own lower is_inherited keys name ≡ true
  has_own-Any [] name h = absurd h
  has_own-Any (k ∷ ks) name (inl e) =
      or-true_left _ _ (subst (λ (n : String). str_eq (lower k) n ≡ true) e (str_eq_self (lower k)))
  has_own-Any (k ∷ ks) name (inr h) = elim (Bool-cases (str_eq (lower k) name)) [
    | inl e ↦ or-true_left _ _ e
    | inr e ↦ rw (e, has_own-Any ks name h)
  ]

  Any-has_own :
      (keys : List String) (name : String)
      → has_own lower is_inherited keys name ≡ true
      → Any (λ k. lower k ≡ name) keys
  Any-has_own [] name h = cc
  Any-has_own (k ∷ ks) name h =
      elim (or-true_cases (str_eq (lower k) name) (has_own lower is_inherited ks name) h) [
        | inl e ↦ inl (str_eq→eq (lower k) name e)
        | inr e ↦ inr (Any-has_own ks name e)
      ]

  module _ (keys : List String) where
    -- The second value is the first, but for what stands under a secret key, for entries that are named
    -- `__proto__` and for what an object holds besides its entries. What stands under symbols is the same,
    -- secret or not.
    mutual
      pub data Agree : LogValue → LogValue → Type 0 where
        primitives : (text : String) → Agree (primitive text) (primitive text)
        arrays : (vs ws : LogItems) → AgreeItems vs ws → Agree (array vs) (array ws)
        objects :
            (inner inner' : String) (symbols : LogSymbols) (es fs : LogEntries)
            → AgreeEntries es fs
            → Agree (object inner symbols es) (object inner' symbols fs)

      pub data AgreeItems : LogItems → LogItems → Type 0 where
        same_items : AgreeItems no_items no_items
        items :
            (v w : LogValue) (vs ws : LogItems)
            → Agree v w
            → AgreeItems vs ws
            → AgreeItems (item v vs) (item w ws)

      pub data AgreeEntries : LogEntries → LogEntries → Type 0 where
        same_entries : AgreeEntries no_entries no_entries
        public :
            (key : String) (v w : LogValue) (es fs : LogEntries)
            → Agree v w
            → AgreeEntries es fs
            → AgreeEntries (entry key v es) (entry key w fs)
        secret :
            (key : String) (v w : LogValue) (es fs : LogEntries)
            → IsSecret keys key
            → AgreeEntries es fs
            → AgreeEntries (entry key v es) (entry key w fs)
        dropped :
            (v : LogValue) (es fs : LogEntries)
            → AgreeEntries es fs
            → AgreeEntries (entry "__proto__" v es) fs

    is_redacted-IsSecret :
        (key : String) → IsSecret keys key → is_redacted lower is_inherited keys key ≡ true
    is_redacted-IsSecret key (inl h) = or-true_left _ _ (has_own-Any keys (lower key) h)
    is_redacted-IsSecret key (inr h) =
        elim (Bool-cases (has_own lower is_inherited keys (lower key))) [
          | inl e ↦ or-true_left _ _ e
          | inr e ↦ rw (e, h)
        ]

    IsSecret-is_redacted :
        (key : String) → is_redacted lower is_inherited keys key ≡ true → IsSecret keys key
    IsSecret-is_redacted key h =
        elim (or-true_cases (has_own lower is_inherited keys (lower key)) (is_inherited (lower key))
          h) [ inl e ↦ inl (Any-has_own keys (lower key) e) | inr e ↦ inr e ]

    mutual
      unfolding redact_value

      redact_value-Agree :
          (v w : LogValue)
          → Agree v w
          → redact_value lower is_inherited keys v ≡ redact_value lower is_inherited keys w
      redact_value-Agree _ _ (primitives text) = refl
      redact_value-Agree _ _ (arrays vs ws h) = ap array (redact_items-Agree vs ws h)
      redact_value-Agree _ _ (objects inner inner' symbols es fs h) =
          ap (object plain symbols) (redact_entries-Agree es fs h)

      redact_items-Agree :
          (vs ws : LogItems)
          → AgreeItems vs ws
          → redact_items lower is_inherited keys vs ≡ redact_items lower is_inherited keys ws
      redact_items-Agree _ _ same_items = refl
      redact_items-Agree _ _ (items v w vs ws h hs) =
          rw (redact_value-Agree v w h, redact_items-Agree vs ws hs)

      redact_entries-Agree :
          (es fs : LogEntries)
          → AgreeEntries es fs
          → redact_entries lower is_inherited keys es ≡ redact_entries lower is_inherited keys fs
      redact_entries-Agree _ _ same_entries = refl
      redact_entries-Agree _ _ (public key v w es fs h hs) =
          rw (redact_value-Agree v w h, redact_entries-Agree es fs hs)
      redact_entries-Agree _ _ (secret key v w es fs h hs) =
          rw (is_redacted-IsSecret key h, redact_entries-Agree es fs hs)
      redact_entries-Agree _ _ (dropped v es fs hs) = redact_entries-Agree es fs hs

    Agree-assign :
        (key : String) (v w : LogValue) (es fs : LogEntries)
        → AgreeEntries (entry key v es) (entry key w fs)
        → AgreeEntries es fs
        → AgreeEntries (entry key v es) (assign key w fs)
    Agree-assign key v w es fs h hs = elim (Bool-cases (str_eq key "__proto__")) [
      | inl e ↦ rw (e, str_eq→eq key "__proto__" e) (dropped v es fs hs)
      | inr e ↦ rw e h
    ]

    Agree-entry :
        (key : String) (v w : LogValue) (es fs : LogEntries) (r : Bool)
        → (r ≡ true → IsSecret keys key)
        → Agree v w
        → AgreeEntries es fs
        → AgreeEntries (entry key v es) (entry key (if r then redacted else w) fs)
    Agree-entry key v w es fs true g h hs = secret key v redacted es fs (g refl) hs
    Agree-entry key v w es fs false g h hs = public key v w es fs h hs

    mutual
      unfolding redact_value

      Agree-redact_value : (v : LogValue) → Agree v (redact_value lower is_inherited keys v)
      Agree-redact_value (primitive text) = primitives text
      Agree-redact_value (array vs) = arrays vs _ (Agree-redact_items vs)
      Agree-redact_value (object inner symbols es) =
          objects inner plain symbols es _ (Agree-redact_entries es)

      Agree-redact_items : (vs : LogItems) → AgreeItems vs (redact_items lower is_inherited keys vs)
      Agree-redact_items no_items = same_items
      Agree-redact_items (item v vs) = items v _ vs _ (Agree-redact_value v) (Agree-redact_items vs)

      Agree-redact_entries :
          (es : LogEntries) → AgreeEntries es (redact_entries lower is_inherited keys es)
      Agree-redact_entries no_entries = same_entries
      Agree-redact_entries (entry key v es) =
          Agree-assign key v _ es _
            (Agree-entry key v _ es _ (is_redacted lower is_inherited keys key)
              (IsSecret-is_redacted key) (Agree-redact_value v) (Agree-redact_entries es))
            (Agree-redact_entries es)

  -- What a transport gets of a log entry does not depend on what stands under a secret key, at any depth of
  -- the entries under texts, nor on what nested objects hold besides their enumerable entries, such as
  -- the message of an Error; and it is the entry itself but for that and for entries named `__proto__`.
  -- Secret are the default keys and those of the service, whatever the case of their letters, and the
  -- names that every object inherits. What stands under a symbol goes through as it is, with any secret
  -- in it.
  pub redaction_format-private :
      (extra_keys : List String) (symbols : LogSymbols) (es fs : LogEntries)
      → AgreeEntries (default_redact_keys ++ extra_keys) es fs
      → (redaction_format lower is_inherited extra_keys symbols es
          ≡ redaction_format lower is_inherited extra_keys symbols fs)
        × Agree
            (default_redact_keys ++ extra_keys)
            (object plain symbols es)
            (redaction_format lower is_inherited extra_keys symbols es)
  unfolding redaction_format
  redaction_format-private extra_keys symbols es fs h =
      let keys = default_redact_keys ++ extra_keys in
      (
        redact_value-Agree keys _ _ (objects plain plain symbols es fs h),
        Agree-redact_value keys (object plain symbols es),
      )
