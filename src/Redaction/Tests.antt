-- ===== src/Redaction/Tests.antt =====
-- The redaction of a concrete log entry.
use nexus_commerce.Base.{◌≡◌, refl, Bool, String, [], ◌++◌, inl, str_eq, if◌then◌else◌, ◌||◌}
use nexus_commerce.Redaction.{
  LogEntries, plain, primitive, object, no_symbols, no_entries, entry, default_redact_keys,
  redacted, redact_value, redaction_format,
}
use nexus_commerce.Redaction.Privacy.{
  Agree, primitives, objects, public, secret, same_entries, redaction_format-private,
}

abbrev lower : String → String
lower key = if str_eq key "Password" then "password" else key

abbrev is_inherited : String → Bool
is_inherited key = str_eq key "constructor" || str_eq key "__proto__"

-- The password `text` in an object, and a nested Error.
abbrev logged : String → LogEntries
logged text = entry "userId" (primitive "7") (
    entry "body" (object plain no_symbols (entry "Password" (primitive text) no_entries))
      (entry "error" (object "Error: no route" no_symbols no_entries) no_entries))

-- The password is hidden, and the nested Error has become an empty object.
redaction_runs :
    redaction_format lower is_inherited [] no_symbols (logged "hunter2")
    ≡ object plain no_symbols (
        entry "userId" (primitive "7") (
          entry "body"
            (object plain no_symbols (entry "Password" redacted no_entries))
            (entry "error" (object plain no_symbols no_entries) no_entries)))
unfolding redaction_format redact_value
redaction_runs = refl

redaction_format-private_example :
    (redaction_format lower is_inherited [] no_symbols (logged "hunter2")
      ≡ redaction_format lower is_inherited [] no_symbols (logged "letmein"))
    × Agree lower is_inherited
        (default_redact_keys ++ [])
        (object plain no_symbols (logged "hunter2"))
        (redaction_format lower is_inherited [] no_symbols (logged "hunter2"))
redaction_format-private_example =
    redaction_format-private lower is_inherited [] no_symbols (logged "hunter2") (logged "letmein")
      (public "userId" (primitive "7") (primitive "7") _ _ (primitives "7") (
        public "body" _ _ _ _
          (objects plain plain no_symbols _ _
            (secret "Password" _ _ _ _ (inl (inl refl)) same_entries))
          (public "error" _ _ _ _
            (objects "Error: no route" "Error: no route" no_symbols _ _ same_entries)
            same_entries)))
