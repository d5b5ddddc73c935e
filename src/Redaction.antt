-- ===== src/Redaction.antt =====
-- packages/logger/src/redaction.ts: what a log entry loses before it reaches a transport.
mod Privacy
mod Tests
use nexus_commerce.Base.{
  Bool, true, false, String, List, [], ◌∷◌, ◌++◌, str_eq, if◌then◌else◌, ◌||◌,
}

-- A value that is logged. A primitive is kept as its text. An object has its own enumerable entries,
-- under symbols and under texts, and what it holds besides, as a text: its class, the message and the
-- stack of an Error, the time of a Date. A plain object holds nothing besides.
mutual
  pub data LogValue : Type 0 where
    primitive : String → LogValue
    array : LogItems → LogValue
    object : String → LogSymbols → LogEntries → LogValue

  pub data LogItems : Type 0 where
    no_items : LogItems
    item : LogValue → LogItems → LogItems

  pub data LogSymbols : Type 0 where
    no_symbols : LogSymbols
    symbol : String → LogValue → LogSymbols → LogSymbols

  pub data LogEntries : Type 0 where
    no_entries : LogEntries
    entry : String → LogValue → LogEntries → LogEntries

abbrev pub default_redact_keys : List String
default_redact_keys =
    "password" ∷ "pass" ∷ "pwd" ∷ "token" ∷ "apikey" ∷ "api_key" ∷ "secret" ∷ "authorization"
    ∷ "auth" ∷ "otp" ∷ "code" ∷ "cardnumber" ∷ "card_number" ∷ "creditcard" ∷ "credit_card" ∷ "cvv"
    ∷ "pin" ∷ "resettoken" ∷ "reset_token" ∷ "refreshtoken" ∷ "refresh_token" ∷ "accesstoken"
    ∷ "access_token" ∷ "bearer" ∷ "cookie" ∷ "set-cookie" ∷ "sessionid" ∷ "session" ∷ "privatekey"
    ∷ "private_key" ∷ "ssn" ∷ []

-- What a plain object holds besides its entries
abbrev pub plain : String
plain = ""

abbrev pub redacted : LogValue
redacted = primitive "[REDACTED]"

-- `out[key] = value`. The name `__proto__` is that of a setter, which ignores a text, and it is in every
-- object, so that the value assigned to it is a text.
abbrev pub assign : String → LogValue → LogEntries → LogEntries
assign key value out = if str_eq key "__proto__" then out else entry key value out

-- `lower` is `toLowerCase`; `is_inherited` tells the names of `Object.prototype`.
module _ (lower : String → String) (is_inherited : String → Bool) where
  -- Whether a record that was filled with the lower-case forms of `keys` has an own name
  abbrev pub has_own : List String → String → Bool
  has_own [] name = false
  has_own (key ∷ keys) name = str_eq (lower key) name || has_own keys name

  -- `lower in keys`
  abbrev pub is_redacted : List String → String → Bool
  is_redacted keys key = has_own keys (lower key) || is_inherited (lower key)

  -- `redactValue`: an object is built anew from its entries, and those under symbols are copied as they
  -- are.
  unfoldable mutual
    pub redact_value : List String → LogValue → LogValue
    redact_value keys (primitive text) = primitive text
    redact_value keys (array items) = array (redact_items keys items)
    redact_value keys (object inner symbols entries) =
        object plain symbols (redact_entries keys entries)

    pub redact_items : List String → LogItems → LogItems
    redact_items keys no_items = no_items
    redact_items keys (item v vs) = item (redact_value keys v) (redact_items keys vs)

    pub redact_entries : List String → LogEntries → LogEntries
    redact_entries keys no_entries = no_entries
    redact_entries keys (entry key v es) =
        assign key (if is_redacted keys key then redacted else redact_value keys v)
          (redact_entries keys es)

  -- The transform of `redactionFormat`, on the symbols and the entries of the log entry
  pub redaction_format : List String → LogSymbols → LogEntries → LogValue
  redaction_format extra_keys symbols info =
      redact_value (default_redact_keys ++ extra_keys) (object plain symbols info)
