-- ===== src/DeadLetters.antt =====
-- The pages of the dead letters: services/user-service/src/pagination/cursorPagination.ts and the list of
-- modules/dead-letter-event/deadLetterEvent.repository.ts. A time is a number of milliseconds.
pub mod Lists
pub mod Pages
mod Tests
use nexus_commerce.Base.{
  ℕ, ◌+◌, ◌≡◌, ap, ◌==◌, Bool, true, false, ◌&&◌, ◌||◌, Option, none, some, String, List, [], ◌∷◌,
  Result, ok, err, All, length, str_eq, ltb, min, max, if◌then◌else◌,
}
use nexus_commerce.DeadLetters.Lists.{take, filter}

-- The row of a dead letter, with the columns that the list reads by name
pub record DeadLetterRow : Type 0 where
  pub id : String
  pub source_service : String
  pub event_type : Option String
  pub created_at : ℕ

pub record Cursor : Type 0 where
  pub created_at : ℕ
  pub id : String

-- `ListDeadLetterEventsFilter`
pub record ListFilter : Type 0 where
  pub source_service : Option String
  pub event_type : Option String

-- `CursorPaginationResult`
pub record Page : Type 0 where
  pub rows : List DeadLetterRow
  pub next_cursor : Option String
  pub has_more : Bool

-- base64url and JSON, which are not part of the repository: the text of a cursor, and the fields found in
-- a text, if it is such a JSON object.
pub record CursorCodec : Type 0 where
  pub to_text : ℕ → String → String
  pub from_text : String → Option (Option ℕ × Option String)
  pub from_text-to_text :
      (at : ℕ) (id : String) → from_text (to_text at id) ≡ some (some at, some id)

-- `gt` on a row: a later time, or the same time and a greater id
abbrev pub is_after : (String → String → Bool) → ℕ → String → DeadLetterRow → Bool
is_after id_lt at id r = ltb at r.created_at || (at == r.created_at && id_lt id r.id)

abbrev pub IsBefore : (String → String → Bool) → DeadLetterRow → DeadLetterRow → Type 0
IsBefore id_lt r q =
    (is_after id_lt r.created_at r.id q ≡ true) × (is_after id_lt q.created_at q.id r ≡ false)

abbrev pub IsOrdered : (String → String → Bool) → List DeadLetterRow → Type 0
IsOrdered id_lt [] = Unit
IsOrdered id_lt (r ∷ rs) = All (IsBefore id_lt r) rs × IsOrdered id_lt rs

-- The delegate `prisma.deadLetterEvent`, ordered by `createdAt` and `id`
pub record DeadLetterDb : Type 1 where
  pub Table : Type 0
  -- The order of the ids in the database
  pub id_lt : String → String → Bool
  pub id_lt-irreflexive : (i : String) → id_lt i i ≡ false
  -- The rows in the order of `orderBy`: what the laws speak of.
  pub rows : Table → List DeadLetterRow
  pub rows-IsOrdered : (t : Table) → IsOrdered id_lt (rows t)
  pub rows-id : (t : Table) → All (λ r. str_eq r.id "" ≡ false) (rows t)
  -- `findMany` with a `where` and a `take`
  pub find_many : (DeadLetterRow → Bool) → ℕ → Table → List DeadLetterRow
  pub find_many-take :
      (p : DeadLetterRow → Bool) (n : ℕ) (t : Table) → find_many p n t ≡ take n (filter p (rows t))

-- `...(filter.x ? { x: filter.x } : {})`
abbrev pub fits : Option String → Option String → Bool
fits none actual = true
fits (some wanted) none = str_eq wanted ""
fits (some wanted) (some actual) = str_eq wanted "" || str_eq wanted actual

abbrev pub fits_filter : ListFilter → DeadLetterRow → Bool
fits_filter f r = fits f.source_service (some r.source_service) && fits f.event_type r.event_type

abbrev pub cursor_error : String
cursor_error =
    "Invalid cursor format. Cursor must be a valid base64url-encoded JSON object with 'createdAt' and 'id' fields."

-- `parsePaginationParams` on the limit
abbrev pub parse_limit : ℕ → ℕ
parse_limit limit = min (max limit 1) 100

abbrev pub last : List DeadLetterRow → Option DeadLetterRow
last [] = none
last (r ∷ []) = some r
last (r ∷ q ∷ rs) = last (q ∷ rs)

module _ (codec : CursorCodec) where
  -- `encodeCursor`
  abbrev pub encode_cursor : ℕ → String → String
  encode_cursor at id = codec.to_text at id

  -- The body of the `try` of `decodeCursor`, with what its `catch` throws
  abbrev pub decode_fields : Option (Option ℕ × Option String) → Result String Cursor
  decode_fields none = err cursor_error
  decode_fields (some (some at, some id)) =
      if str_eq id "" then err cursor_error else ok (record { created_at = at; id = id })
  decode_fields (some _) = err cursor_error

  -- `decodeCursor`
  abbrev pub decode_cursor : String → Result String Cursor
  decode_cursor text = decode_fields (codec.from_text text)

  abbrev pub cursor_of : Option DeadLetterRow → Option String
  cursor_of none = none
  cursor_of (some r) = some (encode_cursor r.created_at r.id)

  -- `paginateResult`
  pub paginate_result : List DeadLetterRow → ℕ → Page
  paginate_result results limit =
      let has_more = ltb limit (length results) in
      let data' = if has_more then take limit results else results in
      record { rows = data'; next_cursor = cursor_of (last data'); has_more = has_more }

  pub paginate_result-more :
      (results : List DeadLetterRow) (limit : ℕ) (more : Bool)
      → ltb limit (length results) ≡ more
      → paginate_result results limit ≡ (
          let rs = if more then take limit results else results in
          record { rows = rs; next_cursor = cursor_of (last rs); has_more = more })
  unfolding paginate_result
  paginate_result-more results limit more h =
      ap
        (λ (b : Bool).
          let rs = if b then take limit results else results in
          record { rows = rs; next_cursor = cursor_of (last rs); has_more = b })
        h

  module _ (db : DeadLetterDb) where
    open db use {Table, id_lt, rows, find_many}

    -- `buildCursorWhere` with the rest of the `where`
    abbrev pub matches : ListFilter → Cursor → DeadLetterRow → Bool
    matches f c r = fits_filter f r && is_after id_lt c.created_at c.id r

    abbrev pub page_at : ListFilter → ℕ → Result String Cursor → Table → Result String Page
    page_at f limit (err e) t = err e
    page_at f limit (ok c) t = ok (paginate_result (find_many (matches f c) (limit + 1) t) limit)

    -- `cursor ?? ""`
    abbrev pub or_empty : Option String → String
    or_empty none = ""
    or_empty (some text) = text

    -- `list` of the repository
    abbrev pub list_rows : ListFilter → Option String → ℕ → Table → Result String Page
    list_rows f cursor limit t = page_at f limit (decode_cursor (or_empty cursor)) t
