-- ===== src/DeadLetters/Pages.antt =====
-- A client that follows the cursors gets every row once, in order.
use nexus_commerce.Base.{
  ℕ, zero, suc, ◌+◌, ◌-◌, ◌≡◌, ◌≤◌, ◌<◌, refl, sym, ap, ◌∙◌, Bool, true, false, Option, none, some,
  String, List, [], ◌∷◌, ◌++◌, Result, ok, err, All, All-right, All-map, length, str_eq, ltb, leb,
  lt→ltb, Bool-cases, inl, inr, arith, leb→le, leb→lt,
}
use mathlib.Core.List.{append_assoc}
use mathlib.Core.Path.{subst}
use nexus_commerce.DeadLetters.Lists.{
  take, filter, filter-cut, filter-filter, All-filter, take-le, length-take, take-take, take-cut,
}
use nexus_commerce.DeadLetters.{
  DeadLetterRow, ListFilter, Page, CursorCodec, is_after, IsBefore, IsOrdered, DeadLetterDb,
  fits_filter, parse_limit, last, encode_cursor, decode_fields, cursor_of, cursor_error,
  paginate_result, paginate_result-more, page_at, list_rows, matches,
}

last-append : (ds : List DeadLetterRow) (r : DeadLetterRow) → last (ds ++ r ∷ []) ≡ some r
last-append [] r = refl
last-append (d ∷ []) r = refl
last-append (d ∷ e ∷ ds) r = last-append (e ∷ ds) r

filter-IsOrdered :
    (id_lt : String → String → Bool) (p : DeadLetterRow → Bool) (rs : List DeadLetterRow)
    → IsOrdered id_lt rs
    → IsOrdered id_lt (filter p rs)
filter-IsOrdered id_lt p [] h = tt
filter-IsOrdered id_lt p (r ∷ rs) h = elim (Bool-cases (p r)) [
  | inl yes' ↦ rw yes' (All-filter (IsBefore id_lt r) p rs h.0, filter-IsOrdered id_lt p rs h.1)
  | inr no' ↦ rw no' (filter-IsOrdered id_lt p rs h.1)
]

-- In an ordered list a row's cursor splits it behind the row.
ordered-split :
    (id_lt : String → String → Bool) (as' : List DeadLetterRow) (r : DeadLetterRow)
    (es : List DeadLetterRow)
    → ((i : String) → id_lt i i ≡ false)
    → IsOrdered id_lt (as' ++ r ∷ es)
    → All (λ q. is_after id_lt r.created_at r.id q ≡ false) (as' ++ r ∷ [])
      × All (λ q. is_after id_lt r.created_at r.id q ≡ true) es
ordered-split id_lt [] r es irreflexive h =
    let self = irreflexive r.id in
    let here : is_after id_lt r.created_at r.id r ≡ false = ground arith in
    (
      (here, tt),
      All-map (IsBefore id_lt r) (λ q. is_after id_lt r.created_at r.id q ≡ true) es (λ q b. b.0)
          h.0,
    )
ordered-split id_lt (a ∷ as') r es irreflexive h =
    let (out, in') = ordered-split id_lt as' r es irreflexive h.1 in
    (((All-right (IsBefore id_lt a) as' (r ∷ es) h.0).0.1, out), in')

module _ (codec : CursorCodec) (db : DeadLetterDb) where
  open db use {
    Table, id_lt, rows, find_many, find_many-take, rows-IsOrdered, rows-id, id_lt-irreflexive,
  }

  abbrev pub prepend :
      List DeadLetterRow → Result String (List DeadLetterRow) → Result String (List DeadLetterRow)
  prepend rs (err e) = err e
  prepend rs (ok qs) = ok (rs ++ qs)

  abbrev pub follow_page :
      List DeadLetterRow
      → Bool
      → Option String
      → (String → Result String (List DeadLetterRow))
      → Result String (List DeadLetterRow)
  follow_page rs false cursor next = ok rs
  follow_page rs true none next = ok rs
  follow_page rs true (some cursor) next = prepend rs (next cursor)

  -- The pages from a cursor on, put together: the next page is asked for while there is more. The fuel
  -- bounds the number of pages.
  abbrev pub follow :
      Result String Page
      → (String → Result String (List DeadLetterRow))
      → Result String (List DeadLetterRow)
  follow (err e) next = err e
  follow (ok page) next = follow_page page.rows page.has_more page.next_cursor next

  unfoldable pub pages : ℕ → ListFilter → String → ℕ → Table → Result String (List DeadLetterRow)
  pages zero f cursor limit t = err "out of fuel"
  pages (suc n) f cursor limit t =
      follow (list_rows codec db f (some cursor) limit t) (λ next. pages n f next limit t)

  page-short :
      (rs : List DeadLetterRow) (n : ℕ)
      → length rs ≤ n
      → paginate_result codec (take (n + 1) rs) n
        ≡ record { rows = rs; next_cursor = cursor_of codec (last rs); has_more = false }
  page-short rs n h =
      let whole = take-le (n + 1) rs (omega arith) in
      let fits : ltb n (length rs) ≡ false = ground arith in
      rw whole (paginate_result-more codec rs n false fits)

  page-long :
      (rs : List DeadLetterRow) (n : ℕ)
      → n < length rs
      → paginate_result codec (take (n + 1) rs) n ≡ record {
        rows = take n rs;
        next_cursor = cursor_of codec (last (take n rs));
        has_more = true;
      }
  page-long rs n h =
      let size = length-take (n + 1) rs (omega arith) in
      let more : ltb n (length (take (n + 1) rs)) ≡ true =
        lt→ltb n (length (take (n + 1) rs)) (omega (arith, size)) in
      let one_more : n + 1 ≡ suc n = omega arith in
      let same : take n (take (n + 1) rs) ≡ take n rs =
        ap (λ m. take n (take m rs)) one_more ∙ take-take n rs in
      paginate_result-more codec (take (n + 1) rs) n true more
      ∙ ap (λ qs. record { rows = qs; next_cursor = cursor_of codec (last qs); has_more = true })
          same

  -- The rows that a page is made of.
  found-rows :
      (f : ListFilter) (at : ℕ) (id : String) (n : ℕ) (t : Table) (before left : List DeadLetterRow)
      → filter (fits_filter f) (rows t) ≡ before ++ left
      → All (λ q. is_after id_lt at id q ≡ false) before
      → All (λ q. is_after id_lt at id q ≡ true) left
      → find_many (matches codec db f (record { created_at = at; id = id })) n t ≡ take n left
  found-rows f at id n t before left split' out in' =
      find_many-take (matches codec db f (record { created_at = at; id = id })) n t
      ∙ ap (take n) (
          filter-filter (fits_filter f) (λ q. is_after id_lt at id q) (rows t)
          ∙ ap (filter (λ q. is_after id_lt at id q)) split'
          ∙ filter-cut (λ q. is_after id_lt at id q) before left out in')

  list_rows-page :
      (f : ListFilter) (at : ℕ) (id : String) (n : ℕ) (t : Table) (before left : List DeadLetterRow)
      → str_eq id "" ≡ false
      → filter (fits_filter f) (rows t) ≡ before ++ left
      → All (λ q. is_after id_lt at id q ≡ false) before
      → All (λ q. is_after id_lt at id q ≡ true) left
      → list_rows codec db f (some (encode_cursor codec at id)) n t
        ≡ ok (paginate_result codec (take (n + 1) left) n)
  list_rows-page f at id n t before left full split' out in' =
      ap (λ o. page_at codec db f n (decode_fields codec o) t) (codec.from_text-to_text at id)
      ∙ (rw full (
          ap (λ rs. ok (paginate_result codec rs n))
            (found-rows f at id (n + 1) t before left split' out in')))

  -- The rows that a filter lets through behind a cursor.
  abbrev IsLeft : ListFilter → ℕ → String → Table → List DeadLetterRow → List DeadLetterRow → Type 0
  IsLeft f at id t before left =
      (filter (fits_filter f) (rows t) ≡ before ++ left)
      × All (λ q. is_after id_lt at id q ≡ false) before
      × All (λ q. is_after id_lt at id q ≡ true) left

  -- Behind the last row of a page the rest is left.
  next-IsLeft :
      (f : ListFilter) (t : Table) (before ds es : List DeadLetterRow) (r : DeadLetterRow)
      → filter (fits_filter f) (rows t) ≡ before ++ (ds ++ r ∷ es)
      → (str_eq r.id "" ≡ false) × IsLeft f r.created_at r.id t ((before ++ ds) ++ r ∷ []) es
  next-IsLeft f t before ds es r split' =
      let HasId = λ (q : DeadLetterRow). str_eq q.id "" ≡ false in
      let named : All HasId (before ++ (ds ++ r ∷ es)) =
        subst (All HasId) split' (All-filter HasId (fits_filter f) (rows t) (rows-id t)) in
      let split'' : filter (fits_filter f) (rows t) ≡ (before ++ ds) ++ r ∷ es =
        split' ∙ sym (append_assoc before ds (r ∷ es)) in
      let ordered : IsOrdered id_lt ((before ++ ds) ++ r ∷ es) =
        subst (IsOrdered id_lt) split''
          (filter-IsOrdered id_lt (fits_filter f) (rows t) (rows-IsOrdered t)) in
      let (out, in') = ordered-split id_lt (before ++ ds) r es id_lt-irreflexive ordered in
      (
        (All-right HasId ds (r ∷ es) (All-right HasId before (ds ++ r ∷ es) named)).0,
        (split'' ∙ sym (append_assoc (before ++ ds) (r ∷ []) es), out, in'),
      )

  pages-left :
      (fuel l : ℕ) (f : ListFilter) (at : ℕ) (id : String) (t : Table)
      (before left : List DeadLetterRow)
      → str_eq id "" ≡ false
      → IsLeft f at id t before left
      → length left < fuel
      → pages fuel f (encode_cursor codec at id) (suc l) t ≡ ok left
  unfolding pages
  pages-left zero l f at id t before left full rest enough = absurd (let e : ⊥ = omega arith in e)
  pages-left (suc fuel) l f at id t before left full (split', out, in') enough =
      let next = λ (cursor : String). pages fuel f cursor (suc l) t in
      ap (λ page. follow page next)
        (list_rows-page f at id (suc l) t before left full split' out in')
      ∙ (elim (Bool-cases (leb (length left) (suc l))) [
        | inl few ↦
            ap (λ page. follow (ok page) next)
              (page-short left (suc l) (leb→le (length left) (suc l) few))
        | inr many ↦
            let more = leb→lt (length left) (suc l) many in
            let (ds, r, es, taken, whole, shorter) = take-cut l left (omega (arith, more)) in
            let (named, rest) =
              next-IsLeft f t before ds es r (split' ∙ ap (λ rs. before ++ rs) whole) in
            let after =
              pages-left fuel l f r.created_at r.id t ((before ++ ds) ++ r ∷ []) es named rest
                (omega (arith, shorter)) in
            let ending : last (take (suc l) left) ≡ some r = ap last taken ∙ last-append ds r in
            ap (λ page. follow (ok page) next) (page-long left (suc l) more)
            ∙ ap (λ o. follow_page (take (suc l) left) true (cursor_of codec o) next) ending
            ∙ ap (prepend (take (suc l) left)) after
            ∙ ap (λ rs. ok (rs ++ es)) taken
            ∙ ap ok (append_assoc ds (r ∷ []) es ∙ sym whole)
      ])

  parse_limit-suc : (limit : ℕ) → (l : ℕ) × (parse_limit limit ≡ suc l)
  parse_limit-suc limit = (parse_limit limit - 1, omega arith)

  -- Whoever follows the cursors, from the cursor of a row on, gets each row behind it that the filter lets
  -- through exactly once and in order, whatever limit was asked for, within as many pages as there are
  -- rows and one.
  pub pages-all :
      (f : ListFilter) (limit : ℕ) (t : Table) (before left : List DeadLetterRow)
      (r : DeadLetterRow)
      → filter (fits_filter f) (rows t) ≡ before ++ r ∷ left
      → pages (length left + 1) f (encode_cursor codec r.created_at r.id) (parse_limit limit) t
        ≡ ok left
  pages-all f limit t before left r split' =
      let (named, rest) = next-IsLeft f t before [] left r split' in
      let (l, same) = parse_limit-suc limit in
      ap (λ n. pages (length left + 1) f (encode_cursor codec r.created_at r.id) n t) same
      ∙ pages-left (length left + 1) l f r.created_at r.id t ((before ++ []) ++ r ∷ []) left named
          rest (omega arith)

  -- The list of the dead letters cannot be begun: without a cursor, as with an empty one, it throws, if
  -- the empty text is no JSON object.
  pub list_rows-no_first_page :
      (f : ListFilter) (limit : ℕ) (t : Table)
      → codec.from_text "" ≡ none
      → (list_rows codec db f none limit t ≡ err cursor_error)
        × (list_rows codec db f (some "") limit t ≡ err cursor_error)
  list_rows-no_first_page f limit t no_json = rw no_json (refl, refl)
