-- ===== src/DeadLetters/Tests.antt =====
-- The pages of a concrete table.
use nexus_commerce.Base.{
  ℕ, zero, suc, ◌≡◌, ◌==◌, refl, ap, false, Option, none, some, String, List, [], ◌∷◌, ok,
  if◌then◌else◌,
}
use Prim.Native.Char.{code}
use nexus_commerce.DeadLetters.Lists.{take, filter}
use nexus_commerce.DeadLetters.{DeadLetterRow, ListFilter, CursorCodec, DeadLetterDb, encode_cursor}
use nexus_commerce.DeadLetters.Pages.{pages, pages-all}

-- A text that begins with its time, in strokes.
abbrev to_text : ℕ → String → String
to_text zero id = String.◌∷◌ "z" id
to_text (suc n) id = String.◌∷◌ "s" (to_text n id)

abbrev later : Option (Option ℕ × Option String) → Option (Option ℕ × Option String)
later (some (some n, id)) = some (some (suc n), id)
later o = o

abbrev from_text : String → Option (Option ℕ × Option String)
from_text String.[] = none
from_text (String.◌∷◌ c s) =
    let rest = from_text s in if code c == b'z' then some (some 0, some s) else later rest

from_text-to_text : (n : ℕ) (id : String) → from_text (to_text n id) ≡ some (some n, some id)
from_text-to_text zero id = refl
from_text-to_text (suc n) id = ap later (from_text-to_text n id)

abbrev codec : CursorCodec
codec = record { to_text = to_text; from_text = from_text; from_text-to_text = from_text-to_text }

abbrev row : String → ℕ → DeadLetterRow
row id at = record { id = id; source_service = "auth"; event_type = none; created_at = at }

abbrev table : List DeadLetterRow
table = row "a" 1 ∷ row "b" 2 ∷ row "c" 3 ∷ row "d" 4 ∷ []

abbrev db : DeadLetterDb
db = record {
  Table = Unit {0};
  id_lt = λ i j. false;
  id_lt-irreflexive = λ i. refl;
  rows = λ t. table;
  rows-IsOrdered = λ t. (
    ((refl, refl), ((refl, refl), ((refl, refl), tt))),
    (((refl, refl), ((refl, refl), tt)), (((refl, refl), tt), (tt, tt))),
  );
  rows-id = λ t. (refl, (refl, (refl, (refl, tt))));
  find_many = λ p n t. take n (filter p table);
  find_many-take = λ p n t. refl;
}

abbrev all_rows : ListFilter
all_rows = record { source_service = none; event_type = none }

pages-all_example :
    pages codec db 4 all_rows (encode_cursor codec 1 "a") 1 tt
    ≡ ok (row "b" 2 ∷ row "c" 3 ∷ row "d" 4 ∷ [])
pages-all_example =
    pages-all codec db all_rows 1 tt [] (row "b" 2 ∷ row "c" 3 ∷ row "d" 4 ∷ []) (row "a" 1) refl
