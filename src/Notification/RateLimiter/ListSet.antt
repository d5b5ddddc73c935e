-- ===== src/Notification/RateLimiter/ListSet.antt =====
-- A sorted set as a list in the order of its scores: the laws of `SortedSetOps` can be met.
use nexus_commerce.Base.{
  ℕ, ◌+◌, ◌≤◌, ◌≡◌, refl, Bool, false, ◌||◌, List, [], ◌∷◌, String, ltb, leb, leb→le, leb→lt,
  str_eq, All, length, if◌then◌else◌, arith, Bool-cases, inl, inr,
}
use nexus_commerce.Notification.RateLimiter.SortedSet.{
  SortedSetOps, above, keep_above, IsAscending, head?,
}

abbrev pub Entries : Type 0
Entries = List (ℕ × String)

abbrev pub scores_of : Entries → List ℕ
scores_of [] = []
scores_of ((t, m) ∷ z) = t ∷ scores_of z

abbrev pub contains : String → Entries → Bool
contains n [] = false
contains n ((t, m) ∷ z) = str_eq m n || contains n z

abbrev pub drop_up_to : ℕ → Entries → Entries
drop_up_to hi [] = []
drop_up_to hi ((t, m) ∷ z) = if ltb hi t then (t, m) ∷ drop_up_to hi z else drop_up_to hi z

abbrev pub insert : ℕ → String → Entries → Entries
insert t m [] = (t, m) ∷ []
insert t m ((s, n) ∷ z) = if leb s t then (s, n) ∷ insert t m z else (t, m) ∷ (s, n) ∷ z

pub scores_of-drop_up_to :
    (hi : ℕ) (z : Entries) → scores_of (drop_up_to hi z) ≡ keep_above hi (scores_of z)
scores_of-drop_up_to hi [] = refl
scores_of-drop_up_to hi ((t, m) ∷ z) = ground (arith, scores_of-drop_up_to hi z)

All-keep_above : (P : ℕ → Type 0) (c : ℕ) (ts : List ℕ) → All P ts → All P (keep_above c ts)
All-keep_above P c [] h = tt
All-keep_above P c (t ∷ ts) h = ground (arith, All-keep_above P c ts h.1)

IsAscending-keep_above : (c : ℕ) (ts : List ℕ) → IsAscending ts → IsAscending (keep_above c ts)
IsAscending-keep_above c [] h = tt
IsAscending-keep_above c (t ∷ ts) h =
    ground (arith, IsAscending-keep_above c ts h.1, All-keep_above (λ u. t ≤ u) c ts h.0)

pub All-insert :
    (P : ℕ → Type 0) (t : ℕ) (m : String) (z : Entries)
    → P t
    → All P (scores_of z)
    → All P (scores_of (insert t m z))
All-insert P t m [] p h = (p, tt)
All-insert P t m ((s, n) ∷ z) p h = ground (arith, All-insert P t m z p h.1)

All-le : (a b : ℕ) (ts : List ℕ) → a ≤ b → All (λ u. b ≤ u) ts → All (λ u. a ≤ u) ts
All-le a b [] h k = tt
All-le a b (t ∷ ts) h k = (omega arith, All-le a b ts h k.1)

pub IsAscending-insert :
    (t : ℕ) (m : String) (z : Entries)
    → IsAscending (scores_of z)
    → IsAscending (scores_of (insert t m z))
IsAscending-insert t m [] h = (tt, tt)
IsAscending-insert t m ((s, n) ∷ z) h = elim (Bool-cases (leb s t)) [
  | inl first ↦
      rw first (All-insert (λ u. s ≤ u) t m z (leb→le s t first) h.0, IsAscending-insert t m z h.1)
  | inr second ↦ rw second (
    (
      omega (arith, leb→lt s t second),
      All-le t s (scores_of z) (omega (arith, leb→lt s t second)) h.0,
    ),
    h,
  )
]

pub above-insert :
    (c t : ℕ) (m : String) (z : Entries)
    → above c (scores_of (insert t m z)) ≡ (if ltb c t then 1 else 0) + above c (scores_of z)
above-insert c t m [] = refl
above-insert c t m ((s, n) ∷ z) = elim (Bool-cases (leb s t)) [
  | inl first ↦ rw first (omega (arith, above-insert c t m z))
  | inr second ↦ rw second
]

pub length-insert :
    (t : ℕ) (m : String) (z : Entries)
    → length (scores_of (insert t m z)) ≡ length (scores_of z) + 1
length-insert t m [] = refl
length-insert t m ((s, n) ∷ z) = ground (arith, length-insert t m z)

pub contains-insert :
    (m n : String) (t : ℕ) (z : Entries) → contains n (insert t m z) ≡ (str_eq m n || contains n z)
contains-insert m n t [] = refl
contains-insert m n t ((s, k) ∷ z) = ground (arith, contains-insert m n t z)

pub contains-drop_up_to :
    (m : String) (hi : ℕ) (z : Entries)
    → contains m z ≡ false
    → contains m (drop_up_to hi z) ≡ false
contains-drop_up_to m hi [] h = refl
contains-drop_up_to m hi ((t, n) ∷ z) h = ground (arith, contains-drop_up_to m hi z)

pub drop_up_to-IsAscending :
    (hi : ℕ) (z : Entries) → IsAscending (scores_of z) → IsAscending (scores_of (drop_up_to hi z))
drop_up_to-IsAscending hi z h =
    rw (scores_of-drop_up_to hi z) (IsAscending-keep_above hi (scores_of z) h)

abbrev pub list_set : SortedSetOps
list_set = record {
  Z = (z : Entries) × IsAscending (scores_of z);
  empty = ([], tt);
  remove_up_to = λ hi z. (drop_up_to hi z.0, drop_up_to-IsAscending hi z.0 z.1);
  card = λ z. length (scores_of z.0);
  first_score = λ z. head? (scores_of z.0);
  add = λ t m z. (insert t m z.0, IsAscending-insert t m z.0 z.1);
  scores = λ z. scores_of z.0;
  has = λ m z. contains m z.0;
  scores-empty = refl;
  has-empty = λ m. refl;
  scores-remove_up_to = λ hi z. scores_of-drop_up_to hi z.0;
  has-remove_up_to = λ m hi z h. contains-drop_up_to m hi z.0 h;
  card-eq-length = λ z. refl;
  first_score-eq-head? = λ z. refl;
  scores-IsAscending = λ z. z.1;
  above-add = λ c t m z h. above-insert c t m z.0;
  length-add = λ t m z h. length-insert t m z.0;
  scores-add-le = λ t hi m z p h. All-insert (λ s. s ≤ hi) t m z.0 p h;
  has-add = λ m n t z. contains-insert m n t z.0;
}
