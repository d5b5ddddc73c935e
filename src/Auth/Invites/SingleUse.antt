-- ===== src/Auth/Invites/SingleUse.antt =====
-- Handlers that run side by side on the same invites: each call of the database is a step of its own.
use nexus_commerce.Base.{
  ℕ, ◌≡◌, refl, sym, ap, ◌∙◌, true, false, Option, none, some, String, List, ok, str_eq, leb,
  Bool-cases, Option-cases, inl, inr, str_eq→eq, str_eq_self, none-ne-some, All, err-ok, ok-inj, [],
  ◌∷◌,
}
use mathlib.Core.Path.{subst}
use nexus_commerce.Auth.Tokens.{admin}
use nexus_commerce.Auth.Credential.{Credential, new_credential}
use nexus_commerce.Auth.Invites.{
  pending, consumed, expired, AdminInvite, is_pending, is_consumed_by, InviteUpdate, consume,
  reopen, expire, apply_update, InviteDb, InviteDeps, row_is_pending, World, invite_created,
  invite_unless, new_invite, create_invite, validate_row, validate_found, validate_invite,
  check_row, check_found, check_invite, consume_for, consume_invite, undo, roll_back,
  unless_account,
}

-- The row is consumed, and by the account of the id.
abbrev pub IsConsumedBy : String → Option AdminInvite → Type 0
IsConsumedBy by o =
    (i : AdminInvite) × (o ≡ some i) × (i.status ≡ consumed) × (i.consumed_by_id ≡ some by)

-- What an update may do to a row that an account has consumed: all but reopen it for that account.
abbrev MayDo : String → InviteUpdate → Type 0
MayDo by (reopen other) = str_eq by other ≡ false
MayDo by _ = Unit

apply_update-keeps :
    (by : String) (u : InviteUpdate) (i : AdminInvite)
    → MayDo by u
    → i.status ≡ consumed
    → i.consumed_by_id ≡ some by
    → apply_update u i ≡ i
apply_update-keeps by (consume now c) i may done who =
    let e : is_pending i.status ≡ false = ap is_pending done in rw e refl
apply_update-keeps by expire i may done who =
    let e : is_pending i.status ≡ false = ap is_pending done in rw e refl
apply_update-keeps by (reopen other) i may done who =
    let e : is_consumed_by other i.status i.consumed_by_id ≡ false =
      ap (λ s. is_consumed_by other s i.consumed_by_id) done
      ∙ ap (is_consumed_by other consumed) who
      ∙ may in
    rw e refl

pub apply_update-id : (u : InviteUpdate) (i : AdminInvite) → (apply_update u i).id ≡ i.id
apply_update-id (consume now by) i = elim (Bool-cases (is_pending i.status)) [
  | inl e ↦ rw e refl
  | inr e ↦ rw e refl
]
apply_update-id expire i = elim (Bool-cases (is_pending i.status)) [
  | inl e ↦ rw e refl
  | inr e ↦ rw e refl
]
apply_update-id (reopen by) i = elim (Bool-cases (is_consumed_by by i.status i.consumed_by_id)) [
  | inl e ↦ rw e refl
  | inr e ↦ rw e refl
]

pub apply_update-token_hash :
    (u : InviteUpdate) (i : AdminInvite) → (apply_update u i).token_hash ≡ i.token_hash
apply_update-token_hash (consume now by) i = elim (Bool-cases (is_pending i.status)) [
  | inl e ↦ rw e refl
  | inr e ↦ rw e refl
]
apply_update-token_hash expire i = elim (Bool-cases (is_pending i.status)) [
  | inl e ↦ rw e refl
  | inr e ↦ rw e refl
]
apply_update-token_hash (reopen by) i =
    elim (Bool-cases (is_consumed_by by i.status i.consumed_by_id)) [
      | inl e ↦ rw e refl
      | inr e ↦ rw e refl
    ]

module _ (invites : InviteDb) where
  open invites use {Table, find, update, create, find-update, find-create}

  update-IsConsumedBy :
      (i by j : String) (u : InviteUpdate) (t : Table)
      → (str_eq j i ≡ true → MayDo by u)
      → IsConsumedBy by (find i t)
      → IsConsumedBy by (find i (update j u t))
  update-IsConsumedBy i by j u t may (v, here, done, who) = elim (Bool-cases (str_eq j i)) [
    | inl hit ↦ (
      v,
      find-update j u t i
          ∙ (rw (hit, here) (ap some (apply_update-keeps by u v (may hit) done who))),
      done,
      who,
    )
    | inr miss ↦ (v, find-update j u t i ∙ (rw miss here), done, who)
  ]

-- One call of a handler that is under way: the transaction or query that runs next.
pub data Action : Type 0 where
  issue : ℕ → String → String → String → String → Action
  validate check : ℕ → String → Action
  accept : ℕ → String → String → AdminInvite → Action
  give_back : AdminInvite → Credential → Action

module _ (d : InviteDeps) where
  open d use {db, invites, hash_token, hash_password, link}

  unfoldable pub act : Action → World d → World d
  act (issue now id raw email by) w = (create_invite d now id raw email by w).0
  act (validate now raw) w = (validate_invite d now raw w).0
  act (check now raw) w = (check_invite d now raw w).0
  act (accept now id password i) w = (consume_invite d now id password i w).0
  act (give_back i c) w = (roll_back d i c w).0

  unfoldable pub act_all : List Action → World d → World d
  act_all [] w = w
  act_all (a ∷ as') w = act_all as' (act a w)

  -- The action is not the compensation of this very acceptance.
  abbrev pub Spares : String → String → Action → Type 0
  Spares i by (give_back j c) = (j.id ≡ i) → str_eq by c.id ≡ false
  Spares i by _ = Unit

  abbrev pub Holds : String → String → World d → Type 0
  Holds i by w = IsConsumedBy by (invites.find i w.invite_rows)

  issue-Holds :
      (i by : String) (v : AdminInvite) (raw : String) (o : Option invites.Table) (w : World d)
      → invites.create v w.invite_rows ≡ o
      → Holds i by w
      → Holds i by (invite_created d v raw o w).0
  unfolding invite_created
  issue-Holds i by v raw none w made h = h
  issue-Holds i by v raw (some t) w made (r, here, done, who) = elim (Bool-cases (str_eq v.id i)) [
    | inl hit ↦
        none-ne-some t _ (invites.create v w.invite_rows)
          (invites.create_taken_id v r w.invite_rows
            (ap (λ k. invites.find k w.invite_rows) (str_eq→eq v.id i hit) ∙ here))
          made
    | inr miss ↦ (r, invites.find-create v w.invite_rows t i made ∙ (rw miss here), done, who)
  ]

  expire-Holds :
      (i by j : String) (w : World d)
      → Holds i by w
      → IsConsumedBy by (invites.find i (invites.update j expire w.invite_rows))
  expire-Holds i by j w h = update-IsConsumedBy invites i by j expire w.invite_rows (λ hit. tt) h

  validate-Holds :
      (i by : String) (now : ℕ) (o : Option AdminInvite) (w : World d)
      → Holds i by w
      → Holds i by (validate_found d now o w).0
  unfolding validate_found validate_row
  validate-Holds i by now none w h = h
  validate-Holds i by now (some v) w h =
      elim v.status as (λ s. Holds i by (validate_row d now v s w).0) [
        | consumed ↦ h
        | expired ↦ h
        | pending ↦ elim (Bool-cases (leb v.expires_at now)) [
          | inl late ↦ rw late (expire-Holds i by v.id w h)
          | inr early ↦ rw early h
        ]
      ]

  unless_account-world :
      (v : AdminInvite) (o : Option Credential) (w : World d) → (unless_account d v o w).0 ≡ w
  unless_account-world v none w = refl
  unless_account-world v (some c) w = refl

  check-Holds :
      (i by : String) (now : ℕ) (o : Option AdminInvite) (w : World d)
      → Holds i by w
      → Holds i by (check_found d now o w).0
  unfolding check_found check_row
  check-Holds i by now none w h = h
  check-Holds i by now (some v) w h = elim v.status as (λ s. Holds i by (check_row d now v s w).0) [
    | consumed ↦ h
    | expired ↦ h
    | pending ↦ elim (Bool-cases (leb v.expires_at now)) [
      | inl late ↦ rw late (expire-Holds i by v.id w h)
      | inr early ↦ rw (early, unless_account-world v (db.find_by v.email w.credentials) w) h
    ]
  ]

  accept-Holds :
      (i by : String) (now : ℕ) (v : AdminInvite) (c : Credential) (o : Option db.Table)
      (w : World d)
      → Holds i by w
      → Holds i by (consume_for d now v c o w).0
  unfolding consume_for
  accept-Holds i by now v c none w h = h
  accept-Holds i by now v c (some t) w h =
      elim (Bool-cases (row_is_pending (invites.find v.id w.invite_rows))) [
        | inl free ↦
            rw free
              (update-IsConsumedBy invites i by v.id (consume now c.id) w.invite_rows (λ hit. tt) h)
        | inr used ↦ rw used h
      ]

  undo-Holds :
      (i by : String) (v : AdminInvite) (c : Credential) (o : Option Credential) (w : World d)
      → (v.id ≡ i → str_eq by c.id ≡ false)
      → Holds i by w
      → Holds i by (undo d v c o w).0
  unfolding undo
  undo-Holds i by v c none w spared h = h
  undo-Holds i by v c (some row) w spared h =
      update-IsConsumedBy invites i by v.id (reopen c.id) w.invite_rows
        (λ hit. spared (str_eq→eq v.id i hit)) h

  unless-Holds :
      (i by : String) (now : ℕ) (id raw email from : String) (o : Option Credential) (w : World d)
      → Holds i by w
      → Holds i by (invite_unless d now id raw email from o w).0
  unfolding invite_unless
  unless-Holds i by now id raw email from (some c) w h = h
  unless-Holds i by now id raw email from none w h =
      let v = new_invite d now id raw email from in
      issue-Holds i by v raw (invites.create v w.invite_rows) w refl h

  act-Holds :
      (i by : String) (a : Action) (w : World d)
      → Spares i by a
      → Holds i by w
      → Holds i by (act a w)
  unfolding act create_invite invite_unless validate_invite check_invite consume_invite roll_back
  act-Holds i by (issue now id raw email from) w spared h =
      unless-Holds i by now id raw email from (db.find_by email w.credentials) w h
  act-Holds i by (validate now raw) w spared h =
      validate-Holds i by now (invites.find_by (hash_token raw) w.invite_rows) w h
  act-Holds i by (check now raw) w spared h =
      check-Holds i by now (invites.find_by (hash_token raw) w.invite_rows) w h
  act-Holds i by (accept now id password v) w spared h =
      let c = new_credential id v.email (hash_password password) (admin ∷ []) in
      accept-Holds i by now v c (db.create c w.credentials) w h
  act-Holds i by (give_back v c) w spared h =
      undo-Holds i by v c (db.find c.id w.credentials) w spared h

  act_all-Holds :
      (i by : String) (as' : List Action) (w : World d)
      → All (Spares i by) as'
      → Holds i by w
      → Holds i by (act_all as' w)
  unfolding act_all
  act_all-Holds i by [] w spared h = h
  act_all-Holds i by (a ∷ as') w spared h =
      act_all-Holds i by as' (act a w) spared.1 (act-Holds i by a w spared.0 h)

  -- What a transaction that went through has done.
  pub consume_for-ok :
      (now : ℕ) (v : AdminInvite) (c c' : Credential) (o : Option db.Table) (w : World d)
      → (consume_for d now v c o w).1 ≡ ok c'
      → (c ≡ c')
        × ((t : db.Table) × (o ≡ some t) × ((consume_for d now v c o w).0.credentials ≡ t))
        × Holds v.id c.id (consume_for d now v c o w).0
  unfolding consume_for
  consume_for-ok now v c c' none w h = err-ok _ c' h
  consume_for-ok now v c c' (some t) w h = elim (Option-cases (invites.find v.id w.invite_rows)) [
    | inl gone ↦ err-ok _ c' (rw gone at h)
    | inr (row, here) ↦ elim (Bool-cases (is_pending row.status)) [
      | inr used ↦ err-ok _ c' (rw (here, used) at h)
      | inl free ↦
          let self = str_eq_self v.id in
          rw (here, free)
            (
              ok-inj c c' (rw (here, free) at h),
              (t, refl, refl),
              (
                record row {
                  status = consumed;
                  consumed_at = some now;
                  consumed_by_id = some c.id;
                },
                invites.find-update v.id (consume now c.id) w.invite_rows v.id
                    ∙ (rw (self, here) (rw free refl)),
                refl,
                refl,
              ),
            )
    ]
  ]

  consume_for-used :
      (now : ℕ) (v : AdminInvite) (c c' : Credential) (by : String) (o : Option db.Table)
      (w : World d)
      → Holds v.id by w
      → ¬ ((consume_for d now v c o w).1 ≡ ok c')
  unfolding consume_for
  consume_for-used now v c c' by none w held h = err-ok _ c' h
  consume_for-used now v c c' by (some t) w (row, here, done, who) h =
      let used : row_is_pending (invites.find v.id w.invite_rows) ≡ false =
        ap row_is_pending here ∙ ap is_pending done in
      err-ok _ c' (rw used at h)

  -- An invite makes one account: once an acceptance has gone through, no acceptance of the same invite
  -- goes through after any further calls of any handlers, unless one of them is the compensation of
  -- that very acceptance. Each acceptance may have checked the invite at any time before.
  pub consume_invite-once :
      (now : ℕ) (id password : String) (v : AdminInvite) (c : Credential) (w : World d)
      → (consume_invite d now id password v w).1 ≡ ok c
      → (as' : List Action) → All (Spares v.id id) as'
      → (later : ℕ) (id' password' : String) (u : AdminInvite) (c' : Credential) → u.id ≡ v.id
      → ¬ (
          (consume_invite d later id' password' u
            (act_all as' (consume_invite d now id password v w).0)).1
          ≡ ok c')
  unfolding consume_invite
  consume_invite-once now id password v c w done as' spared later id' password' u c' same =
      let first = new_credential id v.email (hash_password password) (admin ∷ []) in
      let second = new_credential id' u.email (hash_password password') (admin ∷ []) in
      let w1 = (consume_for d now v first (db.create first w.credentials) w).0 in
      let (equal, made, held) =
        consume_for-ok now v first c (db.create first w.credentials) w done in
      let held' : Holds u.id id (act_all as' w1) =
        subst (λ i. Holds i id (act_all as' w1)) (sym same)
          (act_all-Holds v.id id as' w1 spared held) in
      consume_for-used later u second c' id (db.create second (act_all as' w1).credentials)
        (act_all as' w1) held'
