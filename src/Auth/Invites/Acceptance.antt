-- ===== src/Auth/Invites/Acceptance.antt =====
-- What accepting an invite needs and leaves, and that its compensation leaves nothing.
use nexus_commerce.Base.{
  ℕ, ◌≡◌, ◌<◌, refl, sym, ap, ◌∙◌, Bool, true, false, Option, none, some, String, [], ◌∷◌, Result,
  ok, err, ◌then◌, err-ok, ok-inj, then-ok, str_eq, leb, leb→lt, lt→leb, if◌then◌else◌, Bool-cases,
  inl, inr, str_eq→eq, str_eq_self, none-ne-some,
}
use mathlib.Core.Path.{subst}
use nexus_commerce.Errors.{Thrown, app, internal_server_error}
use nexus_commerce.Auth.Tokens.{admin}
use nexus_commerce.Auth.Credential.{Credential, new_credential}
use nexus_commerce.Auth.Invites.{
  InviteStatus, pending, consumed, expired, AdminInvite, is_pending, consume, reopen, InviteDeps,
  apply_update, write_audit_log, row_is_pending, World, check_row, check_found, check_invite,
  unless_account, consume_for, consume_invite, undo, roll_back, setup_failed, settle, accept_invite,
}
use nexus_commerce.Auth.Invites.SingleUse.{IsConsumedBy, consume_for-ok}

module _ (d : InviteDeps) where
  open d use {db, invites, hash_token, hash_password, link}

  -- The invite of the token can be accepted: it is pending and not expired, and no account has its email.
  abbrev pub IsAcceptable : ℕ → String → World d → AdminInvite → Type 0
  IsAcceptable now raw w v =
      (invites.find_by (hash_token raw) w.invite_rows ≡ some v)
      × (v.status ≡ pending)
      × (now < v.expires_at)
      × (db.find_by v.email w.credentials ≡ none)

  unless_account-ok :
      (v v' : AdminInvite) (o : Option Credential) (w : World d)
      → (unless_account d v o w).1 ≡ ok v'
      → (v ≡ v') × (o ≡ none) × ((unless_account d v o w).0 ≡ w)
  unless_account-ok v v' none w h = (ok-inj v v' h, refl, refl)
  unless_account-ok v v' (some c) w h = err-ok _ v' h

  check_row-ok :
      (now : ℕ) (v v' : AdminInvite) (s : InviteStatus) (w : World d)
      → (check_row d now v s w).1 ≡ ok v'
      → (s ≡ pending)
        × (now < v.expires_at)
        × (db.find_by v.email w.credentials ≡ none)
        × (v ≡ v')
        × ((check_row d now v s w).0 ≡ w)
  unfolding check_row
  check_row-ok now v v' consumed w h = err-ok _ v' h
  check_row-ok now v v' expired w h = err-ok _ v' h
  check_row-ok now v v' pending w h = elim (Bool-cases (leb v.expires_at now)) [
    | inl late ↦ err-ok _ v' (rw late at h)
    | inr early ↦
        let (same, free, kept) =
          unless_account-ok v v' (db.find_by v.email w.credentials) w (rw early at h) in
        rw early (refl, leb→lt v.expires_at now early, free, same, kept)
  ]

  check_found-ok :
      (now : ℕ) (raw : String) (o : Option AdminInvite) (v : AdminInvite) (w : World d)
      → invites.find_by (hash_token raw) w.invite_rows ≡ o
      → (check_found d now o w).1 ≡ ok v
      → IsAcceptable now raw w v × ((check_found d now o w).0 ≡ w)
  unfolding check_found
  check_found-ok now raw none v w found h = err-ok _ v h
  check_found-ok now raw (some v') v w found h =
      let (is_free, early, no_account, same, kept) = check_row-ok now v' v v'.status w h in
      (subst (λ x. IsAcceptable now raw w x) same (found, is_free, early, no_account), kept)

  setup_failed-err :
      {P : Type 0} (c : Credential) (o : World d × Option Thrown) → (setup_failed d o).1 ≡ ok c → P
  setup_failed-err c (w, none) h = err-ok _ c h
  setup_failed-err c (w, some e) h = err-ok e c h

  settle-ok :
      (created : Bool) (v : AdminInvite) (c c' : Credential) (w : World d)
      → (settle d created v c w).1 ≡ ok c'
      → (created ≡ true) × (c ≡ c') × ((settle d created v c w).0 ≡ w)
  unfolding settle
  settle-ok true v c c' w h = (refl, ok-inj c c' h, refl)
  settle-ok false v c c' w h = setup_failed-err c' (roll_back d v c w) h

  -- An acceptance that succeeds found an acceptable invite and the profile created, and leaves an account
  -- with the email of the invite, the given password and the role of an administrator, by which the invite is
  -- consumed.
  pub accept_invite-ok :
      (now : ℕ) (raw id password : String) (created : Bool) (w : World d) (c : Credential)
      → (accept_invite d now raw id password created w).1 ≡ ok c
      → let after = (accept_invite d now raw id password created w).0 in
        (v : AdminInvite) × IsAcceptable now raw w v
        × (created ≡ true)
        × (c ≡ new_credential id v.email (hash_password password) (admin ∷ []))
        × (db.find id after.credentials ≡ some c)
        × IsConsumedBy id (invites.find v.id after.invite_rows)
  unfolding accept_invite check_invite consume_invite
  accept_invite-ok now raw id password created w c h =
      let consume_then = λ (i : AdminInvite) (w' : World d).
        consume_invite d now id password i w' then (λ c' w''. settle d created i c' w'') in
      let (v, checked, step1) = then-ok (check_invite d now raw w) consume_then c h in
      let (acceptable, kept) =
        check_found-ok now raw (invites.find_by (hash_token raw) w.invite_rows) v w refl checked in
      let to_consume : accept_invite d now raw id password created w ≡ consume_then v w =
        step1 ∙ ap (consume_then v) kept in
      let first = new_credential id v.email (hash_password password) (admin ∷ []) in
      let done : (consume_then v w).1 ≡ ok c =
        ap (λ (a : World d × Result Thrown Credential). a.1) (sym to_consume) ∙ h in
      let consumed_world = (consume_invite d now id password v w).0 in
      let (c1, made, step2) =
        then-ok (consume_invite d now id password v w) (λ c' w''. settle d created v c' w'') c
          done in
      let (same, (t, stored, table), held) =
        consume_for-ok d now v first c1 (db.create first w.credentials) w made in
      let (was_created, same', kept') =
        settle-ok created v c1 c consumed_world
          (ap (λ (a : World d × Result Thrown Credential). a.1) (sym step2) ∙ done) in
      let after : (accept_invite d now raw id password created w).0 ≡ consumed_world =
        ap (λ (a : World d × Result Thrown Credential). a.0) (to_consume ∙ step2) ∙ kept' in
      let self = str_eq_self id in
      (
        v,
        acceptable,
        was_created,
        sym (same ∙ same'),
        ap (λ (w' : World d). db.find id w'.credentials) after
            ∙ ap (db.find id) table
            ∙ db.find-create first w.credentials t id stored
            ∙ (rw self refl)
            ∙ ap some (same ∙ same'),
        subst (λ (w' : World d). IsConsumedBy id (invites.find v.id w'.invite_rows)) (sym after)
            held,
      )

  -- What the tables say of every id.
  abbrev pub SameRows : World d → World d → Type 0
  SameRows w w' =
      ((i : String) → db.find i w.credentials ≡ db.find i w'.credentials)
      × ((i : String) → invites.find i w.invite_rows ≡ invites.find i w'.invite_rows)

  check_invite-IsAcceptable :
      (now : ℕ) (raw : String) (w : World d) (v : AdminInvite)
      → IsAcceptable now raw w v
      → check_invite d now raw w ≡ (w, ok v)
  unfolding check_invite check_found check_row
  check_invite-IsAcceptable now raw w v (found, is_free, early, no_account) =
      let in_time = lt→leb v.expires_at now early in
      ap (λ o. check_found d now o w) found
      ∙ ap (λ s. check_row d now v s w) is_free
      ∙ (rw (in_time, no_account) refl)

  -- The world after the transaction, with the new table of accounts.
  abbrev accepted : ℕ → AdminInvite → Credential → db.Table → World d → World d
  accepted now v c t w = write_audit_log d c.id "ADMIN_INVITE_CONSUMED" v.id (record w {
    credentials = t;
    invite_rows = invites.update v.id (consume now c.id) w.invite_rows;
  })

  consume_for-accepted :
      (now : ℕ) (v : AdminInvite) (c : Credential) (t : db.Table) (w : World d)
      → invites.find v.id w.invite_rows ≡ some v
      → v.status ≡ pending
      → consume_for d now v c (some t) w ≡ (accepted now v c t w, ok c)
  unfolding consume_for
  consume_for-accepted now v c t w here is_free =
      let free : row_is_pending (invites.find v.id w.invite_rows) ≡ true =
        ap row_is_pending here ∙ ap is_pending is_free in
      rw free refl

  reopen-consume :
      (now : ℕ) (id : String) (v : AdminInvite)
      → v.status ≡ pending
      → v.consumed_at ≡ none
      → v.consumed_by_id ≡ none
      → apply_update (reopen id) (apply_update (consume now id) v) ≡ v
  reopen-consume now id v is_free at by =
      let free : is_pending v.status ≡ true = ap is_pending is_free in
      let self = str_eq_self id in
      let restored : record v { status = pending; consumed_at = none; consumed_by_id = none } ≡ v =
        λ k. record v {
          status = sym is_free k;
          consumed_at = sym at k;
          consumed_by_id = sym by k;
        } in
      rw (free, self) restored

  -- The row of an invite that was consumed and given back.
  reopened-row :
      (now : ℕ) (id : String) (v : AdminInvite) (t : invites.Table) (i : String)
      → invites.find v.id t ≡ some v
      → v.status ≡ pending
      → v.consumed_at ≡ none
      → v.consumed_by_id ≡ none
      → invites.find i (invites.update v.id (reopen id) (invites.update v.id (consume now id) t))
        ≡ invites.find i t
  reopened-row now id v t i here is_free at by =
      let first = invites.find-update v.id (consume now id) t i in
      let second =
        invites.find-update v.id (reopen id) (invites.update v.id (consume now id) t) i in
      elim (Bool-cases (str_eq v.id i)) [
        | inl hit ↦
            let same = str_eq→eq v.id i hit in
            let here' : invites.find i t ≡ some v = ap (λ j. invites.find j t) (sym same) ∙ here in
            second
            ∙ (rw (hit, first) (rw (hit, here') (ap some (reopen-consume now id v is_free at by))))
        | inr miss ↦ second ∙ (rw (miss, first) (rw miss refl))
      ]

  deleted-row :
      (c : Credential) (t t' : db.Table) (i : String)
      → db.create c t ≡ some t'
      → db.find c.id t ≡ none
      → db.find i (db.delete c.id t') ≡ db.find i t
  deleted-row c t t' i made fresh = elim (Bool-cases (str_eq c.id i)) [
    | inl hit ↦
        db.find-delete c.id t' i
        ∙ (rw hit (sym (ap (λ j. db.find j t) (sym (str_eq→eq c.id i hit)) ∙ fresh)))
    | inr miss ↦
        db.find-delete c.id t' i ∙ (rw miss (db.find-create c t t' i made ∙ (rw miss refl)))
  ]

  roll_back-accepted :
      (now : ℕ) (v : AdminInvite) (c : Credential) (t : db.Table) (w : World d)
      → db.create c w.credentials ≡ some t
      → db.find c.id w.credentials ≡ none
      → invites.find v.id w.invite_rows ≡ some v
      → v.status ≡ pending
      → v.consumed_at ≡ none
      → v.consumed_by_id ≡ none
      → let after = roll_back d v c (accepted now v c t w) in (after.1 ≡ none) × SameRows after.0 w
  unfolding roll_back undo
  roll_back-accepted now v c t w made fresh here is_free at by =
      let self = str_eq_self c.id in
      let stored : db.find c.id t ≡ some c =
        db.find-create c w.credentials t c.id made ∙ (rw self refl) in
      rw stored (
        refl,
        (
          (λ i. deleted-row c w.credentials t i made fresh),
          (λ i. reopened-row now c.id v w.invite_rows i here is_free at by),
        ),
      )

  setup_failed-none :
      (o : World d × Option Thrown)
      → o.1 ≡ none
      → setup_failed d o
        ≡ (o.0, err (app (internal_server_error "Admin account setup failed. Please try again.")))
  setup_failed-none (w, none) h = refl
  setup_failed-none (w, some e) h = none-ne-some e _ (some e) h refl

  -- If the profile is not created, the acceptance is taken back: every account and every invite is as it
  -- was before, so that the invite can be accepted again. (The time of an invite's last update, which no
  -- code reads, is not modelled.)
  pub accept_invite-rolled_back :
      (now : ℕ) (raw id password : String) (w : World d) (v : AdminInvite)
      → IsAcceptable now raw w v
      → v.consumed_at ≡ none
      → v.consumed_by_id ≡ none
      → db.find id w.credentials ≡ none
      → let after = accept_invite d now raw id password false w in
        (after.1
          ≡ err (app (internal_server_error "Admin account setup failed. Please try again.")))
        × SameRows after.0 w
  unfolding accept_invite consume_invite settle
  accept_invite-rolled_back now raw id password w v (found, is_free, early, no_account) at by
        fresh =
      let c = new_credential id v.email (hash_password password) (admin ∷ []) in
      let (t, made) = db.create_free c w.credentials fresh no_account in
      let here = (invites.find_by-find (hash_token raw) w.invite_rows v found).1 in
      let undone = roll_back-accepted now v c t w made fresh here is_free at by in
      let checked = check_invite-IsAcceptable now raw w v (found, is_free, early, no_account) in
      let consumed' = consume_for-accepted now v c t w here is_free in
      let failed = setup_failed-none (roll_back d v c (accepted now v c t w)) undone.0 in
      rw checked (rw made (rw consumed' (rw failed (refl, undone.1))))
