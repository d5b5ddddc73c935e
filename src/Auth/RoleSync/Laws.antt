-- ===== src/Auth/RoleSync/Laws.antt =====
-- What redelivered, late and concurrent events do to the replica.
use nexus_commerce.Base.{
  ℕ, ◌≡◌, refl, sym, ap, ◌∙◌, true, false, Option, none, some, String, List, [], ◌∷◌, ◌++◌, str_eq,
  Bool-cases, Option-cases, inl, inr, str_eq_self,
}
use nexus_commerce.Auth.Tokens.{UserRole, customer, seller, admin, super_admin}
use nexus_commerce.Auth.Credential.{
  Credential, CredentialDb, CredentialUpdate, apply_update, mark_deleted, mark_restored,
  set_role_if, same_roles, has_role, same_role,
}
use nexus_commerce.Auth.Account.{some_admin_role}
use nexus_commerce.Auth.RoleSync.{
  SyncDeps, World, distinct_onto, distinct_roles, add_role_to, add_role_to_credential, on_deleted,
  on_restored, on_attached, handle_payload, handle_parsed, handle_role_sync_message,
}

same_role_self : (r : UserRole) → same_role r r ≡ true
same_role_self customer = refl
same_role_self seller = refl
same_role_self admin = refl
same_role_self super_admin = refl

same_roles_self : (rs : List UserRole) → same_roles rs rs ≡ true
same_roles_self [] = refl
same_roles_self (r ∷ rs) = let e = same_role_self r in rw e (same_roles_self rs)

has_role-append : (r : UserRole) (rs : List UserRole) → has_role r (rs ++ r ∷ []) ≡ true
has_role-append r [] = let e = same_role_self r in rw e refl
has_role-append r (q ∷ qs) = elim (Bool-cases (same_role q r)) [
  | inl here ↦ rw here refl
  | inr there ↦ rw there (has_role-append r qs)
]

-- Whether the last of the roles that were seen decides.
has_role-seen :
    (q r : UserRole) (seen : List UserRole)
    → same_role q r ≡ true
    → has_role r seen ≡ false
    → has_role q seen ≡ false
has_role-seen customer customer seen h k = k
has_role-seen customer seller seen h k = cc
has_role-seen customer admin seen h k = cc
has_role-seen customer super_admin seen h k = cc
has_role-seen seller seller seen h k = k
has_role-seen seller customer seen h k = cc
has_role-seen seller admin seen h k = cc
has_role-seen seller super_admin seen h k = cc
has_role-seen admin admin seen h k = k
has_role-seen admin customer seen h k = cc
has_role-seen admin seller seen h k = cc
has_role-seen admin super_admin seen h k = cc
has_role-seen super_admin super_admin seen h k = k
has_role-seen super_admin customer seen h k = cc
has_role-seen super_admin seller seen h k = cc
has_role-seen super_admin admin seen h k = cc

has_role-distinct_onto :
    (r : UserRole) (seen rs : List UserRole)
    → has_role r rs ≡ true
    → has_role r seen ≡ false
    → has_role r (distinct_onto seen rs) ≡ true
has_role-distinct_onto r seen [] h fresh = h
has_role-distinct_onto r seen (q ∷ qs) h fresh = elim (Bool-cases (same_role q r)) [
  | inl here ↦ let unseen = has_role-seen q r seen here fresh in rw (unseen, here) refl
  | inr there ↦
      let rest = has_role-distinct_onto r (q ∷ seen) qs (rw there at h) (rw (there, fresh) refl) in
      elim (Bool-cases (has_role q seen)) [
        | inl seen' ↦ rw (seen', rest) refl
        | inr unseen ↦ rw (unseen, there, rest) refl
      ]
]

-- The roles of a seller are not asked for again.
pub has_role-added :
    (r : UserRole) (rs : List UserRole) → has_role r (distinct_roles (rs ++ r ∷ [])) ≡ true
has_role-added r rs = has_role-distinct_onto r [] (rs ++ r ∷ []) (has_role-append r rs) refl

module _ (db : CredentialDb) where
  open db use {Table, find, update, find-update}

  -- A second update of the same kind changes nothing.
  update-twice :
      (j : String) (u : CredentialUpdate) (t : Table) (i : String)
      → ((c : Credential) → apply_update u (apply_update u c) ≡ apply_update u c)
      → find i (update j u (update j u t)) ≡ find i (update j u t)
  update-twice j u t i again =
      let first = find-update j u t i in
      let second = find-update j u (update j u t) i in
      elim (Bool-cases (str_eq j i)) [
        | inl hit ↦ elim (Option-cases (find i t)) [
          | inl gone ↦ rw (second, hit, first) (rw (hit, gone) refl)
          | inr (c, here) ↦ rw (second, hit, first) (rw (hit, here) (ap some (again c)))
        ]
        | inr miss ↦ second ∙ (rw miss refl)
      ]

module _ (d : SyncDeps) where
  open d use {db, Json, parse_json, event_type, parse_deleted, parse_restored, parse_attached}
  open db use {Table, find, update, find-update}

  abbrev pub row : String → World d → Option Credential
  row i w = find i w.credentials

  added-row :
      (i : String) (c : Credential) (w : World d)
      → row i w ≡ some c
      → has_role seller c.role ≡ false
      → some_admin_role c.role ≡ false
      → row i (add_role_to d i seller (some c) w)
        ≡ some (record c { role = distinct_roles (c.role ++ seller ∷ []) })
  unfolding add_role_to
  added-row i c w here new' plain =
      let self = str_eq_self i in
      let unchanged = same_roles_self c.role in
      let changed =
        find-update i (set_role_if c.role (distinct_roles (c.role ++ seller ∷ []))) w.credentials
          i in
      rw (new', plain, here, unchanged) (changed ∙ (rw (self, here) (rw unchanged refl)))

  add_role-twice :
      (i : String) (w : World d)
      → add_role_to_credential d i seller (add_role_to_credential d i seller w)
        ≡ add_role_to_credential d i seller w
  unfolding add_role_to_credential add_role_to
  add_role-twice i w = elim (Option-cases (find i w.credentials)) [
    | inl gone ↦ rw (gone, gone) refl
    | inr (c, here) ↦ elim (Bool-cases (has_role seller c.role)) [
      | inl held ↦ rw (here, held) (rw (here, held) refl)
      | inr new' ↦ elim (Bool-cases (some_admin_role c.role)) [
        | inl rules ↦ rw (here, new', rules) (rw (here, new', rules) refl)
        | inr plain ↦
            let after = add_role_to d i seller (some c) w in
            let there = added-row i c w here new' plain in
            let held = has_role-added seller c.role in
            let again : add_role_to d i seller (row i after) after ≡ after =
              ap (λ o. add_role_to d i seller o after) there ∙ (rw held refl) in
            ap (λ (w' : World d). add_role_to d i seller (row i w') w')
              (ap (λ o. add_role_to d i seller o w) here)
            ∙ again
            ∙ sym (ap (λ o. add_role_to d i seller o w) here)
      ]
    ]
  ]

  deleted-twice :
      (o : Option (String × ℕ)) (w : World d) (i : String)
      → row i (on_deleted d o (on_deleted d o w)) ≡ row i (on_deleted d o w)
  unfolding on_deleted
  deleted-twice none w i = refl
  deleted-twice (some (j, at)) w i = update-twice db j (mark_deleted at) w.credentials i (λ c. refl)

  restored-twice :
      (o : Option String) (w : World d) (i : String)
      → row i (on_restored d o (on_restored d o w)) ≡ row i (on_restored d o w)
  unfolding on_restored
  restored-twice none w i = refl
  restored-twice (some j) w i = update-twice db j mark_restored w.credentials i (λ c. refl)

  attached-twice :
      (o : Option String) (w : World d) (i : String)
      → row i (on_attached d o (on_attached d o w)) ≡ row i (on_attached d o w)
  unfolding on_attached
  attached-twice none w i = refl
  attached-twice (some j) w i = ap (row i) (add_role-twice j w)

  parsed-twice :
      (o : Option Json) (w : World d) (i : String)
      → row i (handle_parsed d o (handle_parsed d o w)) ≡ row i (handle_parsed d o w)
  unfolding handle_parsed handle_payload
  parsed-twice none w i = refl
  parsed-twice (some j) w i = elim (Bool-cases (str_eq (event_type j) "user.deleted")) [
    | inl yes' ↦ rw yes' (deleted-twice (parse_deleted j) w i)
    | inr no' ↦ elim (Bool-cases (str_eq (event_type j) "user.restored")) [
      | inl yes' ↦ rw (no', yes') (restored-twice (parse_restored j) w i)
      | inr no'' ↦ elim (Bool-cases (str_eq (event_type j) "user.seller.profile.attached")) [
        | inl yes' ↦ rw (no', no'', yes') (attached-twice (parse_attached j) w i)
        | inr other ↦ rw (no', no'', other) refl
      ]
    ]
  ]

  -- An event that is delivered twice leaves every account as it was after the first delivery.
  pub handle_role_sync_message-twice :
      (raw : Option String) (w : World d) (i : String)
      → let once = handle_role_sync_message d raw w in
        row i (handle_role_sync_message d raw once) ≡ row i once
  unfolding handle_role_sync_message
  handle_role_sync_message-twice none w i = refl
  handle_role_sync_message-twice (some raw) w i = elim (Bool-cases (str_eq raw "")) [
    | inl empty ↦ rw empty refl
    | inr full ↦ rw full (parsed-twice (parse_json raw) w i)
  ]
