-- ===== src/Auth/RoleSync/Roles.antt =====
-- Which roles the messages of the user-service change, and an addition of a role that is lost.
use nexus_commerce.Base.{
  ℕ, ◌≡◌, refl, sym, ap, ◌∙◌, Bool, true, false, Option, none, some, String, List, [], ◌∷◌, ◌++◌,
  str_eq, Bool-cases, inl, inr, str_eq→eq,
}
use nexus_commerce.Auth.Tokens.{seller}
use nexus_commerce.Auth.Credential.{
  Credential, CredentialUpdate, apply_update, mark_deleted, mark_restored, set_role_if, same_roles,
  has_role,
}
use nexus_commerce.Auth.Account.{some_admin_role}
use nexus_commerce.Auth.RoleSync.{
  SyncDeps, World, distinct_roles, add_role_to, add_role_to_credential, add_role_if_unchanged,
  audited, on_deleted, on_restored, on_attached, handle_payload, handle_parsed,
  handle_role_sync_message,
}
use nexus_commerce.Auth.RoleSync.Laws.{row}

module _ (d : SyncDeps) where
  open d use {db, Json, parse_json, event_type, parse_deleted, parse_restored, parse_attached}
  open db use {Table, find, update, find-update}

  pub handle_all : List (Option String) → World d → World d
  handle_all [] w = w
  handle_all (m ∷ ms) w = handle_all ms (handle_role_sync_message d m w)

  audited-row :
      (j k : String) (w : World d) (o : Table × Bool)
      → find k o.0 ≡ row d k w
      → row d k (audited d j w o) ≡ row d k w
  audited-row j k w (t, true) h = h
  audited-row j k w (t, false) h = h

  add_role_to-other :
      (j i : String) (o : Option Credential) (w : World d)
      → str_eq j i ≡ false
      → row d i (add_role_to d j seller o w) ≡ row d i w
  unfolding add_role_to
  add_role_to-other j i none w miss = refl
  add_role_to-other j i (some c) w miss = elim (Bool-cases (has_role seller c.role)) [
    | inl held ↦ rw held refl
    | inr new' ↦ elim (Bool-cases (some_admin_role c.role)) [
      | inl rules ↦ rw (new', rules) refl
      | inr plain ↦
          let u = set_role_if c.role (distinct_roles (c.role ++ seller ∷ [])) in
          rw (new', plain)
            (audited-row j i w (add_role_if_unchanged d j seller c.role w.credentials)
              (find-update j u w.credentials i ∙ (rw miss refl)))
    ]
  ]

  -- A row of an administrator, with its roles kept.
  abbrev pub KeepsRoles : Credential → Option Credential → Type 0
  KeepsRoles c o = (c' : Credential) × (o ≡ some c') × (c'.role ≡ c.role)

  update-KeepsRoles :
      (j i : String) (u : CredentialUpdate) (c : Credential) (t : Table)
      → ((x : Credential) → (apply_update u x).role ≡ x.role)
      → find i t ≡ some c
      → KeepsRoles c (find i (update j u t))
  update-KeepsRoles j i u c t same here = elim (Bool-cases (str_eq j i)) [
    | inl hit ↦ (apply_update u c, find-update j u t i ∙ (rw (hit, here) refl), same c)
    | inr miss ↦ (c, find-update j u t i ∙ (rw miss here), refl)
  ]

  deleted-KeepsRoles :
      (i : String) (c : Credential) (o : Option (String × ℕ)) (w : World d)
      → row d i w ≡ some c
      → KeepsRoles c (row d i (on_deleted d o w))
  unfolding on_deleted
  deleted-KeepsRoles i c none w here = (c, here, refl)
  deleted-KeepsRoles i c (some (j, at)) w here =
      update-KeepsRoles j i (mark_deleted at) c w.credentials (λ x. refl) here

  restored-KeepsRoles :
      (i : String) (c : Credential) (o : Option String) (w : World d)
      → row d i w ≡ some c
      → KeepsRoles c (row d i (on_restored d o w))
  unfolding on_restored
  restored-KeepsRoles i c none w here = (c, here, refl)
  restored-KeepsRoles i c (some j) w here =
      update-KeepsRoles j i mark_restored c w.credentials (λ x. refl) here

  attached-KeepsRoles :
      (i : String) (c : Credential) (o : Option String) (w : World d)
      → some_admin_role c.role ≡ true
      → row d i w ≡ some c
      → KeepsRoles c (row d i (on_attached d o w))
  unfolding on_attached add_role_to_credential add_role_to
  attached-KeepsRoles i c none w rules here = (c, here, refl)
  attached-KeepsRoles i c (some j) w rules here = elim (Bool-cases (str_eq j i)) [
    | inr miss ↦ (c, add_role_to-other j i (find j w.credentials) w miss ∙ here, refl)
    | inl hit ↦
        let here' : find j w.credentials ≡ some c =
          ap (λ k. find k w.credentials) (str_eq→eq j i hit) ∙ here in
        elim (Bool-cases (has_role seller c.role)) [
          | inl held ↦ (c, rw (here', held) here, refl)
          | inr new' ↦ (c, rw (here', new', rules) here, refl)
        ]
  ]

  step-KeepsRoles :
      (i : String) (c : Credential) (o : Option Json) (w : World d)
      → some_admin_role c.role ≡ true
      → row d i w ≡ some c
      → KeepsRoles c (row d i (handle_parsed d o w))
  unfolding handle_parsed handle_payload
  step-KeepsRoles i c none w rules here = (c, here, refl)
  step-KeepsRoles i c (some j) w rules here =
      elim (Bool-cases (str_eq (event_type j) "user.deleted")) [
        | inl yes' ↦ rw yes' (deleted-KeepsRoles i c (parse_deleted j) w here)
        | inr no' ↦ elim (Bool-cases (str_eq (event_type j) "user.restored")) [
          | inl yes' ↦ rw (no', yes') (restored-KeepsRoles i c (parse_restored j) w here)
          | inr no'' ↦ elim (Bool-cases (str_eq (event_type j) "user.seller.profile.attached")) [
            | inl yes' ↦
                rw (no', no'', yes') (attached-KeepsRoles i c (parse_attached j) w rules here)
            | inr other ↦ rw (no', no'', other) (c, here, refl)
          ]
        ]
      ]

  message-KeepsRoles :
      (i : String) (c : Credential) (raw : Option String) (w : World d)
      → some_admin_role c.role ≡ true
      → row d i w ≡ some c
      → KeepsRoles c (row d i (handle_role_sync_message d raw w))
  unfolding handle_role_sync_message
  message-KeepsRoles i c none w rules here = (c, here, refl)
  message-KeepsRoles i c (some raw) w rules here = elim (Bool-cases (str_eq raw "")) [
    | inl empty ↦ rw empty (c, here, refl)
    | inr full ↦ rw full (step-KeepsRoles i c (parse_json raw) w rules here)
  ]

  -- No sequence of messages, whatever is in them, changes the roles of an account that holds the role of
  -- an administrator or takes the account away.
  pub handle_all-admin_roles :
      (ms : List (Option String)) (i : String) (c : Credential) (w : World d)
      → some_admin_role c.role ≡ true
      → row d i w ≡ some c
      → KeepsRoles c (row d i (handle_all ms w))
  unfolding handle_all
  handle_all-admin_roles [] i c w rules here = (c, here, refl)
  handle_all-admin_roles (m ∷ ms) i c w rules here =
      let (c1, here1, same1) = message-KeepsRoles i c m w rules here in
      let (c2, here2, same2) =
        handle_all-admin_roles ms i c1 (handle_role_sync_message d m w)
          (ap some_admin_role same1 ∙ rules) here1 in
      (c2, here2, same2 ∙ same1)

  -- If the roles of an account change between the read and the write of a role's addition, the handler
  -- ends without an error and without any change: no account has the new role, and the message is not
  -- kept as a dead letter.
  pub add_role_to-stale :
      (i k : String) (read now' : Credential) (w : World d)
      → row d i w ≡ some now'
      → same_roles now'.role read.role ≡ false
      → let after = add_role_to d i seller (some read) w in
        (row d k after ≡ row d k w) × (after.dead_letters ≡ w.dead_letters)
  unfolding add_role_to
  add_role_to-stale i k read now' w here stale = elim (Bool-cases (has_role seller read.role)) [
    | inl held ↦ rw held (refl, refl)
    | inr new' ↦ elim (Bool-cases (some_admin_role read.role)) [
      | inl rules ↦ rw (new', rules) (refl, refl)
      | inr plain ↦
          let u = set_role_if read.role (distinct_roles (read.role ++ seller ∷ [])) in
          let kept : find k (update i u w.credentials) ≡ row d k w =
            find-update i u w.credentials k ∙ (elim (Bool-cases (str_eq i k)) [
              | inr miss ↦ rw miss refl
              | inl hit ↦
                  let here' : find k w.credentials ≡ some now' =
                    ap (λ j. find j w.credentials) (sym (str_eq→eq i k hit)) ∙ here in
                  rw (hit, here') (rw stale refl)
            ]) in
          rw (new', plain, here, stale) (kept, refl)
    ]
  ]
