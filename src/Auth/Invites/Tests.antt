-- ===== src/Auth/Invites/Tests.antt =====
-- An invite at concrete tables.
use nexus_commerce.Base.{◌≡◌, refl, true, false, none, some, [], ◌∷◌, ok, err, arith}
use nexus_commerce.Prisma.Memory.{memory, empty, insert_row}
use nexus_commerce.Errors.{app, internal_server_error}
use nexus_commerce.Auth.Tokens.{admin}
use nexus_commerce.Auth.Credential.{
  Credential, apply_update as apply_credential_update, apply_update-id as same_id,
  apply_update-email as same_email, new_credential,
}
use nexus_commerce.Auth.Credential.Memory.{credential_db}
use nexus_commerce.Auth.Invites.{
  AdminInvite, pending, InviteDb, InviteDeps, apply_update, World, check_invite, check_found,
  check_row, consume_for, consume_invite, settle, accept_invite,
}
use nexus_commerce.Auth.Invites.SingleUse.{
  apply_update-id, apply_update-token_hash, IsConsumedBy, validate, check, act_all,
  consume_invite-once,
}
use nexus_commerce.Auth.Invites.Acceptance.{
  IsAcceptable, SameRows, accept_invite-ok, accept_invite-rolled_back,
}

abbrev invite_db : InviteDb
invite_db =
    memory apply_update (λ i. i.id) (λ i. i.token_hash) apply_update-id apply_update-token_hash

abbrev deps : InviteDeps
deps = record {
  db = credential_db;
  invites = invite_db;
  hash_token = λ t. t;
  hash_password = λ p. p;
  link = λ t. t;
}

abbrev invite : AdminInvite
invite = record {
  id = "i1";
  email = "eve@example.com";
  token_hash = "t";
  status = pending;
  invited_by_id = "c0";
  expires_at = 1000;
  consumed_at = none;
  consumed_by_id = none;
}

abbrev world : World deps
world = record {
  credentials = empty apply_credential_update (λ c. c.id) (λ c. c.email) same_id same_email;
  invite_rows =
      insert_row apply_update (λ i. i.id) (λ i. i.token_hash) apply_update-id
        apply_update-token_hash invite
        (empty apply_update (λ i. i.id) (λ i. i.token_hash) apply_update-id apply_update-token_hash)
        refl refl;
  audit = [];
  outbox = [];
}

abbrev eve : Credential
eve = new_credential "c1" "eve@example.com" "secret" (admin ∷ [])

accepted : (accept_invite deps 10 "t" "c1" "secret" true world).1 ≡ ok eve
unfolding accept_invite check_invite check_found check_row consume_invite consume_for settle
accepted = refl

consumed_first : (consume_invite deps 10 "c1" "secret" invite world).1 ≡ ok eve
unfolding consume_invite consume_for
consumed_first = refl

accept_invite-ok_example :
    let after = (accept_invite deps 10 "t" "c1" "secret" true world).0 in
    (v : AdminInvite) × IsAcceptable deps 10 "t" world v
    × (true ≡ true)
    × (eve ≡ new_credential "c1" v.email "secret" (admin ∷ []))
    × (credential_db.find "c1" after.credentials ≡ some eve)
    × IsConsumedBy "c1" (invite_db.find v.id after.invite_rows)
accept_invite-ok_example = accept_invite-ok deps 10 "t" "c1" "secret" true world eve accepted

accept_invite-rolled_back_example :
    let after = accept_invite deps 10 "t" "c1" "secret" false world in
    (after.1 ≡ err (app (internal_server_error "Admin account setup failed. Please try again.")))
    × SameRows deps after.0 world
accept_invite-rolled_back_example =
    accept_invite-rolled_back deps 10 "t" "c1" "secret" world invite (refl, refl, omega arith, refl)
      refl refl refl

consume_invite-once_example : ¬ (
    (consume_invite deps 12 "c2" "other" invite (
      act_all deps
        (check 11 "t" ∷ validate 11 "t" ∷ [])
        (consume_invite deps 10 "c1" "secret" invite world).0)).1
    ≡ ok eve)
consume_invite-once_example =
    consume_invite-once deps 10 "c1" "secret" invite eve world consumed_first
      (check 11 "t" ∷ validate 11 "t" ∷ []) (tt, (tt, tt)) 12 "c2" "other" invite eve refl
