-- ===== src/Auth/Credential/Memory.antt =====
-- Tables of credentials in memory, for tests.
use nexus_commerce.Base.{String, List, refl}
use nexus_commerce.Prisma.Memory.{memory, empty, insert_row}
use nexus_commerce.Auth.Tokens.{UserRole}
use nexus_commerce.Auth.Credential.{
  Credential, CredentialDb, apply_update, apply_update-id, apply_update-email, new_credential,
}

abbrev pub credential_db : CredentialDb
credential_db = memory apply_update (λ c. c.id) (λ c. c.email) apply_update-id apply_update-email

abbrev pub account : String → String → List UserRole → Credential
account id email roles = new_credential id email "right" roles

-- The table of one account.
abbrev pub only : Credential → credential_db.Table
only c =
    insert_row apply_update (λ c. c.id) (λ c. c.email) apply_update-id apply_update-email c
      (empty apply_update (λ c. c.id) (λ c. c.email) apply_update-id apply_update-email) refl refl
