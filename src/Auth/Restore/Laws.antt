-- ===== src/Auth/Restore/Laws.antt =====
-- What the code of a restore opens, and how many guesses it allows.
use nexus_commerce.Base.{
  ℕ, ◌+◌, ◌-◌, ◌*◌, ◌≡◌, ◌≤◌, ◌<◌, refl, ap, ◌∙◌, Bool, true, false, Option, none, some, String,
  List, [], ◌∷◌, ok, err-ok, str_eq, str_eq→eq, str_eq_self, leb, lt→leb, Bool-cases, inl, inr,
  arith, All, ◌⊎◌, some-inj, none-ne-some,
}
use nexus_commerce.Redis.{live}
use nexus_commerce.Errors.{Thrown}
use nexus_commerce.Auth.Account.{grace_ms}
use nexus_commerce.Auth.Credential.{Credential}
use nexus_commerce.Auth.Restore.{
  restore_key, RestoreDeps, World, restore_ttl_seconds, is_past_grace, request_for,
  request_account_restore, compare_code, restored, verify_deleted, verify_for,
  verify_account_restore,
}

module _ (d : RestoreDeps) where
  open d use {db, redis, hmac, bytes}
  open redis use {Store, get, set, del, entry, get-eq-live, entry-set, entry-del}

  -- Guesses of the code for an account, each with its time.
  pub guess_all : String → List (ℕ × String) → World d → World d
  guess_all email [] w = w
  guess_all email ((now, otp) ∷ gs) w =
      guess_all email gs (verify_account_restore d now email otp none w).0

  compare-wrong :
      (otp code : String) (c : Credential) (stored : Option String) (w : World d)
      → (stored ≡ none) ⊎ (stored ≡ some (hmac code))
      → str_eq (bytes (hmac otp)) (bytes (hmac code)) ≡ false
      → (compare_code d otp c none stored w).0 ≡ w
  unfolding compare_code
  compare-wrong otp code c none w held wrong = refl
  compare-wrong otp code c (some stored) w (inl gone) wrong =
      none-ne-some stored _ (some stored) gone refl
  compare-wrong otp code c (some stored) w (inr same) wrong =
      let miss : str_eq (bytes (hmac otp)) (bytes stored) ≡ false =
        ap (λ x. str_eq (bytes (hmac otp)) (bytes x)) (some-inj stored (hmac code) same) ∙ wrong in
      elim (Bool-cases (str_eq stored "")) [
        | inl empty ↦ rw empty refl
        | inr full ↦ rw (full, miss) refl
      ]

  -- The code of the account at every time: the one that was sent, or expired.
  abbrev Holds : String → Credential → World d → Type 0
  Holds code c w =
      (now : ℕ)
      → (get now (restore_key c.id) w.codes ≡ none)
        ⊎ (get now (restore_key c.id) w.codes ≡ some (hmac code))

  verify-wrong :
      (now : ℕ) (email otp code : String) (c : Credential) (w : World d)
      → db.find_by email w.credentials ≡ some c
      → Holds code c w
      → str_eq (bytes (hmac otp)) (bytes (hmac code)) ≡ false
      → (verify_account_restore d now email otp none w).0 ≡ w
  unfolding verify_account_restore verify_for verify_deleted
  verify-wrong now email otp code c w found held wrong =
      ap (λ o. (verify_for d now otp none o w).0) found
      ∙ elim c.is_deleted as (λ b. (verify_deleted d now otp none c b w).0 ≡ w) [
        | true ↦ compare-wrong otp code c (get now (restore_key c.id) w.codes) w (held now) wrong
        | false ↦ refl
      ]

  guess_all-wrong :
      (email code : String) (c : Credential) (gs : List (ℕ × String)) (w : World d)
      → db.find_by email w.credentials ≡ some c
      → Holds code c w
      → All (λ g. str_eq (bytes (hmac g.1)) (bytes (hmac code)) ≡ false) gs
      → guess_all email gs w ≡ w
  unfolding guess_all
  guess_all-wrong email code c [] w found held wrong = refl
  guess_all-wrong email code c ((now, otp) ∷ gs) w found held wrong =
      ap (guess_all email gs) (verify-wrong now email otp code c w found held wrong.0)
      ∙ guess_all-wrong email code c gs w found held wrong.1

  requested-codes :
      (now t : ℕ) (email code : String) (c : Credential) (w : World d)
      → db.find_by email w.credentials ≡ some c
      → c.is_deleted ≡ true
      → c.deleted_at ≡ some t
      → now - t ≤ grace_ms
      → let after = request_account_restore d now email code w in
        (after.codes ≡ set now (restore_key c.id) (hmac code) restore_ttl_seconds w.codes)
        × (after.credentials ≡ w.credentials)
  unfolding request_account_restore request_for
  requested-codes now t email code c w found gone at recent =
      let kept : is_past_grace now c.deleted_at ≡ false =
        ap (is_past_grace now) at ∙ (ground arith) in
      rw (found, gone, kept) (refl, refl)

  set_live :
      (now later : ℕ) (id v : String) (s : Store)
      → get later (restore_key id) (set now (restore_key id) v restore_ttl_seconds s)
        ≡ live later (some (v, now + restore_ttl_seconds * 1000))
  set_live now later id v s =
      let stored : entry (restore_key id) (set now (restore_key id) v restore_ttl_seconds s)
          ≡ some (v, now + restore_ttl_seconds * 1000) =
        entry-set now (restore_key id) v restore_ttl_seconds s (restore_key id)
        ∙ (let self = str_eq_self id in rw self refl) in
      get-eq-live later (restore_key id) (set now (restore_key id) v restore_ttl_seconds s)
      ∙ ap (live later) stored

  set-Holds :
      (now : ℕ) (code : String) (c : Credential) (w w' : World d)
      → w'.codes ≡ set now (restore_key c.id) (hmac code) restore_ttl_seconds w.codes
      → Holds code c w'
  set-Holds now code c w w' same later =
      let held =
        ap (get later (restore_key c.id)) same ∙ set_live now later c.id (hmac code) w.codes in
      elim (Bool-cases (leb (now + restore_ttl_seconds * 1000) later)) [
        | inl over ↦ inl (held ∙ (rw over refl))
        | inr early ↦ inr (held ∙ (rw early refl))
      ]

  compare-right :
      (code : String) (c : Credential) (w : World d)
      → str_eq (hmac code) "" ≡ false
      → (compare_code d code c none (some (hmac code)) w).1 ≡ ok tt
  unfolding compare_code
  compare-right code c w full = let self = str_eq_self (bytes (hmac code)) in rw (full, self) refl

  -- A deleted account can be restored with the code of a request for ten minutes, if the request came
  -- within 30 days of the deletion and the call of the user-service for the restore does not throw; and
  -- however many wrong codes are tried in between, one after another, they leave the accounts, the codes
  -- and the events as they are.
  pub request_account_restore-opens :
      (now t later : ℕ) (email code : String) (c : Credential) (gs : List (ℕ × String))
      (w : World d)
      → db.find_by email w.credentials ≡ some c
      → c.is_deleted ≡ true
      → c.deleted_at ≡ some t
      → now - t ≤ 30 * 24 * 60 * 60 * 1000
      → str_eq (hmac code) "" ≡ false
      → All (λ g. str_eq (bytes (hmac g.1)) (bytes (hmac code)) ≡ false) gs
      → later < now + 10 * 60 * 1000
      → let w1 = request_account_restore d now email code w in
        (guess_all email gs w1 ≡ w1)
        × ((verify_account_restore d later email code none (guess_all email gs w1)).1 ≡ ok tt)
  unfolding verify_account_restore verify_for verify_deleted
  request_account_restore-opens now t later email code c gs w found gone at recent full wrong soon =
      let w1 = request_account_restore d now email code w in
      let (codes, same) = requested-codes now t email code c w found gone at recent in
      let found1 : db.find_by email w1.credentials ≡ some c = ap (db.find_by email) same ∙ found in
      let kept =
        guess_all-wrong email code c gs w1 found1 (set-Holds now code c w w1 codes) wrong in
      let in_time : leb (now + restore_ttl_seconds * 1000) later ≡ false =
        lt→leb (now + restore_ttl_seconds * 1000) later (omega arith) in
      let stored : get later (restore_key c.id) w1.codes ≡ some (hmac code) =
        ap (get later (restore_key c.id)) codes
        ∙ set_live now later c.id (hmac code) w.codes
        ∙ (rw in_time refl) in
      (
        kept,
        ap (λ (w' : World d). (verify_account_restore d later email code none w').1) kept
            ∙ ap (λ o. (verify_for d later code none o w1).1) found1
            ∙ ap (λ b. (verify_deleted d later code none c b w1).1) gone
            ∙ ap (λ o. (compare_code d code c none o w1).1) stored
            ∙ compare-right code c w1 full,
      )

  restored-ok :
      (failure : Option Thrown) (w : World d)
      → (restored d failure w).1 ≡ ok tt
      → (restored d failure w).0 ≡ w
  restored-ok none w h = refl
  restored-ok (some e) w h = err-ok e tt h

  compare-ok :
      (otp : String) (c : Credential) (failure : Option Thrown) (o : Option String) (w : World d)
      → (compare_code d otp c failure o w).1 ≡ ok tt
      → (stored : String) × (o ≡ some stored)
        × (bytes (hmac otp) ≡ bytes stored)
        × ((compare_code d otp c failure o w).0.codes ≡ del (restore_key c.id) w.codes)
  unfolding compare_code
  compare-ok otp c failure none w h = err-ok _ tt h
  compare-ok otp c failure (some stored) w h = elim (Bool-cases (str_eq stored "")) [
    | inl empty ↦ err-ok _ tt (rw empty at h)
    | inr full ↦ elim (Bool-cases (str_eq (bytes (hmac otp)) (bytes stored))) [
      | inr miss ↦ err-ok _ tt (rw (full, miss) at h)
      | inl hit ↦
          let w1 = record w { codes = del (restore_key c.id) w.codes } in
          (
            stored,
            refl,
            str_eq→eq (bytes (hmac otp)) (bytes stored) hit,
            rw (full, hit)
                (ap (λ (w' : World d). w'.codes) (restored-ok failure w1 (rw (full, hit) at h))),
          )
    ]
  ]

  deleted_code :
      (id : String) (later : ℕ) (s : Store)
      → get later (restore_key id) (del (restore_key id) s) ≡ none
  deleted_code id later s =
      let gone : entry (restore_key id) (del (restore_key id) s) ≡ none =
        entry-del (restore_key id) s (restore_key id)
        ∙ (let self = str_eq_self id in rw self refl) in
      get-eq-live later (restore_key id) (del (restore_key id) s) ∙ ap (live later) gone

  verify_deleted-ok :
      (now : ℕ) (otp : String) (failure : Option Thrown) (c : Credential) (b : Bool) (w : World d)
      → (verify_deleted d now otp failure c b w).1 ≡ ok tt
      → (b ≡ true)
        × ((stored : String) × (get now (restore_key c.id) w.codes ≡ some stored)
            × (bytes (hmac otp) ≡ bytes stored)
            × ((verify_deleted d now otp failure c b w).0.codes ≡ del (restore_key c.id) w.codes))
  unfolding verify_deleted
  verify_deleted-ok now otp failure c false w h = err-ok _ tt h
  verify_deleted-ok now otp failure c true w h =
      (refl, compare-ok otp c failure (get now (restore_key c.id) w.codes) w h)

  verify_for-ok :
      (now : ℕ) (otp : String) (failure : Option Thrown) (o : Option Credential) (w : World d)
      → (verify_for d now otp failure o w).1 ≡ ok tt
      → (c : Credential) × (stored : String) × (o ≡ some c)
        × (c.is_deleted ≡ true)
        × (get now (restore_key c.id) w.codes ≡ some stored)
        × (bytes (hmac otp) ≡ bytes stored)
        × ((later : ℕ)
            → get later (restore_key c.id) (verify_for d now otp failure o w).0.codes ≡ none)
  unfolding verify_for
  verify_for-ok now otp failure none w h = err-ok _ tt h
  verify_for-ok now otp failure (some c) w h =
      let (gone, (stored, held, same, codes)) =
        verify_deleted-ok now otp failure c c.is_deleted w h in
      (
        c,
        stored,
        refl,
        gone,
        held,
        same,
        λ later. ap (get later (restore_key c.id)) codes ∙ deleted_code c.id later w.codes,
      )

  -- A restore that succeeds was of a deleted account and gave its live code, which is gone after it.
  pub verify_account_restore-ok :
      (now : ℕ) (email otp : String) (failure : Option Thrown) (w : World d)
      → (verify_account_restore d now email otp failure w).1 ≡ ok tt
      → (c : Credential) × (stored : String) × (db.find_by email w.credentials ≡ some c)
        × (c.is_deleted ≡ true)
        × (get now (restore_key c.id) w.codes ≡ some stored)
        × (bytes (hmac otp) ≡ bytes stored)
        × ((later : ℕ)
            → get later
                (restore_key c.id)
                (verify_account_restore d now email otp failure w).0.codes
              ≡ none)
  unfolding verify_account_restore
  verify_account_restore-ok now email otp failure w h =
      verify_for-ok now otp failure (db.find_by email w.credentials) w h
