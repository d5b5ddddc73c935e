-- ===== src/Users/Restoring.antt =====
-- A deleted account and its way back.
use nexus_commerce.Base.{
  ℕ, ◌+◌, ◌*◌, ◌≡◌, ◌≤◌, refl, sym, ap, ◌∙◌, Bool, true, false, Option, none, some, String, Result,
  ok, err-ok, str_eq, str_eq→eq, str_eq_self, ltb, if◌then◌else◌, Bool-cases, inl, inr, arith,
}
use mathlib.Core.Path.{subst}
use nexus_commerce.Errors.{Thrown}
use nexus_commerce.Cache.Read.{Caches, Faults}
use nexus_commerce.Users.{
  User, DeletedBy, UserDeps, World, apply_update, soft_delete, restore, find_user_by_id, looked_up,
  actor_of, delete_found, delete_user, grace_days, day_ms, restore_deleted, restore_found,
  restore_user,
}

module _ (d : UserDeps) where
  open d use {db, redis}

  looked_up-users :
      (w : World d) (p : Caches redis × Option User) → (looked_up d w p).0.users ≡ w.users
  looked_up-users w (caches, found) = refl

  deleted-users :
      (now : ℕ) (throws : Bool) (id actor : String) (p : World d × Option User)
      → (delete_found d now throws id actor p).1 ≡ ok tt
      → (delete_found d now throws id actor p).0.users
        ≡ db.update id (soft_delete now (actor_of d actor id)) p.0.users
  deleted-users now throws id actor (w, none) h = err-ok _ tt h
  deleted-users now throws id actor (w, some u) h = refl

  -- The days that an account can be restored for.
  abbrev pub window : String → String → ℕ
  window actor id = (if str_eq actor id then 30 else 60) * (24 * 60 * 60 * 1000)

  grace_days-actor :
      (actor id : String) → grace_days d (some (actor_of d actor id)) * day_ms d ≡ window actor id
  grace_days-actor actor id = elim (Bool-cases (str_eq actor id)) [
    | inl self ↦ rw self refl
    | inr other ↦ rw other refl
  ]

  abbrev IsIntact : User → Type 0
  IsIntact u =
      (u.is_active ≡ true) × (u.is_deleted ≡ false) × (u.deleted_at ≡ none) × (u.deleted_by ≡ none)

  -- The account, last updated at the time.
  abbrev pub renewed : ℕ → User → User
  renewed later u = record u { updated_at = later }

  restore-soft_delete :
      (now later : ℕ) (by : DeletedBy) (u : User)
      → IsIntact u
      → apply_update (restore later) (apply_update (soft_delete now by) u) ≡ renewed later u
  restore-soft_delete now later by u (active, kept, at, deleted_by) = λ k. record u {
    updated_at = later;
    is_active = sym active k;
    is_deleted = sym kept k;
    deleted_at = sym at k;
    deleted_by = sym deleted_by k;
  }

  -- The row of every id after the deletion and the restore.
  restored-row :
      (now later : ℕ) (by : DeletedBy) (id i : String) (u : User) (t : db.Table)
      → db.find id t ≡ some u
      → IsIntact u
      → db.find i (db.update id (restore later) (db.update id (soft_delete now by) t))
        ≡ (if str_eq id i then some (renewed later u) else db.find i t)
  restored-row now later by id i u t here intact =
      let first = db.find-update id (soft_delete now by) t i in
      let second = db.find-update id (restore later) (db.update id (soft_delete now by) t) i in
      elim (Bool-cases (str_eq id i)) [
        | inl hit ↦
            let here' : db.find i t ≡ some u =
              ap (λ j. db.find j t) (sym (str_eq→eq id i hit)) ∙ here in
            second
            ∙ (rw (hit, first)
                (rw (hit, here') (ap some (restore-soft_delete now later by u intact))))
        | inr miss ↦ second ∙ (rw (miss, first) (rw miss refl))
      ]

  restored-in_time :
      (later : ℕ) (throws : Bool) (id : String) (u : User) (at : ℕ) (w : World d)
      → later ≤ at + grace_days d u.deleted_by * day_ms d
      → ((restore_deleted d later throws id u (some at) w).1 ≡ ok (apply_update (restore later) u))
        × ((restore_deleted d later throws id u (some at) w).0.users
            ≡ db.update id (restore later) w.users)
  restored-in_time later throws id u at w soon =
      let early : ltb (at + grace_days d u.deleted_by * day_ms d) later ≡ false = ground arith in
      rw early (refl, refl)

  -- A restore takes a deletion back: an account that was active when it was deleted is as it was, but for
  -- the time of its last update, which is that of the restore, and every other account is as it was, if
  -- it is restored within 30 days of its own deletion or 60 days of an administrator's.
  pub restore_user-delete_user :
      (now later : ℕ) (f : Faults) (throws throws' : Bool) (id actor : String) (w : World d)
      (u : User)
      → db.find id w.users ≡ some u
      → (u.is_active ≡ true)
        × (u.is_deleted ≡ false)
        × (u.deleted_at ≡ none)
        × (u.deleted_by ≡ none)
      → (delete_user d now f throws id actor w).1 ≡ ok tt
      → later ≤ now + (if str_eq actor id then 30 else 60) * (24 * 60 * 60 * 1000)
      → let after = restore_user d later throws' id (delete_user d now f throws id actor w).0 in
        (after.1 ≡ ok (renewed later u))
        × ((i : String)
            → db.find i after.0.users
              ≡ (if str_eq id i then some (renewed later u) else db.find i w.users))
  unfolding delete_user restore_user find_user_by_id
  restore_user-delete_user now later f throws throws' id actor w u here intact deleted soon =
      let by = actor_of d actor id in
      let v = apply_update (soft_delete now by) u in
      let w1 = (delete_user d now f throws id actor w).0 in
      let looked = find_user_by_id d now f id w in
      let users : w1.users ≡ db.update id (soft_delete now by) w.users =
        deleted-users now throws id actor looked deleted in
      let self = str_eq_self id in
      let gone : db.find id w1.users ≡ some v =
        ap (db.find id) users
        ∙ db.find-update id (soft_delete now by) w.users id
        ∙ (rw (self, here) refl) in
      let in_time : later ≤ now + grace_days d (some by) * day_ms d =
        subst (λ n. later ≤ now + n) (sym (grace_days-actor actor id)) soon in
      let (answer, users') = restored-in_time later throws' id v now w1 in_time in
      let step = ap (λ (o : Option User). restore_found d later throws' id o w1) gone in
      (
        ap (λ (a : World d × Result Thrown User). a.1) step
            ∙ answer
            ∙ ap ok (restore-soft_delete now later by u intact),
        λ i.
            ap (λ (a : World d × Result Thrown User). db.find i a.0.users) step
            ∙ ap (db.find i) (users' ∙ ap (db.update id (restore later)) users)
            ∙ restored-row now later by id i u w.users here intact,
      )
