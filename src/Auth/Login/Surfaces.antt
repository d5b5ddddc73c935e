-- ===== src/Auth/Login/Surfaces.antt =====
-- The three sign-in pages side by side: the surface, the role that it asks for and the role of its
-- sessions, and when an account may sign in.
use nexus_commerce.Base.{
  ℕ, ◌≡◌, ◌≤◌, ◌⊎◌, ◌||◌, refl, ap, ◌∙◌, true, false, Option, none, some, String, List, [], ◌∷◌,
  Bool-cases, inl, inr, arith, Any,
}
use nexus_commerce.Auth.Tokens.{UserRole, customer, seller, admin, super_admin}
use nexus_commerce.Auth.Credential.{Credential, has_role, same_role}
use nexus_commerce.Auth.Lockout.{later_than}
use nexus_commerce.Auth.Account.{refusal, some_admin_role, is_admin_role, admin_active_role}

pub data Surface : Type 0 where
  customer_web seller_web admin_web : Surface

abbrev pub surface_name : Surface → String
surface_name customer_web = "customer-web"
surface_name seller_web = "seller-web"
surface_name admin_web = "admin-web"

-- The account has a role that the surface serves.
abbrev pub IsServed : Surface → List UserRole → Type 0
IsServed customer_web roles = Any (λ r. r ≡ customer) roles
IsServed seller_web roles = Any (λ r. r ≡ seller) roles
IsServed admin_web roles = Any (λ r. (r ≡ admin) ⊎ (r ≡ super_admin)) roles

-- The account is neither deleted, blocked nor deactivated, and its lock is over.
abbrev pub IsOpen : ℕ → Credential → Type 0
IsOpen now c =
    (c.is_deleted ≡ false)
    × (c.is_blocked ≡ false)
    × (c.is_active ≡ true)
    × ((t : ℕ) → c.locked_until ≡ some t → t ≤ now)

same_role→eq : (q r : UserRole) → same_role q r ≡ true → q ≡ r
same_role→eq customer customer h = refl
same_role→eq customer seller h = cc
same_role→eq customer admin h = cc
same_role→eq customer super_admin h = cc
same_role→eq seller customer h = cc
same_role→eq seller seller h = refl
same_role→eq seller admin h = cc
same_role→eq seller super_admin h = cc
same_role→eq admin customer h = cc
same_role→eq admin seller h = cc
same_role→eq admin admin h = refl
same_role→eq admin super_admin h = cc
same_role→eq super_admin customer h = cc
same_role→eq super_admin seller h = cc
same_role→eq super_admin admin h = cc
same_role→eq super_admin super_admin h = refl

same_role_self : (r : UserRole) → same_role r r ≡ true
same_role_self customer = refl
same_role_self seller = refl
same_role_self admin = refl
same_role_self super_admin = refl

pub has_role→Any :
    (r : UserRole) (roles : List UserRole) → has_role r roles ≡ true → Any (λ q. q ≡ r) roles
has_role→Any r [] h = cc
has_role→Any r (q ∷ qs) h = elim (Bool-cases (same_role q r)) [
  | inl yes' ↦ inl (same_role→eq q r yes')
  | inr no' ↦ inr (has_role→Any r qs (rw no' at h))
]

pub Any→has_role :
    (r : UserRole) (roles : List UserRole) → Any (λ q. q ≡ r) roles → has_role r roles ≡ true
Any→has_role r [] h = absurd h
Any→has_role r (q ∷ qs) (inl here) =
    let self : same_role q r ≡ true = ap (λ s. same_role s r) here ∙ same_role_self r in
    rw self refl
Any→has_role r (q ∷ qs) (inr there) = elim (Bool-cases (same_role q r)) [
  | inl yes' ↦ rw yes' refl
  | inr no' ↦ rw no' (Any→has_role r qs there)
]

later_than-false :
    (now : ℕ) (o : Option ℕ) → ((t : ℕ) → o ≡ some t → t ≤ now) → later_than now o ≡ false
later_than-false now none h = refl
later_than-false now (some t) h = let le = h t refl in ground arith

module _ (locked_text : ℕ → String) (blocked_text : Option ℕ → String) where
  pub refusal-none :
      (now : ℕ) (c : Credential) → IsOpen now c → refusal locked_text blocked_text now c ≡ none
  refusal-none now c (kept, free, active, over) =
      let unlocked = later_than-false now c.locked_until over in ground arith

  pub refusal-IsOpen :
      (now : ℕ) (c : Credential) → refusal locked_text blocked_text now c ≡ none → IsOpen now c
  refusal-IsOpen now c h = (ground arith, ground arith, ground arith, λ t e. ground arith)

pub some_admin_role→Any :
    (roles : List UserRole)
    → some_admin_role roles ≡ true
    → Any (λ r. (r ≡ admin) ⊎ (r ≡ super_admin)) roles
some_admin_role→Any [] h = cc
some_admin_role→Any (customer ∷ rs) h = inr (some_admin_role→Any rs h)
some_admin_role→Any (seller ∷ rs) h = inr (some_admin_role→Any rs h)
some_admin_role→Any (admin ∷ rs) h = inl (inl refl)
some_admin_role→Any (super_admin ∷ rs) h = inl (inr refl)

pub Any→some_admin_role :
    (roles : List UserRole)
    → Any (λ r. (r ≡ admin) ⊎ (r ≡ super_admin)) roles
    → some_admin_role roles ≡ true
Any→some_admin_role [] h = absurd h
Any→some_admin_role (q ∷ rs) (inl (inl here)) = ap (λ r. is_admin_role r || some_admin_role rs) here
Any→some_admin_role (q ∷ rs) (inl (inr here)) = ap (λ r. is_admin_role r || some_admin_role rs) here
Any→some_admin_role (customer ∷ rs) (inr there) = Any→some_admin_role rs there
Any→some_admin_role (seller ∷ rs) (inr there) = Any→some_admin_role rs there
Any→some_admin_role (admin ∷ rs) (inr there) = refl
Any→some_admin_role (super_admin ∷ rs) (inr there) = refl

-- The role that a session of the surface acts in.
abbrev pub session_role : Surface → List UserRole → UserRole
session_role customer_web roles = customer
session_role seller_web roles = seller
session_role admin_web roles = admin_active_role roles
