-- ===== src/Errors/Privacy.antt =====
-- What the error handlers tell a client, and where the two agree.
use nexus_commerce.Base.{
  ℕ, ◌≡◌, refl, true, false, none, some, ◌||◌, Option, String, str_eq, Bool-cases, inl, inr,
}
use nexus_commerce.Errors.Handler.{
  Kind, zod_error, prisma_known, prisma_validation, prisma_initialization, app_error, plain_error,
  Failure, Reply, Request, PrismaCode, unlisted, prisma_code, includes, is_redis_error,
  simplify_kind, respond, handle, PrismaMeta, known_error, ErrorResponse,
}
use nexus_commerce.Errors.Handler
use nexus_commerce.Errors.Plain.{handle_plain}

abbrev pub production : Option String → ℕ → Request
production request_id now = record { request_id = request_id; now = now; node_env = "production" }

-- The errors whose message the handler keeps to itself: of the errors of Prisma those with a code that it
-- lists, of the application errors those that are not operational, and all others but a file upload's.
abbrev pub IsInternal : Kind → String → Type 0
IsInternal (prisma_known code meta) name = ¬ (prisma_code code ≡ unlisted)
IsInternal (app_error status operational field) name = operational ≡ false
IsInternal plain_error name = str_eq name "MulterError" ≡ false
IsInternal _ name = Unit

abbrev pub failure : Kind → String → String → Option String → Failure
failure k name message stack = record { kind = k; name = name; message = message; stack = stack }

-- The status and the body that are sent.
abbrev pub sent : Reply → ℕ × ErrorResponse
sent r = (r.status, r.body)

known_error-message :
    (request_id : Option String) (now : ℕ) (c : PrismaCode) (code : String) (meta : PrismaMeta)
    (name m m' : String) (st st' : Option String)
    → ¬ (c ≡ unlisted)
    → sent (
        respond
          (production request_id now)
          (failure (prisma_known code meta) name m st)
          (known_error c code m meta))
      ≡ sent (
          respond
            (production request_id now)
            (failure (prisma_known code meta) name m' st')
            (known_error c code m' meta))
known_error-message request_id now Handler.unique_violation code meta name m m' st st' listed = refl
known_error-message request_id now Handler.not_found code meta name m m' st st' listed = refl
known_error-message request_id now Handler.foreign_key code meta name m m' st st' listed = refl
known_error-message request_id now Handler.null_violation code meta name m m' st st' listed = refl
known_error-message request_id now Handler.invalid_value code meta name m m' st st' listed = refl
known_error-message request_id now Handler.unreachable code meta name m m' st st' listed = refl
known_error-message request_id now Handler.timed_out code meta name m m' st st' listed = refl
known_error-message request_id now unlisted code meta name m m' st st' listed = absurd (listed refl)

-- In production, what a client is told of an error of the following kinds does not depend on the error's
-- message, except on whether the word Redis is in it, nor on its stack: validation errors (whose issues
-- are told, as they are meant to be), Prisma's errors with a code that the handler lists, those of a query
-- that is not valid and of the connection, application errors that are not operational, and any other
-- error but a file upload's. A Prisma error with a code that is not listed is not among them: its message
-- is sent.
pub handle-private :
    (request_id : Option String) (now : ℕ) (k : Kind) (name m m' : String) (st st' : Option String)
    → IsInternal k name
    → includes m "Redis" ≡ includes m' "Redis"
    → sent (handle (production request_id now) (failure k name m st))
      ≡ sent (handle (production request_id now) (failure k name m' st'))
unfolding handle
handle-private request_id now (zod_error issues) name m m' st st' internal same = refl
handle-private request_id now prisma_validation name m m' st st' internal same = refl
handle-private request_id now (prisma_initialization code) name m m' st st' internal same = refl
handle-private request_id now (prisma_known code meta) name m m' st st' internal same =
    known_error-message request_id now (prisma_code code) code meta name m m' st st' internal
handle-private request_id now (app_error status operational field) name m m' st st' internal same =
    elim (Bool-cases (str_eq name "RedisError" || includes m' "Redis")) [
      | inl yes' ↦ rw (same, yes') refl
      | inr no' ↦ rw (same, no', internal) refl
    ]
handle-private request_id now plain_error name m m' st st' internal same =
    elim (Bool-cases (str_eq name "RedisError" || includes m' "Redis")) [
      | inl yes' ↦ rw (same, yes') refl
      | inr no' ↦ elim (Bool-cases (str_eq name "JsonWebTokenError")) [
        | inl jwt ↦ rw (same, no', jwt) refl
        | inr other ↦ elim (Bool-cases (str_eq name "TokenExpiredError")) [
          | inl late ↦ rw (same, no', other, late) refl
          | inr other' ↦ rw (same, no', other, other', internal) refl
        ]
      ]
    ]

-- The errors that both services treat by their class alone.
abbrev pub IsShared : Kind → String → Type 0
IsShared (app_error status operational field) name = Unit
IsShared plain_error name =
    (str_eq name "JsonWebTokenError" ≡ false)
    × (str_eq name "TokenExpiredError" ≡ false)
    × (str_eq name "MulterError" ≡ false)
IsShared _ name = ⊥

-- The handlers of the user-service and of the notification-service, which are files of their own, give the
-- same reply, in status, body and log, to an application error or a plain one, in any environment, if
-- neither its name nor its message speaks of Redis and it is none of the errors of tokens and uploads.
pub handle-eq_plain :
    (q : Request) (k : Kind) (name message : String) (stack : Option String)
    → IsShared k name
    → is_redis_error (failure k name message stack) ≡ false
    → handle q (failure k name message stack) ≡ handle_plain q (failure k name message stack)
unfolding handle handle_plain
handle-eq_plain q (app_error status true none) name message stack shared far = rw far refl
handle-eq_plain q (app_error status true (some field)) name message stack shared far = rw far refl
handle-eq_plain q (app_error status false none) name message stack shared far = rw far refl
handle-eq_plain q (app_error status false (some field)) name message stack shared far = rw far refl
handle-eq_plain q plain_error name message stack (jwt, late, upload) far =
    rw (far, jwt, late, upload) refl
handle-eq_plain q (zod_error issues) name message stack shared far = absurd shared
handle-eq_plain q prisma_validation name message stack shared far = absurd shared
handle-eq_plain q (prisma_initialization code) name message stack shared far = absurd shared
handle-eq_plain q (prisma_known code meta) name message stack shared far = absurd shared
