-- ===== src/Errors/Tests.antt =====
-- The error handlers at concrete errors.
use nexus_commerce.Base.{◌≡◌, refl, none, some, true}
use nexus_commerce.Errors.Handler.{app_error, plain_error, handle}
use nexus_commerce.Errors.Plain.{handle_plain}
use nexus_commerce.Errors.Privacy.{production, failure, sent, handle-private, handle-eq_plain}

handle-private_example :
    sent (handle (production none 5) (failure plain_error "Error" "password=x" (some "at f")))
    ≡ sent (handle (production none 5) (failure plain_error "Error" "nothing" none))
handle-private_example =
    handle-private none 5 plain_error "Error" "password=x" "nothing" (some "at f") none refl refl

handle-eq_plain_example :
    handle (production none 5) (failure (app_error 409 true none) "ConflictError" "taken" none)
    ≡ handle_plain
        (production none 5)
        (failure (app_error 409 true none) "ConflictError" "taken" none)
handle-eq_plain_example =
    handle-eq_plain (production none 5) (app_error 409 true none) "ConflictError" "taken" none tt
      refl
