-- ===== src/Notification/RateLimiter/Tests.antt =====
-- The limiter on concrete calls.
use nexus_commerce.Base.{ℕ, ◌+◌, ◌≡◌, ◌≤◌, refl, true, false, some, List, [], ◌∷◌, arith}
use nexus_commerce.Notification.RateLimiter.{Options, Bucket, new, check}
use nexus_commerce.Notification.RateLimiter.ListSet.{list_set}
use nexus_commerce.Notification.RateLimiter.Window.{within, check_all, check_all-within_limit, Call}
use nexus_commerce.Notification.RateLimiter.RetryAfter.{IsSettled}

abbrev two_per_second : Options
two_per_second = record { limit = 2; window_ms = 1000 }

abbrev calls : List Call
calls = (5000, "a") ∷ (5100, "b") ∷ (5200, "c") ∷ (6000, "d") ∷ []

third_waits :
    (check_all list_set two_per_second calls (new list_set) []).1 ≡ 6000 ∷ 5100 ∷ 5000 ∷ []
unfolding check_all check
third_waits = refl

check_all-within_limit_example :
    within 4500 (4500 + 1000) (check_all list_set two_per_second calls (new list_set) []).1 ≤ 2
check_all-within_limit_example =
    check_all-within_limit list_set two_per_second calls (omega arith)
      ((refl, (refl, (refl, tt))), ((refl, (refl, tt)), ((refl, tt), (tt, tt)))) 4500

abbrev full : Bucket list_set
full = record {
  set = ((5000, "a") ∷ (5100, "b") ∷ [], ((omega arith, tt), (tt, tt)));
  expires_at = some 7100;
}

full-IsSettled : IsSettled list_set two_per_second 5200 full
full-IsSettled = record {
  past = (omega arith, (omega arith, tt));
  outlives = λ t e. let at : ◌≡◌ {A = ℕ} 7100 t = cc in (omega arith, (omega arith, tt));
  at_most = omega arith;
}

full_refuses : (check list_set two_per_second true 5200 "c" full).1.allowed ≡ false
unfolding check
full_refuses = refl

-- The wait that the refusal at 5200 names.
full_waits : (check list_set two_per_second true 5200 "c" full).1.retry_after_ms ≡ 800
unfolding check
full_waits = refl
