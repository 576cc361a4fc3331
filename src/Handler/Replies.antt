-- ===== src/Handler/Replies.antt =====
-- The bodies of the replies are C strings: no zero byte is in them.
use pronto.Prelude.{
  ℕ, zero, suc, ◌-◌, ◌/◌, ◌^◌, refl, Bool, true, false, Option, none, some, ◌++◌, ltb, arith,
  Bool-cases, inl, inr, if◌then◌else◌,
}
use pronto.Word.{u32}
use pronto.Bytes.{Bytes, codes, digits, decimal, print_int}
use pronto.Cluster.{Pronto, is_schedulable, free_capacity}
use pronto.Request.{HttpRequest, same}
use pronto.Response.Buffer.{IsText}
use pronto.Response.Create.{All-append, nonzero-IsText}
use pronto.Handler
use pronto.Handler.{
  Reply, bad_request, method_not_allowed, path_not_found, missing, too_big, scheduled, freed_from,
  has_body, item, schedule_qty, job_done_items, job_done_freed, build_response, served,
}
use pronto.Handler.Routes.{build_response_lem}

digits-IsText : (f n : ℕ) → IsText (digits f n)
unfolding digits
digits-IsText zero n = tt
digits-IsText (suc f) n = elim (Bool-cases (ltb n 10)) [
  | inl e ↦ rw (e) ((λ z. omega arith), tt)
  | inr e ↦ rw (e) (All-append _ _ (digits-IsText f (n / 10)) ((λ z. omega arith), tt))
]

decimal-IsText : (n : ℕ) → IsText (decimal n)
unfolding decimal
decimal-IsText n = digits-IsText (suc n) n

print_int-IsText : (n : ℕ) → IsText (print_int n)
unfolding print_int
print_int-IsText n = elim (Bool-cases (ltb n (2 ^ 31))) [
  | inl e ↦ rw (e) (decimal-IsText n)
  | inr e ↦ rw (e) ((λ z. omega (arith, z)), decimal-IsText (2 ^ 32 - n))
]

All-between : (x y z : Bytes) → IsText x → IsText y → IsText z → IsText ((x ++ y) ++ z)
All-between x y z h k l = All-append (x ++ y) z (All-append x y h k) l

pub scheduled-IsText : (qty : ℕ) → IsText (scheduled qty).body
scheduled-IsText qty =
    let opening = codes "{\"success\": true, \"message\": \"" in
    let closing = codes "\"}" in
    All-between opening (print_int qty) closing (nonzero-IsText opening refl) (print_int-IsText qty)
      (nonzero-IsText closing refl)

pub freed_from-IsText : (qty worker : ℕ) → IsText (freed_from qty worker).body
freed_from-IsText qty worker =
    let opening = codes "{\"success\": true, \"message\": \"freed " in
    let from = codes " from worker " in
    let closing = codes "\"}" in
    All-between ((opening ++ print_int qty) ++ from) (print_int worker) closing
      (All-between opening (print_int qty) from (nonzero-IsText opening refl) (print_int-IsText qty)
        (nonzero-IsText from refl))
      (print_int-IsText worker) (nonzero-IsText closing refl)

-- The reply, if there is one, has such a body.
abbrev pub IsSpoken : Option (Pronto × Reply) → Type 0
IsSpoken none = Unit
IsSpoken (some (p, reply)) = IsText reply.body

if-IsSpoken :
    (b : Bool) (x y : Option (Pronto × Reply))
    → IsSpoken x
    → IsSpoken y
    → IsSpoken (if b then x else y)
if-IsSpoken true x y h k = h
if-IsSpoken false x y h k = k

module _ {ℓ} {Json : Type ℓ} (valueint : Json → Bytes → Option ℕ) where
  schedule_qty-IsSpoken : (p : Pronto) (o : Option ℕ) → IsSpoken (some (schedule_qty valueint p o))
  schedule_qty-IsSpoken p none = nonzero-IsText (missing (codes "qty")).body refl
  schedule_qty-IsSpoken p (some v) = elim (Bool-cases (is_schedulable p (u32 v))) [
    | inl e ↦ rw (e) (scheduled-IsText (u32 v))
    | inr e ↦ rw (e) (nonzero-IsText too_big.body refl)
  ]

  schedule-IsSpoken :
      (p : Pronto) (req : HttpRequest Json) → IsSpoken (Handler.schedule valueint p req)
  unfolding Handler.schedule
  schedule-IsSpoken p req = elim (Bool-cases (has_body req)) [
    | inl e ↦ rw (e) (schedule_qty-IsSpoken p (item valueint req (codes "qty")))
    | inr e ↦ rw (e) (nonzero-IsText bad_request.body refl)
  ]

  job_done_freed-IsSpoken :
      (qty worker : ℕ) (o : Option Pronto) → IsSpoken (job_done_freed valueint qty worker o)
  job_done_freed-IsSpoken qty worker none = tt
  job_done_freed-IsSpoken qty worker (some p) = freed_from-IsText qty worker

  job_done_items-IsSpoken : (p : Pronto) (q w : Option ℕ) → IsSpoken (job_done_items valueint p q w)
  job_done_items-IsSpoken p none w = nonzero-IsText (missing (codes "qty")).body refl
  job_done_items-IsSpoken p (some q) none = nonzero-IsText (missing (codes "worker")).body refl
  job_done_items-IsSpoken p (some q) (some w) =
      job_done_freed-IsSpoken (u32 q) (u32 w) (free_capacity p (u32 w) (u32 q))

  job_done-IsSpoken :
      (p : Pronto) (req : HttpRequest Json) → IsSpoken (Handler.job_done valueint p req)
  unfolding Handler.job_done
  job_done-IsSpoken p req =
      if-IsSpoken (has_body req) _ _ (job_done_items-IsSpoken p _ _)
        (nonzero-IsText bad_request.body refl)

  pub build_response-IsSpoken :
      (p : Pronto) (req : HttpRequest Json) (bad : Bool)
      → IsSpoken (build_response valueint (served valueint) p req bad)
  build_response-IsSpoken p req bad = rw (build_response_lem valueint p req bad) (
      if-IsSpoken bad _ _ (nonzero-IsText bad_request.body refl) (
        if-IsSpoken (same (codes "/schedule") req.path) _ _
          (if-IsSpoken (same (codes "POST") req.method) _ _ (schedule-IsSpoken p req)
            (nonzero-IsText method_not_allowed.body refl))
          (if-IsSpoken (same (codes "/done") req.path) _ _
            (if-IsSpoken (same (codes "POST") req.method) _ _ (job_done-IsSpoken p req)
              (nonzero-IsText method_not_allowed.body refl))
            (nonzero-IsText path_not_found.body refl))))
