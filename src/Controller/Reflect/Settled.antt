-- ===== src/Controller/Reflect/Settled.antt =====
-- What the status reflects, and that reflecting it again changes nothing.
use koku_metrics_operator.Base.{
  ℕ, ◌≤◌, ◌≡◌, refl, String, str_eq, eq_iff, false, Option, none, some, if◌then◌else◌, arith,
  Bool-cases, inl, inr,
}
use koku_metrics_operator.Controller.Reflect.{
  string_reflect_spec, Spec, Status, upload_wait, least_cycle, api_url_spec, reflect_spec,
  default_api_url, old_default_api_url,
}

-- The status item is the item of the specification, or the default without one, whatever the status
-- item was before.
pub string_reflect_spec-value :
    (spec_item status_item default_val : String)
    → (string_reflect_spec spec_item status_item default_val).0
      ≡ (if str_eq spec_item "" then default_val else spec_item)
unfolding string_reflect_spec
string_reflect_spec-value s t d = ground (arith, eq_iff s t, eq_iff s "", eq_iff t "", eq_iff d "")

upload_wait-again :
    (random again : ℕ) (s t : Option ℕ)
    → upload_wait again s (upload_wait random s t) ≡ upload_wait random s t
unfolding upload_wait
upload_wait-again random again (some w) t = refl
upload_wait-again random again none (some w) = refl
upload_wait-again random again none none = refl

least_cycle-again : (cycle : ℕ) → least_cycle (least_cycle cycle) ≡ least_cycle cycle
unfolding least_cycle
least_cycle-again cycle = ground arith

-- Reflecting the specification a second time changes neither the specification nor the status,
-- whatever random number the second time has.
pub reflect_spec-idempotent :
    (random again : ℕ) (spec : Spec) (status : Status)
    → (let once = reflect_spec random spec status in reflect_spec again once.0 once.1 ≡ once)
unfolding reflect_spec
reflect_spec-idempotent random again spec status =
    simp
      (
        string_reflect_spec-value,
        upload_wait-again random again spec.upload_wait status.upload_wait,
        least_cycle-again spec.upload_cycle,
      )
      refl

api_url-not_old :
    (url : String)
    → str_eq
        (if str_eq (api_url_spec url) "" then default_api_url else api_url_spec url)
        old_default_api_url
      ≡ false
unfolding api_url_spec
api_url-not_old url = elim (Bool-cases (str_eq url old_default_api_url)) [
  | inl e ↦ rw e refl
  | inr e ↦ elim (Bool-cases (str_eq url "")) [ inl f ↦ rw (e, f) refl | inr f ↦ rw (e, f) e ]
]

-- After the specification is reflected, the status has the upload cycle of the specification, which
-- is at least 60 minutes, and its API address is not the old default one.
pub reflect_spec-valid :
    (random : ℕ) (spec : Spec) (status : Status)
    → (let r = reflect_spec random spec status in
        ((r.1.upload_cycle ≡ some r.0.upload_cycle) × (60 ≤ r.0.upload_cycle))
        × (str_eq r.1.api_url old_default_api_url ≡ false))
unfolding reflect_spec least_cycle
reflect_spec-valid random spec status = (
  (refl, ground arith),
  rw (string_reflect_spec-value (api_url_spec spec.api_url) status.api_url default_api_url)
      (api_url-not_old spec.api_url),
)
