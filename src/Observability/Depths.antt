-- ===== src/Observability/Depths.antt =====
-- The samples of the dead-letter queues that `Collect` of internal/observability/metrics.go sends.
use stockflow_erp_mock.Common.{
  ℕ, ◌≡◌, refl, none, some, Bool, String, List, [], ◌∷◌, Result, ok, err, inl, inr, Bool-cases,
  Result-cases,
}
use stockflow_erp_mock.Inventory.Errors.{Sentinel, Error, wraps}
use stockflow_erp_mock.Memory.Repository.{CtxErr}
use stockflow_erp_mock.Messaging.Admin.{
  reservation_requests, reservation_release_requests, dead_letter_config,
}
use stockflow_erp_mock.Messaging.Admin.Depth.{dlq_depth}
use stockflow_erp_mock.Observability.{
  Sample, invalid_metric, dlq_depths, depth_gauge, depth_samples,
}

-- The names of the two dead-letter queues.
abbrev pub requests_queue : String
requests_queue = "stockflow.erp-mock.inventory.reservation.requested.v1.dlq"

abbrev pub releases_queue : String
releases_queue = "stockflow.erp-mock.inventory.reservation.release.requested.v1.dlq"

-- The samples of the two queues, in either order, or one sample with the first error met: that of the
-- context, or of one of the queues.
pub data ShowsDepths (depth_ctx : CtxErr) (inspect : String → Result Error ℕ)
    : List Sample → Type 0 where
  context_ended :
      (e : Sentinel)
      → depth_ctx ≡ some e
      → ShowsDepths depth_ctx inspect (invalid_metric dlq_depths (wraps e) ∷ [])
  requests_unknown :
      (e : Error)
      → depth_ctx ≡ none
      → inspect requests_queue ≡ err e
      → ShowsDepths depth_ctx inspect (invalid_metric dlq_depths e ∷ [])
  releases_unknown :
      (n : ℕ) (e : Error)
      → depth_ctx ≡ none
      → inspect requests_queue ≡ ok n
      → inspect releases_queue ≡ err e
      → ShowsDepths depth_ctx inspect (invalid_metric dlq_depths e ∷ [])
  requests_first :
      (n m : ℕ)
      → depth_ctx ≡ none
      → inspect requests_queue ≡ ok n
      → inspect releases_queue ≡ ok m
      → ShowsDepths depth_ctx inspect
          (depth_gauge reservation_requests n ∷ depth_gauge reservation_release_requests m ∷ [])
  releases_first :
      (n m : ℕ)
      → depth_ctx ≡ none
      → inspect requests_queue ≡ ok n
      → inspect releases_queue ≡ ok m
      → ShowsDepths depth_ctx inspect
          (depth_gauge reservation_release_requests m ∷ depth_gauge reservation_requests n ∷ [])

pub depth_samples-ShowsDepths :
    (depth_ctx : CtxErr) (swapped : Bool) (inspect : String → Result Error ℕ)
    → ShowsDepths depth_ctx inspect (depth_samples swapped (dlq_depth depth_ctx inspect))
unfolding depth_samples dlq_depth dead_letter_config
depth_samples-ShowsDepths (some e) swapped inspect = context_ended e refl
depth_samples-ShowsDepths none swapped inspect = elim (Result-cases (inspect requests_queue)) [
  | inr (e, h) ↦ rw h (requests_unknown e refl h)
  | inl (n, h) ↦ elim (Result-cases (inspect releases_queue)) [
    | inr (e, g) ↦ rw (h, g) (releases_unknown n e refl h g)
    | inl (m, g) ↦ elim (Bool-cases swapped) [
      | inl f ↦ rw (h, g, f) (releases_first n m refl h g)
      | inr f ↦ rw (h, g, f) (requests_first n m refl h g)
    ]
  ]
]
