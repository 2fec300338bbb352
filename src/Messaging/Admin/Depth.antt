-- ===== src/Messaging/Admin/Depth.antt =====
-- `DLQDepth` of internal/messaging/rabbitmq/admin.go. What the broker says of a queue, the number of
-- its messages or an error, is an argument.
use stockflow_erp_mock.Common.{ℕ, String, List, [], ◌∷◌, Result, ok, ◌>>=◌, ◌>>◌}
use stockflow_erp_mock.Inventory.Errors.{Error}
use stockflow_erp_mock.Memory.Repository.{CtxErr, check_ctx}
use stockflow_erp_mock.Messaging.Admin.{
  DeadLetterQueue, reservation_requests, reservation_release_requests, dead_letter_config,
}

depths :
    (String → Result Error ℕ) → List DeadLetterQueue → Result Error (List (DeadLetterQueue × ℕ))
depths inspect [] = ok []
depths inspect (queue ∷ queues) =
    let rest = depths inspect queues in
    do
      config ← dead_letter_config queue
      messages ← inspect config.name
      others ← rest
      ok ((queue, messages) ∷ others)

-- `DLQDepth`: a map with an entry for each of the two queues, as a list.
unfoldable pub dlq_depth :
    CtxErr → (String → Result Error ℕ) → Result Error (List (DeadLetterQueue × ℕ))
unfolding depths
dlq_depth ctx_err inspect = do
  check_ctx ctx_err
  depths inspect (reservation_requests ∷ reservation_release_requests ∷ [])
