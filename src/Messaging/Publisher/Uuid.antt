-- ===== src/Messaging/Publisher/Uuid.antt =====
-- `newUUID` of internal/messaging/rabbitmq/publisher.go.
use stockflow_erp_mock.Common.{
  ℕ, zero, suc, ◌+◌, ◌-◌, ◌/◌, ◌%◌, List, [], ◌∷◌, ◌++◌, ltb, if◌then◌else◌,
}
use stockflow_erp_mock.Common.Text.{Text}

-- `%x` of a digit and of a byte slice.
unfoldable pub hex_digit : ℕ → ℕ
hex_digit d = if ltb d 10 then b'0' + d else b'a' + (d - 10)

unfoldable pub hex : List ℕ → Text
hex [] = []
hex (b ∷ bs) = hex_digit (b / 16 % 16) ∷ hex_digit (b % 16) ∷ hex bs

-- `value[lo:hi]` with `n = hi - lo`
unfoldable pub slice : ℕ → ℕ → List ℕ → List ℕ
slice zero zero bs = []
slice zero (suc n) [] = []
slice zero (suc n) (b ∷ bs) = b ∷ slice zero n bs
slice (suc lo) n [] = []
slice (suc lo) n (b ∷ bs) = slice lo n bs

-- `value[i] = f(value[i])`
unfoldable pub update : ℕ → (ℕ → ℕ) → List ℕ → List ℕ
update i f [] = []
update zero f (b ∷ bs) = f b ∷ bs
update (suc i) f (b ∷ bs) = b ∷ update i f bs

-- The text of 16 random bytes, with the version and the variant set.
unfoldable pub new_uuid : List ℕ → Text
unfolding hex_digit hex slice update
new_uuid bytes =
    let value = update 8 (λ b. b % 64 + 128) (update 6 (λ b. b % 16 + 64) bytes) in
    hex (slice 0 4 value)
    ++ (b'-' ∷ hex (slice 4 2 value))
    ++ (b'-' ∷ hex (slice 6 2 value))
    ++ (b'-' ∷ hex (slice 8 2 value))
    ++ (b'-' ∷ hex (slice 10 6 value))
