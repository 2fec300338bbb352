-- ===== src/Messaging/Publisher/Identifiers.antt =====
-- The identifiers of published messages, read by the pattern that inbound identifiers have to match.
use stockflow_erp_mock.Common.{
  ℕ, zero, suc, ◌+◌, ◌*◌, ◌≤◌, ◌<◌, ◌/◌, ◌%◌, ◌≡◌, ◌∙◌, refl, ap, Option, true, some, List, [], ◌∷◌,
  ◌++◌, length, arith,
}
use stockflow_erp_mock.Common.Text.{Text}
use stockflow_erp_mock.Messaging.Decode.{is_hex, skip_hex, skip_dash, skip_group, at_end, is_uuid}
use stockflow_erp_mock.Messaging.Publisher.Uuid.{hex_digit, hex, slice, update, new_uuid}

is_hex-hex_digit : (d : ℕ) → d < 16 → is_hex (hex_digit d) ≡ true
unfolding is_hex hex_digit
is_hex-hex_digit d h = ground arith

skip_hex-hex :
    (bs : List ℕ) (n : ℕ) (rest : Text)
    → n ≡ 2 * length bs
    → skip_hex n (hex bs ++ rest) ≡ some rest
unfolding skip_hex hex
skip_hex-hex [] zero rest h = refl
skip_hex-hex [] (suc n) rest h = absurd (omega (arith, h))
skip_hex-hex (b ∷ bs) zero rest h = absurd (omega (arith, h))
skip_hex-hex (b ∷ bs) (suc zero) rest h = absurd (omega (arith, h))
skip_hex-hex (b ∷ bs) (suc (suc n)) rest h =
    rw (is_hex-hex_digit (b / 16 % 16) (omega arith), is_hex-hex_digit (b % 16) (omega arith))
      (skip_hex-hex bs n rest (omega (arith, h)))

length-update : (i : ℕ) (f : ℕ → ℕ) (bs : List ℕ) → length (update i f bs) ≡ length bs
unfolding update
length-update zero f [] = refl
length-update (suc i) f [] = refl
length-update zero f (b ∷ bs) = refl
length-update (suc i) f (b ∷ bs) = ground (arith, length-update i f bs)

length-slice : (lo n : ℕ) (bs : List ℕ) → lo + n ≤ length bs → length (slice lo n bs) ≡ n
unfolding slice
length-slice zero zero bs h = refl
length-slice zero (suc n) [] h = absurd (omega (arith, h))
length-slice zero (suc n) (b ∷ bs) h = ground (arith, length-slice zero n bs (omega (arith, h)))
length-slice (suc lo) n [] h = absurd (omega (arith, h))
length-slice (suc lo) n (b ∷ bs) h = length-slice lo n bs (omega (arith, h))

append_nil : (s : Text) → s ++ [] ≡ s
append_nil [] = refl
append_nil (c ∷ s) = ground (arith, append_nil s)

append_assoc : (s t u : Text) → (s ++ t) ++ u ≡ s ++ (t ++ u)
append_assoc [] t u = refl
append_assoc (c ∷ s) t u = ground (arith, append_assoc s t u)

groups-is_uuid :
    (a b c d e : List ℕ)
    → length a ≡ 4
    → length b ≡ 2
    → length c ≡ 2
    → length d ≡ 2
    → length e ≡ 6
    → is_uuid (hex a ++ (b'-' ∷ hex b) ++ (b'-' ∷ hex c) ++ (b'-' ∷ hex d) ++ (b'-' ∷ hex e)) ≡ true
unfolding is_uuid skip_dash skip_group at_end
groups-is_uuid a b c d e la lb lc ld le =
    let last : skip_hex 12 (hex e) ≡ some [] =
      rw append_nil at (skip_hex-hex e 12 [] (omega (arith, le))) in
    let fourth : Text = b'-' ∷ hex e in
    let third : Text = b'-' ∷ (hex d ++ fourth) in
    let second : Text = b'-' ∷ (hex c ++ third) in
    let first : Text = b'-' ∷ (hex b ++ second) in
    let after : ℕ → Option Text → Option Text = λ n o. skip_group n (skip_dash o) in
    let chain : is_uuid (hex a ++ first) ≡ true =
      ap (λ o. at_end (after 12 (after 4 (after 4 (after 4 o)))))
        (skip_hex-hex a 8 first (omega (arith, la)))
      ∙ ap (λ o. at_end (after 12 (after 4 (after 4 o))))
          (skip_hex-hex b 4 second (omega (arith, lb)))
      ∙ ap (λ o. at_end (after 12 (after 4 o))) (skip_hex-hex c 4 third (omega (arith, lc)))
      ∙ ap (λ o. at_end (after 12 o)) (skip_hex-hex d 4 fourth (omega (arith, ld)))
      ∙ ap at_end last in
    ap is_uuid (
      append_assoc _ (b'-' ∷ hex d) fourth
      ∙ append_assoc _ (b'-' ∷ hex c) third
      ∙ append_assoc (hex a) (b'-' ∷ hex b) second)
    ∙ chain

-- Of any 16 random bytes the publisher makes an identifier that the pattern for inbound message and
-- correlation identifiers matches.
pub new_uuid-is_uuid : (bytes : List ℕ) → length bytes ≡ 16 → is_uuid (new_uuid bytes) ≡ true
unfolding new_uuid
new_uuid-is_uuid bytes h =
    let value : List ℕ = update 8 (λ b. b % 64 + 128) (update 6 (λ b. b % 16 + 64) bytes) in
    let sixteen : length value ≡ 16 = rw (length-update, length-update) h in
    groups-is_uuid (slice 0 4 value) (slice 4 2 value) (slice 6 2 value) (slice 8 2 value)
      (slice 10 6 value) (length-slice 0 4 value (omega (arith, sixteen)))
      (length-slice 4 2 value (omega (arith, sixteen)))
      (length-slice 6 2 value (omega (arith, sixteen)))
      (length-slice 8 2 value (omega (arith, sixteen)))
      (length-slice 10 6 value (omega (arith, sixteen)))
