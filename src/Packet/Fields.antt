-- ===== src/Packet/Fields.antt =====
-- The fields of a packet's body: `MakeBody` and `ParseLengthPrefixedString` of PacketParser.cpp.
use mathlib.Core.List.{append_assoc, append-nil}
use mathlib.Core.Option
use native.Mathlib.Nat.{zero-add}
use mathlib.Core.Option.{some-injective}
use ll2games_rpg_server.Common.{
  ℕ, zero, suc, ◌+◌, ◌*◌, ◌/◌, ◌%◌, ◌≤◌, ◌≡◌, sym, ap, ◌∙◌, Option, none, some, List, [], ◌∷◌, ◌++◌,
  arith, ltb-false, length, take, length-append, drop-append, take-append, drop-append_add,
}
use ll2games_rpg_server.Packet.{
  htons, max_u16, value, failed, parse_length_prefixed_string, make_body_from, make_body,
}

-- The bytes of one field.
abbrev pub field : List ℕ → List ℕ
field x = htons (length x) ++ x

abbrev pub fields : List (List ℕ) → List ℕ
fields [] = []
fields (x ∷ xs) = field x ++ fields xs

abbrev pub AllFit : List (List ℕ) → Type 0
AllFit [] = Unit {0}
AllFit (x ∷ xs) = (length x ≤ max_u16) × AllFit xs

-- A field that stands anywhere in a payload is read back whole, and the offset ends behind it.
pub parse-field :
    (pre x rest : List ℕ)
    → length x ≤ max_u16
    → parse_length_prefixed_string (some (pre ++ (field x ++ rest))) (length pre)
      ≡ (value x, length pre + 2 + length x)
unfolding parse_length_prefixed_string
parse-field pre x rest h =
    rw (drop-append pre (field x ++ rest), drop-append_add pre (field x ++ rest) 2, take_field)
      (ground (arith, length-append pre (field x ++ rest), length-append x rest))
  where
    take_field : take (length x / 256 % 256 * 256 + length x % 256) (x ++ rest) ≡ x
    take_field = ap (λ n. take n (x ++ rest)) (omega arith) ∙ take-append x rest

make_body_from-fields :
    (body : List ℕ) (xs : List (List ℕ))
    → AllFit xs
    → make_body_from body xs ≡ some (body ++ fields xs)
unfolding make_body_from
make_body_from-fields body [] h = rw append-nil
make_body_from-fields body (x ∷ xs) (h, hs) =
    rw
      (
        ltb-false max_u16 (length x) h,
        make_body_from-fields ((body ++ htons (length x)) ++ x) xs hs,
      )
      (ap some (simp append_assoc))

-- `MakeBody` of fields of at most 65535 bytes each is their encodings in order.
pub make_body-fields : (xs : List (List ℕ)) → AllFit xs → make_body xs ≡ some (fields xs)
unfolding make_body
make_body-fields xs h = make_body_from-fields [] xs h

-- Reading one field after the other, each from the offset that the one before it left, as the
-- handlers do.
pub parse_fields : ℕ → List ℕ → ℕ → Option (List (List ℕ) × ℕ)
parse_fields zero payload offset = some ([], offset)
parse_fields (suc n) payload offset =
    let (r, offset') = parse_length_prefixed_string (some payload) offset in
    elim r [
      | failed e ↦ none
      | value x ↦
          Option.map (λ (p : List (List ℕ) × ℕ). (x ∷ p.0, p.1)) (parse_fields n payload offset')
    ]

parse_fields_step :
    (n : ℕ) (payload x : List ℕ) (xs : List (List ℕ)) (offset middle end : ℕ)
    → parse_length_prefixed_string (some payload) offset ≡ (value x, middle)
    → parse_fields n payload middle ≡ some (xs, end)
    → parse_fields (suc n) payload offset ≡ some (x ∷ xs, end)
unfolding parse_fields
parse_fields_step n payload x xs offset middle end first others = ground arith

parse_fields-fields_from :
    (pre : List ℕ) (xs : List (List ℕ)) (rest : List ℕ)
    → AllFit xs
    → parse_fields (length xs) (pre ++ (fields xs ++ rest)) (length pre)
      ≡ some (xs, length pre + length (fields xs))
parse_fields-fields_from pre [] rest h =
    unfold parse_fields in ap some (ap (λ n. ([], n)) (omega arith))
parse_fields-fields_from pre (x ∷ xs) rest (h, hs) =
    parse_fields_step (length xs) _ x xs (length pre) (length pre + 2 + length x) _ first
      (others (parse_fields-fields_from (pre ++ field x) xs rest hs))
  where
    first :
        parse_length_prefixed_string (some (pre ++ ((field x ++ fields xs) ++ rest))) (length pre)
        ≡ (value x, length pre + 2 + length x)
    first = rw (append_assoc (field x) (fields xs) rest) (parse-field pre x (fields xs ++ rest) h)

    behind : length (pre ++ field x) ≡ length pre + 2 + length x
    behind = omega (arith, length-append pre (field x))

    regroup : (pre ++ field x) ++ (fields xs ++ rest) ≡ pre ++ ((field x ++ fields xs) ++ rest)
    regroup = simp append_assoc

    others :
        parse_fields (length xs) ((pre ++ field x) ++ (fields xs ++ rest)) (length (pre ++ field x))
          ≡ some (xs, length (pre ++ field x) + length (fields xs))
        → parse_fields
            (length xs)
            (pre ++ ((field x ++ fields xs) ++ rest))
            (length pre + 2 + length x)
          ≡ some (xs, length pre + length (field x ++ fields xs))
    others ih =
        let reached : length (pre ++ field x) + length (fields xs)
            ≡ length pre + length (field x ++ fields xs) =
          omega (arith, length-append pre (field x), length-append (field x) (fields xs)) in
        rw (← reached, ← regroup, ← behind) ih

-- `MakeBody` and the field parser are inverse: from a body that `MakeBody` made of fields of at
-- most 65535 bytes each, as many reads return the fields in order and end at the end of the body.
pub parse_fields-make_body :
    (xs : List (List ℕ)) {body : List ℕ}
    → AllFit xs
    → make_body xs ≡ some body
    → parse_fields (length xs) body 0 ≡ some (xs, length body)
parse_fields-make_body xs {body} h made =
    let body_fields : body ≡ fields xs = some-injective _ _ (sym made ∙ make_body-fields xs h) in
    rw body_fields (simp (append-nil, zero-add) at (parse_fields-fields_from [] xs [] h))
