-- ===== src/Errors/Throwing.antt =====
-- `make_error_code` and `throw_api_error`.
use mathlib.Core.List.{append-nil, append_cancel_left}
use libtd.Base.{subst, sym, ap, ◌∙◌, String, [], ◌∷◌, ◌++◌, ◌≡◌, refl}
use libtd.Base.Int.{ℤ, pos}
use libtd.Text.{Bytes, codes}
use libtd.Errors.Codes.{ApiError, to_int, label, api_error_message, label-to_int}

-- `std::error_code`: a value, and the name of its category.
pub record ErrorCode : Type 0 where
  pub value : ℤ
  pub category : String

unfoldable pub make_error_code : ℤ → ErrorCode
make_error_code e = record { value = e; category = "api_error" }

-- The `std::system_error` that is thrown, and the line of the log.
pub record Thrown : Type 0 where
  pub code : ErrorCode
  pub what_arg : Bytes
  pub logged : Bytes

unfoldable pub with_detail : Bytes → Bytes → Bytes
with_detail msg [] = msg
with_detail msg (c ∷ cs) = msg ++ (codes ": " ++ c ∷ cs)

unfoldable pub throw_api_error : ℤ → Bytes → Thrown
unfolding make_error_code with_detail api_error_message
throw_api_error e detail =
    let msg = with_detail (codes (api_error_message e)) detail in
    record { code = make_error_code e; what_arg = msg; logged = codes "throw_api_error: " ++ msg }

with_detail-injective : (msg d d' : Bytes) → with_detail msg d ≡ with_detail msg d' → d ≡ d'
unfolding with_detail
with_detail-injective msg [] [] h = refl
with_detail-injective msg [] (c ∷ cs) h =
    cc (append_cancel_left msg [] (codes ": " ++ c ∷ cs) (append-nil msg ∙ h))
with_detail-injective msg (c ∷ cs) [] h =
    cc (append_cancel_left msg (codes ": " ++ c ∷ cs) [] (h ∙ sym (append-nil msg)))
with_detail-injective msg (c ∷ cs) (d ∷ ds) h =
    append_cancel_left (codes ": ") _ _ (append_cancel_left msg _ _ h)

-- Two exceptions are the same only if the error and the detail are.
pub throw_api_error-injective :
    (a b : ApiError) (d d' : Bytes)
    → throw_api_error (pos (to_int a)) d ≡ throw_api_error (pos (to_int b)) d'
    → (a ≡ b) × (d ≡ d')
unfolding throw_api_error make_error_code
throw_api_error-injective a b d d' h = (same, with_detail-injective _ d d' texts)
  where
    labels : label (pos (to_int a)) ≡ label (pos (to_int b))
    labels = ap (λ (t : Thrown). label (t.code.value)) h

    same : a ≡ b
    same = cc (labels, label-to_int a, label-to_int b)

    texts :
        with_detail (codes (api_error_message (pos (to_int a)))) d
        ≡ with_detail (codes (api_error_message (pos (to_int a)))) d'
    texts =
        subst
          (λ v.
            with_detail (codes (api_error_message (pos (to_int a)))) d
            ≡ with_detail (codes (api_error_message v)) d')
          (ap (λ (t : Thrown). t.code.value) (sym h)) (ap (λ (t : Thrown). t.what_arg) h)
