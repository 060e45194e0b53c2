-- ===== src/Payments/Zarinpal.antt =====
-- `ZarinPalProvider` of apps/payments/providers/zarinpal.py. `urlopen`, the JSON codec, `str` of an
-- integer and the texts of the exceptions are parameters. Each way to fail is a case of its own;
-- all are `ProviderError` or one of its subclasses. An exception of the read that is none escapes.
use visio_backend.Prelude.{
  ℕ, ℤ, pos, negsuc, Bool, true, false, not, ◌||◌, Option, none, some, [], ◌++◌, ◌==◌,
  if◌then◌else◌, ltb, Text, is_empty, strip, codes,
}
use visio_backend.Payments.Json.{Json, Fields, lookup}
use visio_backend.Payments.Provider.{
  ProviderRequestResult, ProviderVerifyResult, Reply, PaymentProvider,
}

-- What `urlopen` and the read do: a body that is read and decoded, one of the exceptions that
-- `_post_json` catches, or one that it lets through, such as that of a body that is not UTF-8.
pub data HttpAnswer : Type 0 where
  body : Text → HttpAnswer
  http_error : ℕ → HttpAnswer
  url_error timeout_error other_error : HttpAnswer

pub data ProviderFailure : Type 0 where
  http_status : ℕ → ProviderFailure
  unreachable timed_out invalid_json invalid_shape : ProviderFailure
  rejected_with : Option Json → ProviderFailure
  no_code no_ref_id amount_too_small : ProviderFailure
  request_failed verification_failed reversal_failed : ℤ → Text → ProviderFailure
  no_access_token no_resource no_refund_id no_merchant_id bad_timeout : ProviderFailure
  refund_failed : Option Json → ProviderFailure

-- `urlopen` takes the URL, the data and the authorization, which is empty where the header is left
-- out.
pub record Environment : Type 0 where
  pub urlopen : Text → Text → Text → HttpAnswer
  pub dumps : Fields → Text
  pub loads : Text → Option Json
  pub str_int : ℤ → Text

-- what `__init__` stores
pub record ZarinpalClient : Type 0 where
  pub merchant_id : Text
  pub sandbox : Bool
  pub access_token : Text

pub data Attempted (A : Type 0) : Type 0 where
  done : A → Attempted A
  fails : ProviderFailure → Attempted A
  escapes : Attempted A

infixl 5 ◌>>=◌
unfoldable pub ◌>>=◌ : {A B : Type 0} → Attempted A → (A → Attempted B) → Attempted B
done a >>= f = f a
fails x >>= f = fails x
escapes >>= f = escapes

abbrev pub fail_if : Bool → ProviderFailure → Attempted (Unit {0})
fail_if true x = fails x
fail_if false x = done tt

-- `__init__`; whether the timeout is positive is an argument, since it is a float
unfoldable pub new_client : Text → Bool → Bool → Text → Attempted ZarinpalClient
new_client merchant_id sandbox is_positive access_token =
    fail_if (is_empty (strip merchant_id)) no_merchant_id >>= λ _.
    fail_if (not is_positive) bad_timeout >>= λ _. done (record {
      merchant_id = strip merchant_id;
      sandbox = sandbox;
      access_token = strip access_token;
    })

abbrev pub base_url : ZarinpalClient → Text
base_url client =
    if client.sandbox
    then codes "https://sandbox.zarinpal.com"
    else codes "https://payment.zarinpal.com"

-- `isinstance(decoded, dict)`
abbrev pub decoded_fields : Option Json → Attempted Fields
decoded_fields none = fails invalid_json
decoded_fields (some (Json.object members)) = done members
decoded_fields (some _) = fails invalid_shape

abbrev pub answer_of : Environment → HttpAnswer → Attempted Fields
answer_of env (http_error status) = fails (http_status status)
answer_of env url_error = fails unreachable
answer_of env timeout_error = fails timed_out
answer_of env other_error = escapes
answer_of env (body raw) = decoded_fields (env.loads raw)

abbrev pub post_json : Environment → Text → Fields → Text → Attempted Fields
post_json env url payload authorization =
    answer_of env (env.urlopen url (env.dumps payload) authorization)

-- `_data`
abbrev pub data_in : Option Json → Option Json → Attempted Fields
data_in (some (Json.object members)) errors = done members
data_in _ errors = fails (rejected_with errors)

abbrev pub data_of : Fields → Attempted Fields
data_of payload = data_in (lookup (codes "data") payload) (lookup (codes "errors") payload)

-- `_code`
abbrev pub code_in : Option Json → Attempted ℤ
code_in (some (Json.integer value)) = done value
code_in _ = fails no_code

abbrev pub code_of : Fields → Attempted ℤ
code_of members = code_in (lookup (codes "code") members)

-- `_text`: Python's `bool` is an `int`, so that `True` is a text too.
abbrev pub text_in : Environment → Option Json → Text
text_in env (some (Json.text value)) = value
text_in env (some (Json.integer value)) = env.str_int value
text_in env (some (Json.boolean true)) = codes "True"
text_in env (some (Json.boolean false)) = codes "False"
text_in env _ = []

abbrev pub text_of : Environment → Fields → Text → Text
text_of env members key = text_in env (lookup key members)

abbrev pub is_code : ℕ → ℤ → Bool
is_code n (pos k) = k == n
is_code n (negsuc k) = false

-- `if mobile: metadata["mobile"] = mobile`, and the same for the email
abbrev pub put_text : Text → Text → Fields → Fields
put_text key value rest = if is_empty value then rest else Fields.field key (Json.text value) rest

abbrev pub contact_of : Text → Text → Fields
contact_of mobile email =
    put_text (codes "mobile") mobile (put_text (codes "email") email Fields.no_fields)

-- `if metadata: payload["metadata"] = metadata`
abbrev pub put_metadata : Fields → Fields
put_metadata Fields.no_fields = Fields.no_fields
put_metadata (Fields.field k v rest) =
    Fields.field (codes "metadata") (Json.object (Fields.field k v rest)) Fields.no_fields

module _ (env : Environment) (client : ZarinpalClient) where
  abbrev pub request_fields : ℕ → Text → Text → Text → Text → Fields
  request_fields amount_rial callback_url description mobile email =
      Fields.field (codes "merchant_id") (Json.text client.merchant_id) (
        Fields.field (codes "amount") (Json.integer (pos amount_rial)) (
          Fields.field (codes "callback_url") (Json.text callback_url) (
            Fields.field (codes "description") (Json.text description)
              (put_metadata (contact_of mobile email)))))

  unfoldable pub request_payment : ℕ → Text → Text → Text → Text → Attempted ProviderRequestResult
  request_payment amount_rial callback_url description mobile email =
      fail_if (ltb amount_rial 1000) amount_too_small >>= λ _.
      post_json env (base_url client ++ codes "/pg/v4/payment/request.json")
        (request_fields amount_rial callback_url description mobile email) []
      >>= λ response. data_of response >>= λ members. code_of members >>= λ value.
          fail_if (not (is_code 100 value) || is_empty (text_of env members (codes "authority")))
            (request_failed value (text_of env members (codes "message")))
          >>= λ _. done (record {
            code = value;
            message = text_of env members (codes "message");
            authority = text_of env members (codes "authority");
            redirect_url =
                base_url client ++ codes "/pg/StartPay/" ++ text_of env members (codes "authority");
          })

  abbrev pub verify_fields : ℕ → Text → Fields
  verify_fields amount_rial authority =
      Fields.field (codes "merchant_id") (Json.text client.merchant_id) (
        Fields.field (codes "amount") (Json.integer (pos amount_rial))
          (Fields.field (codes "authority") (Json.text authority) Fields.no_fields))

  abbrev pub verify_url : Text
  verify_url = base_url client ++ codes "/pg/v4/payment/verify.json"

  unfoldable pub verify_payment : ℕ → Text → Attempted ProviderVerifyResult
  verify_payment amount_rial authority =
      post_json env verify_url (verify_fields amount_rial authority) [] >>= λ response.
      data_of response >>= λ members. code_of members >>= λ value.
      fail_if (not (is_code 100 value || is_code 101 value))
        (verification_failed value (text_of env members (codes "message")))
      >>= λ _. fail_if (is_empty (text_of env members (codes "ref_id"))) no_ref_id >>= λ _.
          done (record {
            code = value;
            message = text_of env members (codes "message");
            ref_id = text_of env members (codes "ref_id");
            masked_card = text_of env members (codes "card_pan");
            card_hash = text_of env members (codes "card_hash");
          })

  unfoldable pub reverse_payment : Text → Attempted ProviderVerifyResult
  reverse_payment authority =
      post_json env (base_url client ++ codes "/pg/v4/payment/reverse.json")
        (Fields.field (codes "merchant_id") (Json.text client.merchant_id)
          (Fields.field (codes "authority") (Json.text authority) Fields.no_fields))
        []
      >>= λ response. data_of response >>= λ members. code_of members >>= λ value.
          fail_if (not (is_code 100 value))
            (reversal_failed value (text_of env members (codes "message")))
          >>= λ _. done (record {
            code = value;
            message = text_of env members (codes "message");
            ref_id = text_of env members (codes "ref_id");
            masked_card = [];
            card_hash = [];
          })

-- The GraphQL call of `refund_payment`.
abbrev pub graphql_url : Text
graphql_url = codes "https://next.zarinpal.com/api/v4/graphql/"

abbrev pub refund_query : Text
refund_query =
    codes
      "\n        mutation AddRefund(\n          $session_id: ID!, $amount: BigInteger!, $description: String,\n          $reason: RefundReasonEnum\n        ) {\n          resource: AddRefund(\n            session_id: $session_id, amount: $amount,\n            description: $description, reason: $reason\n          ) { id amount }\n        }\n        "

abbrev pub refund_fields : Text → ℕ → Text → Text → Fields
refund_fields session_id amount_rial description reason =
    Fields.field (codes "query") (Json.text refund_query) (
      Fields.field (codes "variables")
        (Json.object (
          Fields.field (codes "session_id") (Json.text session_id) (
            Fields.field (codes "amount") (Json.integer (pos amount_rial)) (
              Fields.field (codes "description") (Json.text description)
                (Fields.field (codes "reason") (Json.text reason) Fields.no_fields)))))
        Fields.no_fields)

abbrev pub refund_data : Option Json → Option Json → Attempted Fields
refund_data (some (Json.object members)) errors = done members
refund_data _ errors = fails (refund_failed errors)

abbrev pub resource_in : Option Json → Attempted Fields
resource_in (some (Json.object members)) = done members
resource_in _ = fails no_resource

abbrev pub refund_id_in : Environment → Option Json → Attempted Text
refund_id_in env (some (Json.text value)) = done value
refund_id_in env (some (Json.integer value)) = done (env.str_int value)
refund_id_in env (some (Json.boolean true)) = done (codes "True")
refund_id_in env (some (Json.boolean false)) = done (codes "False")
refund_id_in env _ = fails no_refund_id

unfoldable pub refund_payment :
    Environment → ZarinpalClient → Text → ℕ → Text → Text → Attempted Text
refund_payment env client session_id amount_rial description reason =
    fail_if (is_empty client.access_token) no_access_token >>= λ _.
    post_json env graphql_url (refund_fields session_id amount_rial description reason)
      client.access_token
    >>= λ response.
        refund_data (lookup (codes "data") response) (lookup (codes "errors") response)
        >>= λ members. resource_in (lookup (codes "resource") members) >>= λ resource.
            refund_id_in env (lookup (codes "id") resource)

abbrev pub reply_of : {A : Type 0} → (ProviderFailure → Text) → Attempted A → Reply A
reply_of str (done a) = Reply.answered a
reply_of str (fails x) = Reply.failed (str x)
reply_of str escapes = Reply.crashed

-- The client as the services call it: they pass the callback URL, the description of an order, the
-- customer's email and no mobile number.
abbrev pub zarinpal_provider :
    Environment → ZarinpalClient → (ProviderFailure → Text) → Text → (ℕ → Text) → PaymentProvider
zarinpal_provider env client str callback_url describe = record {
  name = codes "zarinpal";
  request_payment = λ amount_rial order email.
      reply_of str (request_payment env client amount_rial callback_url (describe order) [] email);
  verify_payment =
      λ amount_rial authority. reply_of str (verify_payment env client amount_rial authority);
}
