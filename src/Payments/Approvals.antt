-- ===== src/Payments/Approvals.antt =====
-- What an answer of the Zarinpal client (apps/payments/providers/zarinpal.py) rests on.
use visio_backend.Prelude.{
  codes, ℕ, ℤ, pos, negsuc, ◌≡◌, ◌⊎◌, inl, inr, refl, ap, subst, Bool, true, false, not, ◌||◌,
  Option, none, some, [], ◌++◌, ◌==◌, ==→≡, Bool-cases, Text, is_empty, arith,
}
use visio_backend.Payments.Json.{Json, Fields, lookup}
use visio_backend.Payments.Provider.{ProviderVerifyResult}
use visio_backend.Payments.Zarinpal.{
  HttpAnswer, ProviderFailure, Environment, ZarinpalClient, Attempted, done, fails, escapes, ◌>>=◌,
  fail_if, decoded_fields, answer_of, post_json, data_in, data_of, code_in, code_of, text_in,
  text_of, is_code, base_url, verify_fields, verify_url, verify_payment, verification_failed,
  no_ref_id,
}

-- What the client reads of a JSON value as a text.
pub data IsTextOf (env : Environment) : Json → Text → Type 0 where
  is_text : (t : Text) → IsTextOf env (Json.text t) t
  is_integer : (z : ℤ) → IsTextOf env (Json.integer z) (env.str_int z)
  is_true : IsTextOf env (Json.boolean true) (codes "True")
  is_false : IsTextOf env (Json.boolean false) (codes "False")

-- Zarinpal's verification service was asked, for this merchant, to verify this amount and authority,
-- and answered with a body that is a JSON object, whose data have the code 100 or 101 and a
-- reference that is not empty.
pub record Approved (env : Environment) (client : ZarinpalClient) (amount_rial : ℕ)
    (authority : Text) (r : ProviderVerifyResult) : Type 0 where
  pub host : Text
  pub live : client.sandbox ≡ false → host ≡ codes "https://payment.zarinpal.com"
  pub sandbox : client.sandbox ≡ true → host ≡ codes "https://sandbox.zarinpal.com"
  pub raw : Text
  pub sent :
      env.urlopen
        (host ++ codes "/pg/v4/payment/verify.json")
        (env.dumps (
          Fields.field (codes "merchant_id") (Json.text client.merchant_id) (
            Fields.field
              (codes "amount")
              (Json.integer (pos amount_rial))
              (Fields.field (codes "authority") (Json.text authority) Fields.no_fields))))
        []
      ≡ HttpAnswer.body raw
  pub response : Fields
  pub decoded : env.loads raw ≡ some (Json.object response)
  pub inner : Fields
  pub has_data : lookup (codes "data") response ≡ some (Json.object inner)
  pub has_code : lookup (codes "code") inner ≡ some (Json.integer r.code)
  pub accepted : (r.code ≡ pos 100) ⊎ (r.code ≡ pos 101)
  pub reference : Json
  pub has_reference : lookup (codes "ref_id") inner ≡ some reference
  pub is_read : IsTextOf env reference r.ref_id
  pub not_empty : is_empty r.ref_id ≡ false

done-injective : {A : Type 0} (a b : A) → done a ≡ done b → a ≡ b
done-injective a b h = ap (λ m. elim m [ done x ↦ x | fails _ ↦ a | escapes ↦ a ]) h

-- A chain is done if each part of it is.
then_done :
    {A B : Type 0} (m : Attempted A) (f : A → Attempted B) (b : B)
    → (m >>= f) ≡ done b
    → (a : A) × (m ≡ done a) × (f a ≡ done b)
unfolding ◌>>=◌
then_done (done a) f b h = (a, refl, h)
then_done (fails x) f b h = absurd (cc)
then_done escapes f b h = absurd (cc)

fail_if-done : (b : Bool) (x : ProviderFailure) (u : Unit {0}) → fail_if b x ≡ done u → b ≡ false
fail_if-done true x u h = absurd (cc)
fail_if-done false x u h = refl

decoded_fields-done :
    (o : Option Json) (members : Fields)
    → decoded_fields o ≡ done members
    → o ≡ some (Json.object members)
decoded_fields-done none members h = absurd (cc)
decoded_fields-done (some (Json.object fs)) members h = rw (done-injective fs members h) refl
decoded_fields-done (some Json.null) members h = absurd (cc)
decoded_fields-done (some Json.array) members h = absurd (cc)
decoded_fields-done (some Json.fraction) members h = absurd (cc)
decoded_fields-done (some (Json.boolean b)) members h = absurd (cc)
decoded_fields-done (some (Json.integer z)) members h = absurd (cc)
decoded_fields-done (some (Json.text t)) members h = absurd (cc)

answer_of-done :
    (env : Environment) (answer : HttpAnswer) (members : Fields)
    → answer_of env answer ≡ done members
    → (raw : Text) × (answer ≡ HttpAnswer.body raw) × (env.loads raw ≡ some (Json.object members))
answer_of-done env (HttpAnswer.body raw) members h =
    (raw, refl, decoded_fields-done (env.loads raw) members h)
answer_of-done env (HttpAnswer.http_error status) members h = absurd (cc)
answer_of-done env HttpAnswer.url_error members h = absurd (cc)
answer_of-done env HttpAnswer.timeout_error members h = absurd (cc)
answer_of-done env HttpAnswer.other_error members h = absurd (cc)

data_in-done :
    (o errors : Option Json) (members : Fields)
    → data_in o errors ≡ done members
    → o ≡ some (Json.object members)
data_in-done none errors members h = absurd (cc)
data_in-done (some (Json.object fs)) errors members h = rw (done-injective fs members h) refl
data_in-done (some Json.null) errors members h = absurd (cc)
data_in-done (some Json.array) errors members h = absurd (cc)
data_in-done (some Json.fraction) errors members h = absurd (cc)
data_in-done (some (Json.boolean b)) errors members h = absurd (cc)
data_in-done (some (Json.integer z)) errors members h = absurd (cc)
data_in-done (some (Json.text t)) errors members h = absurd (cc)

code_in-done : (o : Option Json) (z : ℤ) → code_in o ≡ done z → o ≡ some (Json.integer z)
code_in-done none z h = absurd (cc)
code_in-done (some (Json.integer y)) z h = rw (done-injective y z h) refl
code_in-done (some Json.null) z h = absurd (cc)
code_in-done (some Json.array) z h = absurd (cc)
code_in-done (some Json.fraction) z h = absurd (cc)
code_in-done (some (Json.boolean b)) z h = absurd (cc)
code_in-done (some (Json.object fs)) z h = absurd (cc)
code_in-done (some (Json.text t)) z h = absurd (cc)

is_code-either :
    (z : ℤ) → not (is_code 100 z || is_code 101 z) ≡ false → (z ≡ pos 100) ⊎ (z ≡ pos 101)
is_code-either (negsuc n) h = absurd (cc)
is_code-either (pos n) h = elim (Bool-cases (n == 100)) [
  | inl t ↦ inl (ap (λ k. pos k) (==→≡ _ _ t))
  | inr f ↦ inr (ap (λ k. pos k) (ground (arith, h)))
]

-- A text that is not empty has been read of a value that is there.
text_in-IsTextOf :
    (env : Environment) (o : Option Json)
    → is_empty (text_in env o) ≡ false
    → (v : Json) × (o ≡ some v) × IsTextOf env v (text_in env o)
text_in-IsTextOf env none h = absurd (cc)
text_in-IsTextOf env (some (Json.text t)) h = (Json.text t, refl, is_text t)
text_in-IsTextOf env (some (Json.integer z)) h = (Json.integer z, refl, is_integer z)
text_in-IsTextOf env (some (Json.boolean true)) h = (Json.boolean true, refl, is_true)
text_in-IsTextOf env (some (Json.boolean false)) h = (Json.boolean false, refl, is_false)
text_in-IsTextOf env (some Json.null) h = absurd (cc)
text_in-IsTextOf env (some Json.array) h = absurd (cc)
text_in-IsTextOf env (some Json.fraction) h = absurd (cc)
text_in-IsTextOf env (some (Json.object fs)) h = absurd (cc)

-- what is read of the data of a response
abbrev read_result : Environment → Fields → ℤ → ProviderVerifyResult
read_result env members value = record {
  code = value;
  message = text_of env members (codes "message");
  ref_id = text_of env members (codes "ref_id");
  masked_card = text_of env members (codes "card_pan");
  card_hash = text_of env members (codes "card_hash");
}

module _ (env : Environment) (client : ZarinpalClient) (amount_rial : ℕ) (authority : Text)
    (r : ProviderVerifyResult) where
  read-Approved :
      (response members : Fields) (value : ℤ)
      → post_json env (verify_url env client) (verify_fields env client amount_rial authority) []
        ≡ done response
      → data_of response ≡ done members
      → code_of members ≡ done value
      → not (is_code 100 value || is_code 101 value) ≡ false
      → is_empty (text_of env members (codes "ref_id")) ≡ false
      → Approved env client amount_rial authority (read_result env members value)
  read-Approved response members value asked in_data in_code good named =
      let (raw, sent, decoded) =
        answer_of-done env
          (env.urlopen (verify_url env client)
            (env.dumps (verify_fields env client amount_rial authority)) [])
          response asked in
      let (reference, has_reference, is_read) =
        text_in-IsTextOf env (lookup (codes "ref_id") members) named in
      record {
        host = base_url client;
        live = λ h. rw h refl;
        sandbox = λ h. rw h refl;
        raw = raw;
        sent = sent;
        response = response;
        decoded = decoded;
        inner = members;
        has_data = data_in-done _ _ members in_data;
        has_code = code_in-done _ value in_code;
        accepted = is_code-either value good;
        reference = reference;
        has_reference = has_reference;
        is_read = is_read;
        not_empty = named;
      }

  pub verify_payment-Approved :
      verify_payment env client amount_rial authority ≡ done r
      → Approved env client amount_rial authority r
  unfolding verify_payment
  verify_payment-Approved h =
      let a = then_done _ _ r h in
      let b = then_done _ _ r a.2 in
      let c = then_done _ _ r b.2 in of_good a.0 b.0 c.0 a.1 b.1 c.1 (then_done _ _ r c.2)
    where
      of_good :
          (response members : Fields) (value : ℤ)
          → post_json env
              (verify_url env client)
              (verify_fields env client amount_rial authority)
              []
            ≡ done response
          → data_of response ≡ done members
          → code_of members ≡ done value
          → (u : Unit {0}) × (fail_if
                (not (is_code 100 value || is_code 101 value))
                (verification_failed value (text_of env members (codes "message")))
              ≡ done u)
            × ((fail_if (is_empty (text_of env members (codes "ref_id"))) no_ref_id >>= λ _.
                  done (read_result env members value))
                ≡ done r)
          → Approved env client amount_rial authority r
      of_good response members value asked in_data in_code (u, good, h) =
          let (v, named, e) = then_done _ _ r h in
          subst (Approved env client amount_rial authority) (done-injective _ r e) (
            read-Approved response members value asked in_data in_code (fail_if-done _ _ u good)
              (fail_if-done _ _ v named))
