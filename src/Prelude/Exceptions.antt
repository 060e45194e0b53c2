-- ===== src/Prelude/Exceptions.antt =====
-- Exceptions and database transactions. An operation returns a value or raises, and leaves a state
-- beside either; `transaction.atomic()` puts the state back when its block raises (a nested block
-- is a savepoint, which does the same for its part).
use mathlib.Core.Bool.{Bool, true, false}
use mathlib.Core.Option.{Option, none, some}
use mathlib.Core.List.{List, [], ◌∷◌}
use visio_backend.Prelude.Tests.{if◌then◌else◌}

-- The exception classes of the services and of Django; messages are left out.
pub data Error : Type 0 where
  value_error does_not_exist integrity_error key_error : Error
  inventory_unavailable reservation_state : Error
  cart_not_found cart_line_not_found variant_not_purchasable : Error
  wishlist_product_unavailable : Error
  checkout_not_found checkout_conflict checkout_stale checkout_unavailable : Error
  address_not_serviceable shipping_configuration tax_policy_unavailable : Error
  order_not_found order_conflict order_stale order_transition : Error
  payment_not_found payment_conflict payment_configuration payment_provider : Error
  provider_error uncaught_error : Error
  notification_conflict permission_denied : Error

pub data Result (A : Type 0) : Type 0 where
  ok : A → Result A
  err : Error → Result A

abbrev pub Action : Type 0 → Type 0 → Type 0
Action S A = S → Result A × S

module _ {S A : Type 0} where
  pub pure : A → Action S A
  pure a s = (ok a, s)

  pub raise : Error → Action S A
  raise e s = (err e, s)

  pub gets : (S → A) → Action S A
  gets f s = (ok (f s), s)

  pub or_raise : Option A → Error → Action S A
  or_raise none e s = (err e, s)
  or_raise (some a) e s = (ok a, s)

  abbrev pub settle : S → Result A × S → Result A × S
  settle s (ok a, s') = (ok a, s')
  settle s (err e, s') = (err e, s)

  -- `with transaction.atomic():`
  pub atomic : Action S A → Action S A
  atomic m s = settle s (m s)

  abbrev pub rethrow : (Error → Error) → Result A × S → Result A × S
  rethrow f (ok a, s') = (ok a, s')
  rethrow f (err e, s') = (err (f e), s')

  -- `except X as exc: raise Y from exc`, by what the handler makes of each class
  pub translate : (Error → Error) → Action S A → Action S A
  translate f m s = rethrow f (m s)

  -- `if b: ... else: ...`
  pub branch : Bool → Action S A → Action S A → Action S A
  branch true m k = m
  branch false m k = k

  abbrev pub recover : (Error → Bool) → Action S A → Result A × S → Result A × S
  recover handled k (ok a, s) = (ok a, s)
  recover handled k (err e, s) = if handled e then k s else (err e, s)

  -- `try: m ... except (classes): k`, where `m` is a block that has rolled back what it wrote
  pub catch : (Error → Bool) → Action S A → Action S A → Action S A
  catch handled m k s = recover handled k (m s)

module _ {S : Type 0} where
  pub modify : (S → S) → Action S (Unit {0})
  modify f s = (ok tt, f s)

  pub raise_if : Bool → Error → Action S (Unit {0})
  raise_if true e s = (err e, s)
  raise_if false e s = (ok tt, s)

module _ {S A B : Type 0} where
  abbrev pub continue : Result A × S → (A → Action S B) → Result B × S
  continue (ok a, s) f = f a s
  continue (err e, s) f = (err e, s)

  infixl 5 ◌>>=◌ ◌>>◌
  -- Unfolding this unfolds the actions above too.
  unfoldable pub ◌>>=◌ : Action S A → (A → Action S B) → Action S B
  unfolding pure raise gets or_raise atomic translate branch catch modify raise_if
  ◌>>=◌ m f s = continue (m s) f

  abbrev pub ◌>>◌ : Action S A → Action S B → Action S B
  m >> k = m >>= λ _. k

module _ {S A : Type 0} where
  -- `for x in xs: body(x)`
  unfoldable pub for_each : List A → (A → Action S (Unit {0})) → Action S (Unit {0})
  unfolding ◌>>=◌
  for_each [] body = pure tt
  for_each (x ∷ xs) body = body x >>= λ _. for_each xs body
