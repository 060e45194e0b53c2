-- ===== src/Carts/Clamping.antt =====
-- What `validate_and_clamp_cart` of apps/cart/services.py leaves in the carts.
use visio_backend.Prelude.{
  ℕ, ◌≡◌, inl, inr, refl, sym, ◌∙◌, subst, Bool, true, false, Option, none, some, List, ◌==◌, ==→≡,
  ==-refl, if◌then◌else◌, arith, ltb, Bool-cases, rows, rows-IsDistinct, All-rows, Ends, Ends-mono,
  Ends-pure, Ends-bind, Ends-branch, Ends-atomic, then_gets, then_ok,
}
use visio_backend.Commerce.Models.{Stock}
use visio_backend.Database.{Db}
use visio_backend.Database.Accounts.{User}
use visio_backend.Database.Carts.{Cart}
use visio_backend.Carts.Services.{find_cart}
use visio_backend.Carts.Clamp.{validate_and_clamp_cart}
use visio_backend.Carts.Contents.{quantity_in, held_by, contents}
use visio_backend.Carts.Tidy.{IsBounded}
use visio_backend.Carts.Effects.{IsTidyDb, get_or_create_active_cart-Provided, Provided}
use visio_backend.Carts.Relining.{
  Refines, Relined, locked_cart-same, touch-Refines, untouched-Refines, Provided-Refines,
}
use visio_backend.Carts.Limits.{limit, capped, clamped}
use visio_backend.Carts.Looked.{has, rows-Current, has-rows}
use visio_backend.Carts.ClampLoop.{report, reported, Clamped, clamp_lines-Clamped}

-- A variant that is not looked at is not there, and capping nothing leaves nothing.
capped-absent :
    (b : Bool) (m : Option ℕ) (n : ℕ)
    → (b ≡ false → n ≡ 0)
    → (if b then capped m n else n) ≡ capped m n
capped-absent true m n h = refl
capped-absent false none n h = refl
capped-absent false (some k) n h = omega (arith, h refl)

report-absent :
    (b : Bool) (m : Option ℕ) (n : ℕ)
    → (b ≡ false → n ≡ 0)
    → report b m n ≡ (if ltb (capped m n) n then some (capped m n) else none)
report-absent true m n h = refl
report-absent false none n h = ground arith
report-absent false (some k) n h = ground (arith, h refl)

-- The lines of a cart are all that it holds.
module _ (c : Cart) (now : ℕ) (t : Db) (adjusted : List (ℕ × ℕ)) (w : Db)
    (r : Clamped c now (λ v. has v (rows (λ l. l.cart_id == c.id) t.cart_lines)) t adjusted w) where
  Clamped-Relined : (stock : Stock) → t.stock ≡ stock → Relined c (clamped now stock) t w
  Clamped-Relined stock same = record {
    written = r.relined.written;
    tidy = r.relined.tidy;
    law = λ i v. r.relined.law i v ∙ elim (Bool-cases (i == c.id)) [
      | inl here ↦
          rw (here, same)
            (capped-absent _ (limit v now stock) (quantity_in i v t.cart_lines) (λ gone.
              subst (λ j. quantity_in j v t.cart_lines ≡ 0) (sym (==→≡ _ _ here))
                (has-rows c.id v t.cart_lines gone)))
      | inr other ↦ rw other refl
    ];
  }

  -- The reports, by what the user has before and after.
  Clamped-reports :
      (user_id : ℕ) (s : Db) (left : Cart) (u : Db)
      → Provided user_id s c t
      → Refines user_id (clamped now s.stock) s left u
      → (v : ℕ)
      → reported v adjusted ≡ (
          if ltb (contents u user_id v) (contents s user_id v)
          then some (contents u user_id v)
          else none)
  Clamped-reports user_id s left u p k v =
      let before : quantity_in c.id v t.cart_lines ≡ contents s user_id v =
        subst (λ o. held_by o v t.cart_lines ≡ contents s user_id v) p.active (p.same user_id v) in
      let after : contents u user_id v ≡ clamped now s.stock v (contents s user_id v) =
        k.changed user_id v ∙ rw ==-refl refl in
      r.reports v
      ∙ report-absent _ (limit v now t.stock) (quantity_in c.id v t.cart_lines)
          (has-rows c.id v t.cart_lines)
      ∙ rw (before, after, p.stock) refl

-- From tidy tables and with a fresh key, `validate_and_clamp_cart` does not raise. It leaves tidy
-- tables in which each amount of the user is cut to what can be had of the variant, where the
-- variant is for sale and its stock is known and above zero, and every other amount of every user
-- is unchanged; the returned cart is the user's active one, and the returned adjustments name each
-- variant that has become less, with what is left of it, and no other.
pub validate_and_clamp_cart-Refines :
    (uuid4 : ℕ) (user : User) (now : ℕ) (s : Db)
    → IsTidyDb s
    → find_cart uuid4 s.carts ≡ none
    → Ends
        (λ r t.
          Refines user.id (clamped now s.stock) s r.0 t
          × ((v : ℕ)
              → reported v r.1 ≡ (
                  if ltb (contents t user.id v) (contents s user.id v)
                  then some (contents t user.id v)
                  else none)))
        (λ _ _. ⊥)
        (validate_and_clamp_cart uuid4 user now s)
unfolding validate_and_clamp_cart
validate_and_clamp_cart-Refines uuid4 user now s h fresh =
    Ends-bind (Provided user.id s) _ _ s
      (get_or_create_active_cart-Provided uuid4 user now s h fresh)
      λ c t p. Ends-atomic _ t (
        then_ok _ _ t (locked_cart-same user.id c t p.tidy p.active) (
          then_gets _ _ t (
            Ends-bind _ _ _ t
              (clamp_lines-Clamped user.id c now (rows (λ l. l.cart_id == c.id) t.cart_lines) t
                p.tidy p.active (rows-IsDistinct _ _ t.cart_lines p.tidy.lines_keyed)
                (All-rows IsBounded _ t.cart_lines p.tidy.bounded)
                (rows-Current c.id t.cart_lines p.tidy.apart))
              λ adjusted w r.
                let capping : Relined c (clamped now s.stock) t w =
                  Clamped-Relined c now t adjusted w r s.stock p.stock in
                Ends-bind (Refines user.id (clamped now s.stock) s) _ _ w
                  (Ends-branch _ _ _ w
                    (λ _. Ends-pure c w (
                      Provided-Refines user.id _ s t c c w p
                        (untouched-Refines user.id _ c t w p.tidy p.active capping)))
                    λ _.
                      Ends-mono _ _ _ _ _ (λ a u k. Provided-Refines user.id _ s t c a u p k)
                        (λ _ _ k. k) (touch-Refines user.id _ c now t w p.tidy p.active capping))
                  λ left u k.
                    Ends-pure (left, adjusted) u
                      (k, Clamped-reports c now t adjusted w r user.id s left u p k))))
