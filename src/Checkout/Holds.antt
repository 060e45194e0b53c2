-- ===== src/Checkout/Holds.antt =====
-- The checks of a session's lines in `_revalidate_ready_boundary`: they read, and find every line held.
use visio_backend.Prelude.{
  ℕ, ◌<◌, ◌≡◌, refl, arith, true, ==→≡, List, [], ◌∷◌, some, All, for_each, Ends, Ends-mono,
  Ends-pure, then_gets, then_read, then_or_raise, then_raise_if, Ends-raise_if,
}
use visio_backend.Commerce.Models.{Reservation, is_held, find_reservation}
use visio_backend.Database.{Db}
use visio_backend.Database.Checkout.{CheckoutLine}
use visio_backend.Checkout.Reads.{Reads}
use visio_backend.Checkout.Sessions.{PricedCartLine}
use visio_backend.Checkout.Sessions.Finalization.{check_line, check_hold}

-- The hold of a line is active at `now`, for the line's quantity.
pub record IsHolding (now : ℕ) (db : Db) (line : CheckoutLine) : Type 0 where
  pub hold : Reservation
  pub found : find_reservation line.reservation_id db.stock ≡ some hold
  pub live : is_held hold.status ≡ true
  pub fresh : now < hold.expires_at
  pub amount : hold.quantity ≡ line.quantity

check_line-Reads :
    (lines : List CheckoutLine) (p : PricedCartLine) (s : Db) → Reads (check_line lines p) s
unfolding check_line
check_line-Reads lines p s =
    then_or_raise _ _ _ s (λ _. refl)
      λ line _.
        then_raise_if _ _ _ s (λ _. refl)
          λ _.
            then_raise_if _ _ _ s (λ _. refl) λ _. Ends-raise_if _ _ s (λ _. refl) λ _. (refl, tt)

pub check_lines-Reads :
    (lines : List CheckoutLine) (ps : List PricedCartLine) (s : Db)
    → Reads (for_each ps (check_line lines)) s
unfolding for_each
check_lines-Reads lines [] s = Ends-pure tt s (refl, tt)
check_lines-Reads lines (p ∷ ps) s =
    then_read _ (check_line lines p) (λ _. for_each ps (check_line lines)) s
      (check_line-Reads lines p s) (λ _. refl) λ _ _. check_lines-Reads lines ps s

check_hold-IsHolding :
    (now : ℕ) (line : CheckoutLine) (s : Db)
    → Ends (λ _ t. (t ≡ s) × IsHolding now s line) (λ _ t. t ≡ s) (check_hold now line s)
unfolding check_hold
check_hold-IsHolding now line s = then_gets _ _ s (
    then_or_raise _ _ _ s (λ _. refl)
      λ inventory _.
        then_raise_if _ _ _ s (λ _. refl)
          λ _. then_gets _ _ s (
            then_or_raise _ _ _ s (λ _. refl)
              λ hold found.
                then_raise_if _ _ _ s (λ _. refl)
                  λ on.
                    Ends-raise_if _ _ s (λ _. refl)
                      λ same. (
                        refl,
                        record {
                          hold = hold;
                          found = found;
                          live = ground arith;
                          fresh = ground arith;
                          amount = ==→≡ _ _ (ground arith);
                        },
                      )))

pub check_holds-IsHolding :
    (now : ℕ) (lines : List CheckoutLine) (s : Db)
    → Ends
        (λ _ t. (t ≡ s) × All (IsHolding now s) lines)
        (λ _ t. t ≡ s)
        (for_each lines (check_hold now) s)
unfolding for_each
check_holds-IsHolding now [] s = Ends-pure tt s (refl, tt)
check_holds-IsHolding now (l ∷ ls) s =
    then_read _ (check_hold now l) (λ _. for_each ls (check_hold now)) s
      (check_hold-IsHolding now l s) (λ _. refl)
      λ _ held.
        Ends-mono _ _ _ _ _ (λ _ _ (same, rest). (same, (held, rest))) (λ _ _ h. h)
          (check_holds-IsHolding now ls s)
