-- ===== src/Carts/Effects.antt =====
-- How the steps of apps/cart/services.py change the contents of the carts.
use mathlib.Core.Option.{some-injective}
use visio_backend.Prelude.{
  ℕ, ◌≡◌, refl, sym, ◌∙◌, ap, subst, true, false, ◌&&◌, Option, none, some, List, [], ◌∷◌, ◌==◌,
  ==→≡, ==-refl, if◌then◌else◌, arith, Bool-cases, inl, inr, update, All, IsKeyed, first-test,
  first-key, first-update, first-create, Ends, Ends-pure, Ends-atomic, Ends-catch, Ends-or_raise,
  then_gets, then_modify, then_allowed, atomic,
}
use visio_backend.Database.{Db}
use visio_backend.Database.Accounts.{User}
use visio_backend.Database.Carts.{Cart, CartLine}
use visio_backend.Checkout.Sessions.{is_open, is_there}
use visio_backend.Carts.Services.{
  cart_of, find_cart, create_cart, is_integrity, new_cart, create_if_none,
  get_or_create_active_cart, touched, touch_cart,
}
use visio_backend.Carts.Contents.{quantity_in, held_by, contents}
use visio_backend.Carts.Tidy.{IsTidy, IsLinked, create_cart-IsTidy}

-- The contents of the user's cart are changed by `g`, those of the others' are not.
abbrev pub Changed : ℕ → (ℕ → ℕ → ℕ) → Db → Db → Type 0
Changed user_id g s t =
    (u v : ℕ) → contents t u v ≡ (if u == user_id then g v (contents s u v) else contents s u v)

abbrev pub IsTidyDb : Db → Type 0
IsTidyDb db = IsTidy db.carts db.cart_lines

-- No user's contents change.
abbrev pub SameContents : Db → Db → Type 0
SameContents s t = (u v : ℕ) → contents t u v ≡ contents s u v

-- The active cart is the row of its key.
pub cart_of-find :
    (user_id : ℕ) (carts : List Cart) (c : Cart)
    → IsKeyed (λ x. x.id) carts
    → cart_of user_id carts ≡ some c
    → find_cart c.id carts ≡ some c
cart_of-find user_id carts c keyed found = first-key (λ (x : Cart). x.id) _ carts c keyed found

-- Touching a cart leaves all contents.
pub held_by-touch :
    (cart_id now u v : ℕ) (carts : List Cart) (lines : List CartLine)
    → held_by (cart_of u (update (λ c. c.id == cart_id) (touched now) carts)) v lines
      ≡ held_by (cart_of u carts) v lines
held_by-touch cart_id now u v carts lines =
    rw
      (first-update (λ (c : Cart). c.user_id == u && is_open c.status) (λ c. c.id == cart_id)
        (touched now) carts (λ c. refl))
      (of_found (cart_of u carts))
  where
    of_found :
        (o : Option Cart)
        → held_by
            (elim o [ none ↦ none | some c ↦ some (if c.id == cart_id then touched now c else c) ])
            v
            lines
          ≡ held_by o v lines
    of_found none = refl
    of_found (some c) = elim (Bool-cases (c.id == cart_id)) [
      | inl t ↦ rw t refl
      | inr f ↦ rw f refl
    ]

-- New lines that differ in one cart change the contents of its user alone.
pub lines-Changed :
    (user_id : ℕ) (g : ℕ → ℕ → ℕ) (carts : List Cart) (old lines : List CartLine) (c : Cart)
    (u v : ℕ)
    → IsKeyed (λ x. x.id) carts
    → cart_of user_id carts ≡ some c
    → ((i : ℕ)
        → quantity_in i v lines
          ≡ (if i == c.id then g v (quantity_in i v old) else quantity_in i v old))
    → held_by (cart_of u carts) v lines ≡ (
        if u == user_id
        then g v (held_by (cart_of u carts) v old)
        else held_by (cart_of u carts) v old)
lines-Changed user_id g carts old lines c u v keyed found law = elim (Bool-cases (u == user_id)) [
  | inl same ↦
      let here : cart_of u carts ≡ some c =
        subst (λ i. cart_of i carts ≡ some c) (sym (==→≡ u user_id same)) found in
      rw (same, here) (law c.id ∙ rw (==-refl c.id) refl)
  | inr other ↦ rw other (elsewhere other (cart_of u carts) refl)
]
  where
    elsewhere :
        (u == user_id) ≡ false
        → (o : Option Cart) → cart_of u carts ≡ o
        → held_by o v lines ≡ held_by o v old
    elsewhere other none e = refl
    elsewhere other (some d) e = elim (Bool-cases (d.id == c.id)) [
      | inl same ↦
          let it : d ≡ c = some-injective _ _ (
            sym (cart_of-find u carts d keyed e)
            ∙ subst (λ i. find_cart i carts ≡ some c) (sym (==→≡ d.id c.id same))
                (cart_of-find user_id carts c keyed found)) in
          let of_d =
            subst (λ (x : Cart). (x.user_id == u && is_open x.status) ≡ true) it
              (first-test _ carts d e) in
          let of_c =
            first-test (λ (x : Cart). x.user_id == user_id && is_open x.status) carts c found in
          absurd (ground arith)
      | inr apart ↦ law d.id ∙ rw apart refl
    ]

-- Touching a cart that is there writes its row, and returns it.
pub touch_cart-touches :
    (c : Cart) (now : ℕ) (s : Db)
    → is_there (find_cart c.id s.carts) ≡ true
    → Ends
        (λ a t.
          (t ≡ record s { carts = update (λ x. x.id == c.id) (touched now) s.carts })
          × (find_cart c.id t.carts ≡ some a))
        (λ _ _. ⊥)
        (touch_cart c now s)
unfolding touch_cart
touch_cart-touches c now s there = then_modify _ _ s (
    then_gets _ _ _ (
      Ends-or_raise _ _ _ (λ gone. absurd (kept (find_cart c.id s.carts) there (sym after ∙ gone)))
        λ _ e. (refl, e)))
  where
    after :
        find_cart c.id (update (λ x. x.id == c.id) (touched now) s.carts)
        ≡ elim (find_cart c.id s.carts) [
          | none ↦ none
          | some x ↦ some (if x.id == c.id then touched now x else x)
        ]
    after =
        first-update (λ (x : Cart). x.id == c.id) (λ x. x.id == c.id) (touched now) s.carts
          (λ x. refl)

    kept :
        (o : Option Cart)
        → is_there o ≡ true
        → elim o [ none ↦ none | some x ↦ some (if x.id == c.id then touched now x else x) ] ≡ none
        → ⊥
    kept none k gone = absurd (cc)
    kept (some x) k gone = absurd (cc)

-- A cart that is not there has no lines.
quantity_in_unlinked :
    (carts : List Cart) (lines : List CartLine) (i v : ℕ)
    → All (IsLinked carts) lines
    → find_cart i carts ≡ none
    → quantity_in i v lines ≡ 0
quantity_in_unlinked carts [] i v h gone = refl
quantity_in_unlinked carts (l ∷ ls) i v (h, hs) gone = elim (Bool-cases (l.cart_id == i)) [
  | inl same ↦ absurd (
      cc (
        subst (λ j. is_there (find_cart j carts) ≡ true) (==→≡ _ _ same) h,
        ap (λ (o : Option Cart). is_there o) gone,
      ))
  | inr other ↦ rw other (quantity_in_unlinked carts ls i v hs gone)
]

-- What `get_or_create_active_cart` leaves: the user's active cart, and nobody's contents changed.
pub record Provided (user_id : ℕ) (s : Db) (c : Cart) (t : Db) : Type 0 where
  pub tidy : IsTidyDb t
  pub same : SameContents s t
  pub active : cart_of user_id t.carts ≡ some c
  pub lines : t.cart_lines ≡ s.cart_lines
  pub stock : t.stock ≡ s.stock

create_cart-Provided :
    (uuid4 : ℕ) (user : User) (now : ℕ) (s : Db)
    → IsTidyDb s
    → find_cart uuid4 s.carts ≡ none
    → cart_of user.id s.carts ≡ none
    → Ends (Provided user.id s) (λ _ _. ⊥) (create_cart (new_cart uuid4 user now) s)
unfolding create_cart
create_cart-Provided uuid4 user now s h fresh free = then_gets _ _ s (
    then_allowed _ _ _ s (rw free refl) (
      then_modify _ _ s (
        Ends-pure _ _ (record {
          tidy = create_cart-IsTidy h (new_cart uuid4 user now) fresh;
          same = λ u v.
              rw
                (first-create (λ (c : Cart). c.user_id == u && is_open c.status)
                  (new_cart uuid4 user now) s.carts)
                (of_found u v (cart_of u s.carts));
          active =
              first-create (λ (c : Cart). c.user_id == user.id && is_open c.status)
                (new_cart uuid4 user now) s.carts
              ∙ rw (free, ==-refl user.id) refl;
          lines = refl;
          stock = refl;
        }))))
  where
    of_found :
        (u v : ℕ) (o : Option Cart)
        → held_by
            (elim o [
              | none ↦ (if user.id == u && true then some (new_cart uuid4 user now) else none)
              | some c ↦ some c
            ])
            v
            s.cart_lines
          ≡ held_by o v s.cart_lines
    of_found u v none = elim (Bool-cases (user.id == u && true)) [
      | inl t ↦ rw t (quantity_in_unlinked s.carts s.cart_lines uuid4 v h.linked fresh)
      | inr f ↦ rw f refl
    ]
    of_found u v (some c) = refl

pub get_or_create_active_cart-Provided :
    (uuid4 : ℕ) (user : User) (now : ℕ) (s : Db)
    → IsTidyDb s
    → find_cart uuid4 s.carts ≡ none
    → Ends (Provided user.id s) (λ _ _. ⊥) (get_or_create_active_cart uuid4 user now s)
unfolding get_or_create_active_cart create_if_none
get_or_create_active_cart-Provided uuid4 user now s h fresh =
    then_gets _ _ s (of_found (cart_of user.id s.carts) refl)
  where
    of_found :
        (o : Option Cart)
        → cart_of user.id s.carts ≡ o
        → Ends (Provided user.id s) (λ _ _. ⊥) (create_if_none o uuid4 user now s)
    of_found (some c) e =
        Ends-pure c s
          (record { tidy = h; same = λ u v. refl; active = e; lines = refl; stock = refl })
    of_found none e =
        Ends-catch (λ _ _. ⊥) is_integrity (atomic (create_cart (new_cart uuid4 user now))) _ s
          (Ends-atomic _ s (create_cart-Provided uuid4 user now s h fresh e)) (λ _ _ k _. absurd k)
          (λ _ _ k _. k)
