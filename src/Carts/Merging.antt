-- ===== src/Carts/Merging.antt =====
-- What `merge_browser_cart` of apps/cart/services.py does to what the users' carts hold.
use visio_backend.Prelude.{
  ℕ, suc, ◌≤◌, ◌<◌, ◌≡◌, ◌⊎◌, inl, inr, refl, sym, ◌∙◌, ap, subst, Bool, true, false, not, ◌&&◌,
  Option, none, some, List, [], ◌∷◌, ◌==◌, ==→≡, ==-refl, if◌then◌else◌, arith, min, max,
  Bool-cases, first, first-update, first-create, first-All, ◌>>=◌, value_error, Ends, Ends-ok,
  Ends-mono, Ends-pure, Ends-bind, Ends-branch, Ends-atomic, then_same, then_gets, then_ok,
  then_raise_if,
}
use visio_backend.Database.{Db}
use visio_backend.Database.Accounts.{User}
use visio_backend.Database.Carts.{Cart, CartLine}
use visio_backend.Carts.Services.{
  cart_max_quantity, cart_of, find_cart, is_at, requantified, new_line, save_quantity, create_line,
}
use visio_backend.Carts.Merge.{
  max_import_lines, length, BrowserCartLine, get, sorted, is_sold, accept, merge_line, merge_lines,
  merge_browser_cart,
}
use visio_backend.Carts.Dicts.{
  elem, total, asked, HasNoQuantity, InRange, get-InRange, get-absent, elem-sorted, Deduplicated,
  deduplicate-Deduplicated, Accepted, accept-Accepted, elem-import_issues,
}
use visio_backend.Carts.Contents.{quantity_in}
use visio_backend.Carts.Tidy.{IsTidy, IsBounded}
use visio_backend.Carts.Effects.{IsTidyDb, get_or_create_active_cart-Provided, Provided}
use visio_backend.Carts.Lines.{
  at_variant, save_quantity-Relined, create_line-Relined, Relined-then, Relined-same, Relined-as,
}
use visio_backend.Carts.Relining.{
  Refines, Relined, locked_cart-same, touch-Refines, untouched-Refines, Provided-Refines,
}

-- No line has one of the keys from `i` on.
abbrev pub FreshFrom : (ℕ → ℕ) → ℕ → Db → Type 0
FreshFrom uuid4 i db = (j : ℕ) → i ≤ j → first (λ l. l.id == uuid4 j) db.cart_lines ≡ none

module _ (uuid4 : ℕ → ℕ) (distinct : (i j : ℕ) → uuid4 i ≡ uuid4 j → i ≡ j) (user_id : ℕ) (c : Cart)
    (now : ℕ) where
  merge_line-Relined :
      (o : Option CartLine) (i v x : ℕ) (s : Db)
      → IsTidyDb s
      → cart_of user_id s.carts ≡ some c
      → FreshFrom uuid4 i s
      → InRange x
      → first (is_at c.id v) s.cart_lines ≡ o
      → Ends
          (λ _ t. Relined c (at_variant v (λ n. max n x)) s t × FreshFrom uuid4 (suc i) t)
          (λ _ _. ⊥)
          (merge_line o (uuid4 i) c v x now s)
  unfolding merge_line save_quantity create_line ◌>>=◌
  merge_line-Relined none i v x s h active fresh (low, high) found = Ends-pure true _ (
    Ends-ok
        (create_line-Relined user_id c v s h active (uuid4 i) x now (λ n. max n x)
          (fresh i (omega arith)) found low high (omega arith))
        tt _ refl,
    λ j le.
        first-create (λ (l : CartLine). l.id == uuid4 j) (new_line (uuid4 i) c v x now) s.cart_lines
        ∙ rw (fresh j (omega (arith, le))) (elim (Bool-cases (uuid4 i == uuid4 j)) [
          | inl t ↦ absurd (omega (arith, le, distinct i j (==→≡ _ _ t)))
          | inr f ↦ rw f refl
        ]),
  )
  merge_line-Relined (some l) i v x s h active fresh (low, high) found =
      Ends-branch (max l.quantity x == l.quantity) _ _ s
        (λ same.
          Ends-pure false s
            (Relined-same c _ s h (λ k w e. kept same k w e), λ j le. fresh j (omega (arith, le))))
        λ other. Ends-pure true _ (
          Ends-ok
              (save_quantity-Relined user_id c v s h active (max l.quantity x) now (λ n. max n x) l
                found (omega (arith, low)) bound refl)
              tt _ refl,
          λ j le.
              first-update (λ (y : CartLine). y.id == uuid4 j) (λ y. y.id == l.id)
                (requantified (max l.quantity x) now) s.cart_lines (λ y. refl)
              ∙ rw (fresh j (omega (arith, le))) refl,
        )
    where
      bound : max l.quantity x ≤ cart_max_quantity
      bound =
          omega (arith, high, (first-All IsBounded (is_at c.id v) s.cart_lines l h.bounded found).1)

      kept :
          (max l.quantity x == l.quantity) ≡ true
          → (k w : ℕ) → (k == c.id) ≡ true
          → at_variant v (λ n. max n x) w (quantity_in k w s.cart_lines)
            ≡ quantity_in k w s.cart_lines
      kept same k w e = elim (Bool-cases (w == v)) [
        | inr f ↦ rw f refl
        | inl t ↦
            let here : quantity_in k w s.cart_lines ≡ l.quantity =
              subst (λ j. quantity_in j w s.cart_lines ≡ l.quantity) (sym (==→≡ _ _ e))
                (subst (λ j. quantity_in c.id j s.cart_lines ≡ l.quantity) (sym (==→≡ _ _ t))
                  (rw found refl)) in
            rw (t, here) (==→≡ _ _ same)
      ]

  merge_lines-Relined :
      (vs : List ℕ) (i : ℕ) (accepted : List (ℕ × ℕ)) (s : Db)
      → IsTidyDb s
      → cart_of user_id s.carts ≡ some c
      → FreshFrom uuid4 i s
      → ((v : ℕ) → elem v vs ≡ true → InRange (get v accepted))
      → Ends
          (λ _ t. Relined c (λ v n. if elem v vs then max n (get v accepted) else n) s t)
          (λ _ _. ⊥)
          (merge_lines uuid4 i c vs accepted now s)
  unfolding merge_lines
  merge_lines-Relined [] i accepted s h active fresh range =
      Ends-pure false s (Relined-same c _ s h λ k v _. refl)
  merge_lines-Relined (w ∷ ws) i accepted s h active fresh range = then_gets _ _ s (
      Ends-bind _ _ _ s
        (merge_line-Relined _ i w (get w accepted) s h active fresh (range w (rw ==-refl refl))
          refl)
        λ here t r.
          let carts : t.carts ≡ s.carts = ap (λ (d : Db). d.carts) r.0.written in
          Ends-bind _ _ _ t
            (merge_lines-Relined ws (suc i) accepted t
              (subst (λ cs. IsTidy cs t.cart_lines) (sym carts) r.0.tidy) (rw carts active) r.1
              (λ v e. range v (ground arith)))
            λ rest u q. Ends-pure _ u (Relined-then c _ _ _ s t u joined r.0 q))
    where
      joined :
          (v n : ℕ)
          → (if elem v ws
              then max (at_variant w (λ m. max m (get w accepted)) v n) (get v accepted)
              else at_variant w (λ m. max m (get w accepted)) v n)
            ≡ (if elem v (w ∷ ws) then max n (get v accepted) else n)
      joined v n = elim (Bool-cases (w == v)) [
        | inl same ↦
            subst
              (λ j.
                (if elem j ws
                  then max (at_variant w (λ m. max m (get w accepted)) j n) (get j accepted)
                  else at_variant w (λ m. max m (get w accepted)) j n)
                ≡ (if elem j (w ∷ ws) then max n (get j accepted) else n))
              (==→≡ _ _ same) (rw ==-refl (of_elem (elem w ws)))
        | inr f ↦ (let sides : (v == w) ≡ false = ground arith in rw (f, sides) refl)
      ]
        where
          of_elem :
              (b : Bool)
              → (if b
                  then max (max n (get w accepted)) (get w accepted)
                  else max n (get w accepted))
                ≡ max n (get w accepted)
          of_elem true = omega arith
          of_elem false = refl

-- the quantity that an import leaves
abbrev pub imported : Db → List BrowserCartLine → ℕ → ℕ → ℕ
imported db raw_lines v n =
    if is_sold db v then max n (min cart_max_quantity (total v raw_lines)) else n

-- The accepted quantities are what the import leaves.
module _ (s : Db) (raw_lines : List BrowserCartLine) (d : List (ℕ × ℕ))
    (dd : Deduplicated raw_lines [] d) where
  sorted-Accepted : Accepted s (sorted d) d [] (accept s (sorted d) d [])
  sorted-Accepted =
      accept-Accepted s (sorted d) d []
        (λ v e. get-InRange v d dd.filled (sym (elem-sorted v d) ∙ e)) tt

  accepted-InRange :
      (v : ℕ)
      → elem v (sorted (accept s (sorted d) d [])) ≡ true
      → InRange (get v (accept s (sorted d) d []))
  accepted-InRange v e =
      get-InRange v _ sorted-Accepted.filled (sym (elem-sorted v (accept s (sorted d) d [])) ∙ e)

  accepted-imported :
      (v n : ℕ)
      → (if elem v (sorted (accept s (sorted d) d []))
          then max n (get v (accept s (sorted d) d []))
          else n)
        ≡ imported s raw_lines v n
  accepted-imported v n =
      of_tests _ _ (is_sold s v) _ _ (sorted-Accepted.amounts v) (dd.amounts v ∙ omega arith)
        (λ e.
          get-absent v (accept s (sorted d) d [])
            (sym (elem-sorted v (accept s (sorted d) d [])) ∙ e))
        (λ e. get-absent v d (sym (elem-sorted v d) ∙ e))
    where
      of_tests :
          (in_accepted in_all sold : Bool) (x y : ℕ)
          → x ≡ (if in_all && sold then y else 0)
          → y ≡ min cart_max_quantity (total v raw_lines)
          → (in_accepted ≡ false → x ≡ 0)
          → (in_all ≡ false → y ≡ 0)
          → (if in_accepted then max n x else n)
            ≡ (if sold then max n (min cart_max_quantity (total v raw_lines)) else n)
      of_tests in_accepted in_all sold x y e f g k = ground (arith, g, k)

-- From tidy tables, with keys that are fresh and differ from each other, `merge_browser_cart`
-- either returns or changes nothing. If it returns, the tables are tidy; the user has max(n,
-- min(99, t)) of each variant for sale, where there were n and the browser's lines ask for t
-- together; every other amount of every user is unchanged; the returned cart is the user's active
-- one; and the issues name the variants that are asked for and not for sale, and no other. If it
-- raises, that is a ValueError, and there are more than 100 lines or one whose quantity is none
-- from 1 to 99.
pub merge_browser_cart-Refines :
    (uuid4 : ℕ → ℕ) (user : User) (raw_lines : List BrowserCartLine) (now : ℕ) (s : Db)
    → IsTidyDb s
    → find_cart (uuid4 0) s.carts ≡ none
    → FreshFrom uuid4 1 s
    → ((i j : ℕ) → uuid4 i ≡ uuid4 j → i ≡ j)
    → Ends
        (λ r t.
          Refines user.id (imported s raw_lines) s r.0 t
          × ((v : ℕ) → elem v r.1 ≡ (asked v raw_lines && not (is_sold s v))))
        (λ e t.
          (t ≡ s)
          × (e ≡ value_error)
          × ((max_import_lines < length raw_lines) ⊎ HasNoQuantity raw_lines))
        (merge_browser_cart uuid4 user raw_lines now s)
unfolding merge_browser_cart
merge_browser_cart-Refines uuid4 user raw_lines now s h fresh new distinct =
    then_raise_if _ _ _ s (λ many. (refl, refl, inl (ground arith)))
      λ _.
        then_same (Deduplicated raw_lines []) _ _ s
          (deduplicate-Deduplicated raw_lines [] s tt (λ v. omega arith)
            λ bad. (refl, refl, inr bad))
          λ d dd. then_gets _ _ s (
            then_gets _ _ s (
              Ends-bind (Provided user.id s) _ _ s
                (Ends-mono _ _ _ _ _ (λ _ _ k. k) (λ _ _ k. absurd k)
                  (get_or_create_active_cart-Provided (uuid4 0) user now s h fresh))
                λ c t p. Ends-atomic _ t (
                  then_ok _ _ t (locked_cart-same user.id c t p.tidy p.active) (
                    Ends-bind (λ _. Relined c (imported s raw_lines) t) _ _ t
                      (Ends-mono _ _ _ _ _
                        (λ _ w r.
                          Relined-as c _ (imported s raw_lines) t w
                            (accepted-imported s raw_lines d dd) r)
                        (λ _ _ k. absurd k)
                        (merge_lines-Relined uuid4 distinct user.id c now
                          (sorted (accept s (sorted d) d [])) 1 (accept s (sorted d) d []) t p.tidy
                          p.active (λ j le. rw p.lines (new j le))
                          (accepted-InRange s raw_lines d dd)))
                      λ changed w r.
                        Ends-bind (Refines user.id (imported s raw_lines) s) _ _ w
                          (Ends-branch _ _ _ w
                            (λ _.
                              Ends-mono _ _ _ _ _
                                (λ a u k. Provided-Refines user.id _ s t c a u p k)
                                (λ _ _ k. absurd k)
                                (touch-Refines user.id _ c now t w p.tidy p.active r))
                            λ _. Ends-pure c w (
                              Provided-Refines user.id _ s t c c w p
                                (untouched-Refines user.id _ c t w p.tidy p.active r)))
                          λ left u k. Ends-pure _ u (
                            k,
                            λ v.
                                elem-import_issues s v (sorted d)
                                ∙ rw (elem-sorted v d, dd.named v) refl,
                          )))))
