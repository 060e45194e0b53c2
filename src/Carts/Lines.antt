-- ===== src/Carts/Lines.antt =====
-- One written line of a cart, as a change of what the cart holds.
use visio_backend.Prelude.{
  ℕ, ◌≤◌, ◌≡◌, ◌⊎◌, inl, inr, refl, sym, ◌∙◌, ap, subst, true, false, ◌&&◌, none, some, ◌==◌, ==→≡,
  if◌then◌else◌, arith, Bool-cases, first, Ends, Ends-modify,
}
use visio_backend.Database.{Db}
use visio_backend.Database.Carts.{Cart, CartLine}
use visio_backend.Carts.Services.{
  cart_max_quantity, cart_of, is_at, create_line, save_quantity, new_line,
}
use visio_backend.Carts.Contents.{
  quantity_in, quantity_of, quantity_in-requantify, quantity_in-create,
}
use visio_backend.Carts.Tidy.{IsTidy, requantify-IsTidy, create_line-IsTidy}
use visio_backend.Carts.Effects.{IsTidyDb, cart_of-find}
use visio_backend.Carts.Relining.{Relined}

-- The new quantity of one variant, by its old one.
abbrev pub at_variant : ℕ → (ℕ → ℕ) → ℕ → ℕ → ℕ
at_variant variant_id f v n = if v == variant_id then f n else n

-- One variant's new quantity in one cart.
pub place_law :
    (i c v w : ℕ) (f : ℕ → ℕ) (n : ℕ)
    → (if i == c && v == w then f n else n) ≡ (if i == c then at_variant w f v n else n)
place_law i c v w f n = ground arith

module _ (user_id : ℕ) (c : Cart) (variant_id : ℕ) (s : Db) (h : IsTidyDb s)
    (active : cart_of user_id s.carts ≡ some c) where
  -- A line that is found gets another quantity.
  pub save_quantity-Relined :
      (q now : ℕ) (f : ℕ → ℕ) (l : CartLine)
      → first (is_at c.id variant_id) s.cart_lines ≡ some l
      → 1 ≤ q
      → q ≤ cart_max_quantity
      → f l.quantity ≡ q
      → Ends (λ _. Relined c (at_variant variant_id f) s) (λ _ _. ⊥) (save_quantity l q now s)
  unfolding save_quantity
  save_quantity-Relined q now f l found low high new = Ends-modify _ s (record {
    written = refl;
    tidy = requantify-IsTidy h l.id q now low high;
    law = λ i v.
        quantity_in-requantify s.cart_lines h.lines_keyed c.id variant_id q now l i v found
        ∙ at_place i v (Bool-cases (i == c.id && v == variant_id));
  })
    where
      at_place :
          (i v : ℕ)
          → ((i == c.id && v == variant_id) ≡ true) ⊎ ((i == c.id && v == variant_id) ≡ false)
          → (if i == c.id && v == variant_id then q else quantity_in i v s.cart_lines) ≡ (
              if i == c.id
              then at_variant variant_id f v (quantity_in i v s.cart_lines)
              else quantity_in i v s.cart_lines)
      at_place i v (inl same) =
          let here : quantity_in i v s.cart_lines ≡ l.quantity =
            subst (λ j. quantity_in j v s.cart_lines ≡ l.quantity)
              (sym (==→≡ i c.id (ground arith)))
              (subst (λ j. quantity_in c.id j s.cart_lines ≡ l.quantity)
                (sym (==→≡ v variant_id (ground arith))) (ap quantity_of found)) in
          rw same (sym new ∙ ap f (sym here))
          ∙ place_law i c.id v variant_id f (quantity_in i v s.cart_lines)
      at_place i v (inr other) =
          rw other
            (rw (← place_law i c.id v variant_id f (quantity_in i v s.cart_lines), other) refl)

  -- A new line has the quantity that nothing becomes.
  pub create_line-Relined :
      (uuid4 q now : ℕ) (f : ℕ → ℕ)
      → first (λ l. l.id == uuid4) s.cart_lines ≡ none
      → first (is_at c.id variant_id) s.cart_lines ≡ none
      → 1 ≤ q
      → q ≤ cart_max_quantity
      → f 0 ≡ q
      → Ends
          (λ _. Relined c (at_variant variant_id f) s)
          (λ _ _. ⊥)
          (create_line (new_line uuid4 c variant_id q now) s)
  unfolding create_line
  create_line-Relined uuid4 q now f fresh free low high new = Ends-modify _ s (record {
    written = refl;
    tidy =
        create_line-IsTidy h row fresh free (low, high)
          (rw (cart_of-find user_id s.carts c h.carts_keyed active) refl);
    law = λ i v.
        quantity_in-create row s.cart_lines i v free
        ∙ at_place i v (Bool-cases (i == c.id && v == variant_id));
  })
    where
      row : CartLine
      row = new_line uuid4 c variant_id q now

      at_place :
          (i v : ℕ)
          → ((i == c.id && v == variant_id) ≡ true) ⊎ ((i == c.id && v == variant_id) ≡ false)
          → (if i == c.id && v == variant_id then q else quantity_in i v s.cart_lines) ≡ (
              if i == c.id
              then at_variant variant_id f v (quantity_in i v s.cart_lines)
              else quantity_in i v s.cart_lines)
      at_place i v (inl same) =
          let here : quantity_in i v s.cart_lines ≡ 0 =
            subst (λ j. quantity_in j v s.cart_lines ≡ 0) (sym (==→≡ i c.id (ground arith)))
              (subst (λ j. quantity_in c.id j s.cart_lines ≡ 0)
                (sym (==→≡ v variant_id (ground arith))) (ap quantity_of free)) in
          rw same (sym new ∙ ap f (sym here))
          ∙ place_law i c.id v variant_id f (quantity_in i v s.cart_lines)
      at_place i v (inr other) =
          rw other
            (rw (← place_law i c.id v variant_id f (quantity_in i v s.cart_lines), other) refl)

-- Two changes of a cart's lines, one after the other.
pub Relined-then :
    (c : Cart) (f g k : ℕ → ℕ → ℕ) (s t u : Db)
    → ((v n : ℕ) → g v (f v n) ≡ k v n)
    → Relined c f s t
    → Relined c g t u
    → Relined c k s u
Relined-then c f g k s t u joined r q = record {
  written = q.written ∙ ap (λ (d : Db). record d { cart_lines = u.cart_lines }) r.written;
  tidy = subst (λ cs. IsTidy cs u.cart_lines) (ap (λ (d : Db). d.carts) r.written) q.tidy;
  law = λ i v. q.law i v ∙ at i v (Bool-cases (i == c.id));
}
  where
    at :
        (i v : ℕ)
        → ((i == c.id) ≡ true) ⊎ ((i == c.id) ≡ false)
        → (if i == c.id then g v (quantity_in i v t.cart_lines) else quantity_in i v t.cart_lines)
          ≡ (if i == c.id then k v (quantity_in i v s.cart_lines) else quantity_in i v s.cart_lines)
    at i v (inl same) = rw (r.law i v, same) (joined v _)
    at i v (inr other) = rw (r.law i v, other) refl

-- No change.
pub Relined-same :
    (c : Cart) (g : ℕ → ℕ → ℕ) (s : Db)
    → IsTidyDb s
    → ((i v : ℕ)
        → (i == c.id) ≡ true
        → g v (quantity_in i v s.cart_lines) ≡ quantity_in i v s.cart_lines)
    → Relined c g s s
Relined-same c g s h same = record {
  written = refl;
  tidy = h;
  law = λ i v. at i v (Bool-cases (i == c.id));
}
  where
    at :
        (i v : ℕ)
        → ((i == c.id) ≡ true) ⊎ ((i == c.id) ≡ false)
        → quantity_in i v s.cart_lines
          ≡ (if i == c.id then g v (quantity_in i v s.cart_lines) else quantity_in i v s.cart_lines)
    at i v (inl t) = rw t (sym (same i v t))
    at i v (inr f) = rw f refl

pub Relined-as :
    (c : Cart) (f g : ℕ → ℕ → ℕ) (s t : Db)
    → ((v n : ℕ) → f v n ≡ g v n)
    → Relined c f s t
    → Relined c g s t
Relined-as c f g s t same r = record {
  written = r.written;
  tidy = r.tidy;
  law = λ i v. r.law i v ∙ rw (same v (quantity_in i v s.cart_lines)) refl;
}
