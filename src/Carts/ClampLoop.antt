-- ===== src/Carts/ClampLoop.antt =====
-- What `validate_and_clamp_cart` of apps/cart/services.py does in its loop.
use visio_backend.Prelude.{
  ℕ, ◌≡◌, inl, inr, refl, sym, ◌∙◌, ap, subst, Bool, true, false, ◌&&◌, ◌||◌, Option, none, some,
  List, [], ◌∷◌, ◌++◌, ◌==◌, ==→≡, ==-refl, if◌then◌else◌, arith, ltb, Bool-cases, first-update,
  All, All-both, IsDistinct, first-none-All, ◌>>=◌, Ends, Ends-ok, Ends-pure, Ends-bind, then_gets,
}
use visio_backend.Commerce.Models.{find_variant}
use visio_backend.Database.{Db}
use visio_backend.Database.Carts.{Cart, CartLine}
use visio_backend.Carts.Services.{cart_of, is_at, save_quantity, requantified, requantify}
use visio_backend.Carts.Clamp.{clamp_of, clamp_line, clamp_lines}
use visio_backend.Carts.Contents.{quantity_in}
use visio_backend.Carts.Tidy.{IsTidy, IsBounded}
use visio_backend.Carts.Effects.{IsTidyDb}
use visio_backend.Carts.Lines.{
  at_variant, save_quantity-Relined, Relined-then, Relined-same, Relined-as,
}
use visio_backend.Carts.Relining.{Relined}
use visio_backend.Carts.Limits.{limit, capped, clamped, Caps, clamp_variant-Caps}
use visio_backend.Carts.Looked.{has, Current}

-- the quantity that the list of adjustments reports
abbrev pub reported : ℕ → List (ℕ × ℕ) → Option ℕ
reported v [] = none
reported v ((w, q) ∷ rest) = if w == v then some q else reported v rest

-- the report of a variant that had `n`, `b` telling whether it is looked at
abbrev pub report : Bool → Option ℕ → ℕ → Option ℕ
report b m n = if b && ltb (capped m n) n then some (capped m n) else none

abbrev or_else : Option ℕ → Option ℕ → Option ℕ
or_else none o = o
or_else (some q) o = some q

reported-++ :
    (v : ℕ) (xs ys : List (ℕ × ℕ)) → reported v (xs ++ ys) ≡ or_else (reported v xs) (reported v ys)
reported-++ v [] ys = refl
reported-++ v ((w, q) ∷ xs) ys = elim (Bool-cases (w == v)) [
  | inl t ↦ rw t refl
  | inr f ↦ rw f (reported-++ v xs ys)
]

capped-capped :
    (a b : Bool) (m : Option ℕ) (n : ℕ)
    → (if b then capped m (if a then capped m n else n) else (if a then capped m n else n))
      ≡ (if a || b then capped m n else n)
capped-capped true true none n = refl
capped-capped true true (some k) n = omega arith
capped-capped true false m n = refl
capped-capped false true m n = refl
capped-capped false false m n = refl

report-report :
    (a b : Bool) (m : Option ℕ) (n : ℕ)
    → or_else (report a m n) (report b m (if a then capped m n else n)) ≡ report (a || b) m n
report-report true true none n = ground arith
report-report true true (some k) n = ground arith
report-report true false none n = ground arith
report-report true false (some k) n = ground arith
report-report false true m n = refl
report-report false false m n = refl

-- What the loop over some lines of the cart has done: it has capped the variants of those lines,
-- and reports each that it has changed.
pub record Clamped (c : Cart) (now : ℕ) (looked : ℕ → Bool) (s : Db) (adjusted : List (ℕ × ℕ))
    (t : Db) : Type 0 where
  pub relined : Relined c (λ v n. if looked v then clamped now s.stock v n else n) s t
  pub reports :
      (v : ℕ)
      → reported v adjusted
        ≡ report (looked v) (limit v now s.stock) (quantity_in c.id v s.cart_lines)

Clamped-then :
    (c : Cart) (now : ℕ) (a b d : ℕ → Bool) (s t u : Db) (xs ys : List (ℕ × ℕ))
    → ((v : ℕ) → (a v || b v) ≡ d v)
    → Clamped c now a s xs t
    → Clamped c now b t ys u
    → Clamped c now d s (xs ++ ys) u
Clamped-then c now a b d s t u xs ys joined r q = record {
  relined =
      Relined-then c _ _ _ s t u
        (λ v n. rw stock (capped-capped (a v) (b v) (limit v now s.stock) n ∙ rw (joined v) refl))
        r.relined q.relined;
  reports = λ v.
      reported-++ v xs ys
      ∙ rw (r.reports v, q.reports v, stock, r.relined.law c.id v, ==-refl c.id)
          (report-report (a v) (b v) (limit v now s.stock) (quantity_in c.id v s.cart_lines)
            ∙ rw (joined v) refl);
}
  where
    stock : t.stock ≡ s.stock
    stock = ap (λ (d : Db). d.stock) r.relined.written

module _ (user_id : ℕ) (c : Cart) (now : ℕ) where
  -- The lines of other keys are where they were.
  abbrev Apart : CartLine → Db → Db → Type 0
  Apart l s t =
      (r : CartLine)
      → (r.id == l.id) ≡ false
      → Current c.id s.cart_lines r
      → Current c.id t.cart_lines r

  requantify-Current :
      (l : CartLine) (q : ℕ) (lines : List CartLine) (r : CartLine)
      → (r.id == l.id) ≡ false
      → Current c.id lines r
      → Current c.id (requantify l.id q now lines) r
  requantify-Current l q lines r other e =
      first-update (is_at c.id r.variant_id) (λ x. x.id == l.id) (requantified q now) lines
        (λ x. refl)
      ∙ rw (e, other) refl

  clamp_line-Clamped :
      (o : Option ℕ) (l : CartLine) (s : Db)
      → IsTidyDb s
      → cart_of user_id s.carts ≡ some c
      → Current c.id s.cart_lines l
      → Caps (limit l.variant_id now s.stock) l.quantity o
      → Ends
          (λ adjusted t. Clamped c now (λ v. l.variant_id == v) s adjusted t × Apart l s t)
          (λ _ _. ⊥)
          (clamp_line o l now s)
  unfolding clamp_line save_quantity ◌>>=◌
  clamp_line-Clamped o l s h active here caps = of_clamp o caps
    where
      held : (v : ℕ) → (l.variant_id == v) ≡ true → quantity_in c.id v s.cart_lines ≡ l.quantity
      held v same =
          subst (λ j. quantity_in c.id j s.cart_lines ≡ l.quantity) (==→≡ _ _ same) (rw here refl)

      kept :
          Caps (limit l.variant_id now s.stock) l.quantity none
          → (v : ℕ) → (l.variant_id == v) ≡ true
          → capped (limit v now s.stock) (quantity_in c.id v s.cart_lines)
            ≡ quantity_in c.id v s.cart_lines
      kept caps v same =
          rw (held v same)
            (subst (λ j. capped (limit j now s.stock) l.quantity ≡ l.quantity) (==→≡ _ _ same) caps)

      -- the change of the line's variant
      by_cap : ℕ → ℕ → ℕ
      by_cap v n = if l.variant_id == v then clamped now s.stock v n else n

      as_line :
          (v n : ℕ) → at_variant l.variant_id (clamped now s.stock l.variant_id) v n ≡ by_cap v n
      as_line v n = elim (Bool-cases (l.variant_id == v)) [
        | inl same ↦
            subst (λ j. at_variant l.variant_id (clamped now s.stock l.variant_id) j n ≡ by_cap j n)
              (==→≡ _ _ same) (rw ==-refl refl)
        | inr other ↦
            (let sides : (v == l.variant_id) ≡ false = ground arith in rw (other, sides) refl)
      ]

      of_clamp :
          (o : Option ℕ)
          → Caps (limit l.variant_id now s.stock) l.quantity o
          → Ends
              (λ adjusted t. Clamped c now (λ v. l.variant_id == v) s adjusted t × Apart l s t)
              (λ _ _. ⊥)
              (clamp_line o l now s)
      of_clamp none caps = Ends-pure [] s (
        record {
          relined = Relined-same c by_cap s h λ i v at_c. elim (Bool-cases (l.variant_id == v)) [
            | inl same ↦ rw same (
                subst
                  (λ j.
                    clamped now s.stock v (quantity_in j v s.cart_lines)
                    ≡ quantity_in j v s.cart_lines)
                  (sym (==→≡ _ _ at_c)) (kept caps v same))
            | inr other ↦ rw other refl
          ];
          reports = λ v. elim (Bool-cases (l.variant_id == v)) [
            | inl same ↦ rw (same, kept caps v same) (ground arith)
            | inr other ↦ rw other refl
          ];
        },
        λ r _ e. e,
      )
      of_clamp (some q) caps =
          let left : Db = record s { cart_lines = requantify l.id q now s.cart_lines } in
          let saved : Relined c (at_variant l.variant_id (clamped now s.stock l.variant_id)) s
              left =
            Ends-ok
              (save_quantity-Relined user_id c l.variant_id s h active q now
                (clamped now s.stock l.variant_id) l here caps.1 caps.2 caps.0)
              tt left refl in
          Ends-pure ((l.variant_id, q) ∷ []) left (
            record {
              relined = Relined-as c _ by_cap s left as_line saved;
              reports = λ v. elim (Bool-cases (l.variant_id == v)) [
                | inl same ↦
                    rw (same, held v same)
                      (subst (λ j. some q ≡ report true (limit j now s.stock) l.quantity)
                        (==→≡ _ _ same) (rw caps.0 (ground (arith, caps.3))))
                | inr other ↦ rw other refl
              ];
            },
            λ r other e. requantify-Current l q s.cart_lines r other e,
          )

  pub clamp_lines-Clamped :
      (ls : List CartLine) (s : Db)
      → IsTidyDb s
      → cart_of user_id s.carts ≡ some c
      → IsDistinct (λ x y. y.id == x.id) ls
      → All IsBounded ls
      → All (Current c.id s.cart_lines) ls
      → Ends
          (λ adjusted t. Clamped c now (λ v. has v ls) s adjusted t)
          (λ _ _. ⊥)
          (clamp_lines ls now s)
  unfolding clamp_lines
  clamp_lines-Clamped [] s h active keyed bounded current =
      Ends-pure [] s (record { relined = Relined-same c _ s h λ i v _. refl; reports = λ v. refl })
  clamp_lines-Clamped (l ∷ ls) s h active keyed bounded current = then_gets _ _ s (
      Ends-bind _ _ _ s
        (clamp_line-Clamped (clamp_of now l s.stock) l s h active current.0
          (clamp_variant-Caps (find_variant l.variant_id s.stock) now l s.stock bounded.0))
        λ xs t r.
          let carts : t.carts ≡ s.carts = ap (λ (d : Db). d.carts) r.0.relined.written in
          Ends-bind _ _ _ t
            (clamp_lines-Clamped ls t
              (subst (λ cs. IsTidy cs t.cart_lines) (sym carts) r.0.relined.tidy) (rw carts active)
              keyed.1 bounded.1
              (All-both ls (λ x apart e. r.1 x apart e) (first-none-All _ ls keyed.0) current.1))
            λ ys u q.
              Ends-pure (xs ++ ys) u (Clamped-then c now _ _ _ s t u xs ys (λ v. refl) r.0 q))
