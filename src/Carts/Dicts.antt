-- ===== src/Carts/Dicts.antt =====
-- The dictionaries of `merge_browser_cart` of apps/cart/services.py: what its first loops leave in
-- them.
use visio_backend.Prelude.{
  ℕ, ◌+◌, ◌≤◌, ◌≡◌, ◌⊎◌, inl, inr, refl, ◌∙◌, ap, subst, Bool, true, false, not, ◌&&◌, ◌||◌, List,
  [], ◌∷◌, ◌==◌, ==→≡, ==-refl, if◌then◌else◌, arith, min, leb, Error, Bool-cases, insert_by,
  order_by, All, pos_part, value_error, Ends, Ends-mono, Ends-pure, then_same,
}
use visio_backend.Database.{Db}
use visio_backend.Carts.Services.{cart_max_quantity}
use visio_backend.Carts.Merge.{
  BrowserCartLine, get, put, deduplicate, keys, sorted, is_sold, accept, import_issues,
}
use visio_backend.Carts.Relining.{IsQuantity, IsNoQuantity, validate_quantity-Ends}

abbrev pub elem : ℕ → List ℕ → Bool
elem v [] = false
elem v (w ∷ ws) = w == v || elem v ws

-- how many of a variant the browser's lines ask for together
abbrev pub total : ℕ → List BrowserCartLine → ℕ
total v [] = 0
total v (l ∷ ls) = (if l.variant_id == v then pos_part l.quantity else 0) + total v ls

abbrev pub asked : ℕ → List BrowserCartLine → Bool
asked v [] = false
asked v (l ∷ ls) = l.variant_id == v || asked v ls

-- Some line has no quantity from 1 to CART_MAX_QUANTITY.
abbrev pub HasNoQuantity : List BrowserCartLine → Type 0
HasNoQuantity [] = ⊥
HasNoQuantity (l ∷ ls) = IsNoQuantity l.quantity ⊎ HasNoQuantity ls

abbrev pub InRange : ℕ → Type 0
InRange n = (1 ≤ n) × (n ≤ cart_max_quantity)

abbrev pub IsFilled : List (ℕ × ℕ) → Type 0
IsFilled d = All (λ e. InRange e.1) d

get-put : (k x v : ℕ) (d : List (ℕ × ℕ)) → get v (put k x d) ≡ (if k == v then x else get v d)
get-put k x v [] = refl
get-put k x v ((j, n) ∷ d) = ground (arith, get-put k x v d)

elem-put : (k x v : ℕ) (d : List (ℕ × ℕ)) → elem v (keys (put k x d)) ≡ (k == v || elem v (keys d))
elem-put k x v [] = refl
elem-put k x v ((j, n) ∷ d) = ground (arith, elem-put k x v d)

put-IsFilled : (k x : ℕ) (d : List (ℕ × ℕ)) → InRange x → IsFilled d → IsFilled (put k x d)
put-IsFilled k x [] h fs = (h, tt)
put-IsFilled k x ((j, n) ∷ d) h fs = elim (Bool-cases (j == k)) [
  | inl t ↦ rw t (h, fs.1)
  | inr f ↦ rw f (fs.0, put-IsFilled k x d h fs.1)
]

pub get-InRange :
    (v : ℕ) (d : List (ℕ × ℕ)) → IsFilled d → elem v (keys d) ≡ true → InRange (get v d)
get-InRange v [] fs h = absurd (cc)
get-InRange v ((j, n) ∷ d) fs h = elim (Bool-cases (j == v)) [
  | inl t ↦ rw t fs.0
  | inr f ↦ rw f (get-InRange v d fs.1 (rw f at h))
]

pub get-absent : (v : ℕ) (d : List (ℕ × ℕ)) → elem v (keys d) ≡ false → get v d ≡ 0
get-absent v [] h = refl
get-absent v ((j, n) ∷ d) h = ground (arith, get-absent v d)

elem-insert_by : (v w : ℕ) (ws : List ℕ) → elem v (insert_by leb w ws) ≡ (w == v || elem v ws)
elem-insert_by v w [] = refl
elem-insert_by v w (u ∷ us) = ground (arith, elem-insert_by v w us)

elem-order_by : (v : ℕ) (ws : List ℕ) → elem v (order_by leb ws) ≡ elem v ws
elem-order_by v [] = refl
elem-order_by v (w ∷ ws) = elem-insert_by v w (order_by leb ws) ∙ rw (elem-order_by v ws) refl

-- Sorting the keys loses none and adds none.
pub elem-sorted : (v : ℕ) (d : List (ℕ × ℕ)) → elem v (sorted d) ≡ elem v (keys d)
elem-sorted v d = elem-order_by v (keys d)

-- What the loop over the browser's lines has made of the dictionary `d`.
pub record Deduplicated (lines : List BrowserCartLine) (d e : List (ℕ × ℕ)) : Type 0 where
  pub filled : IsFilled e
  pub amounts : (v : ℕ) → get v e ≡ min cart_max_quantity (get v d + total v lines)
  pub named : (v : ℕ) → elem v (keys e) ≡ (elem v (keys d) || asked v lines)

module _ {E : Error → Db → Type 0} where
  pub deduplicate-Deduplicated :
      (lines : List BrowserCartLine) (d : List (ℕ × ℕ)) (s : Db)
      → IsFilled d
      → ((v : ℕ) → get v d ≤ cart_max_quantity)
      → (HasNoQuantity lines → E value_error s)
      → Ends (λ e t. (t ≡ s) × Deduplicated lines d e) E (deduplicate lines d s)
  unfolding deduplicate
  deduplicate-Deduplicated [] d s filled small refused = Ends-pure d s (
    refl,
    record { filled = filled; amounts = λ v. omega (arith, small v); named = λ v. ground arith },
  )
  deduplicate-Deduplicated (l ∷ ls) d s filled small refused =
      then_same (IsQuantity l.quantity) _ _ s
        (validate_quantity-Ends l.quantity s λ bad. refused (inl bad))
        λ q h.
          let x : ℕ = min cart_max_quantity (get l.variant_id d + q) in
          let low = h.low in
          let of_put = λ (v : ℕ). get-put l.variant_id x v d in
          let same : pos_part l.quantity ≡ q = ap pos_part h.same in
          Ends-mono _ _ _ _ _
            (λ e t r. (
              r.0,
              record {
                filled = r.1.filled;
                amounts = λ v.
                    r.1.amounts v ∙ rw (of_put v, same) (joined l.variant_id v q d (total v ls));
                named = λ v. r.1.named v ∙ rw (elem-put l.variant_id x v d) (ground arith);
              },
            ))
            (λ _ _ k. k)
            (deduplicate-Deduplicated ls (put l.variant_id x d) s
              (put-IsFilled l.variant_id x d (ground arith, ground arith) filled)
              (λ v. rw (of_put v) (ground (arith, small v))) λ bad. refused (inr bad))
    where
      joined :
          (w v q : ℕ) (d : List (ℕ × ℕ)) (n : ℕ)
          → min cart_max_quantity
              ((if w == v then min cart_max_quantity (get w d + q) else get v d) + n)
            ≡ min cart_max_quantity (get v d + ((if w == v then q else 0) + n))
      joined w v q d n = elim (Bool-cases (w == v)) [
        | inl t ↦ rw (t, ==→≡ w v t) (omega arith)
        | inr f ↦ rw f (omega arith)
      ]

-- The accepted quantities are those of the keys that are for sale.
pub record Accepted (db : Db) (vs : List ℕ) (d a e : List (ℕ × ℕ)) : Type 0 where
  pub filled : IsFilled e
  pub amounts : (v : ℕ) → get v e ≡ (if elem v vs && is_sold db v then get v d else get v a)

pub accept-Accepted :
    (db : Db) (vs : List ℕ) (d a : List (ℕ × ℕ))
    → ((v : ℕ) → elem v vs ≡ true → InRange (get v d))
    → IsFilled a
    → Accepted db vs d a (accept db vs d a)
accept-Accepted db [] d a range filled = record { filled = filled; amounts = λ v. refl }
accept-Accepted db (w ∷ ws) d a range filled = elim (Bool-cases (is_sold db w)) [
  | inl t ↦
      let rest =
        accept-Accepted db ws d (put w (get w d) a) (λ v h. range v (ground arith))
          (put-IsFilled w _ a (range w (ground arith)) filled) in
      rw t (record {
        filled = rest.filled;
        amounts = λ v. rest.amounts v ∙ rw (get-put w (get w d) v a) (of_sold v t);
      })
  | inr f ↦
      let rest = accept-Accepted db ws d a (λ v h. range v (ground arith)) filled in
      rw f (record { filled = rest.filled; amounts = λ v. rest.amounts v ∙ of_unsold v f })
]
  where
    of_sold :
        (v : ℕ)
        → is_sold db w ≡ true
        → (if elem v ws && is_sold db v then get v d else (if w == v then get w d else get v a))
          ≡ (if elem v (w ∷ ws) && is_sold db v then get v d else get v a)
    of_sold v t = elim (Bool-cases (w == v)) [
      | inl same ↦
          subst
            (λ j.
              (if elem j ws && is_sold db j then get j d else (if w == j then get w d else get j a))
              ≡ (if elem j (w ∷ ws) && is_sold db j then get j d else get j a))
            (==→≡ _ _ same) (rw (==-refl, t) (ground arith))
      | inr f ↦ rw f refl
    ]

    of_unsold :
        (v : ℕ)
        → is_sold db w ≡ false
        → (if elem v ws && is_sold db v then get v d else get v a)
          ≡ (if elem v (w ∷ ws) && is_sold db v then get v d else get v a)
    of_unsold v t = elim (Bool-cases (w == v)) [
      | inl same ↦
          subst
            (λ j.
              (if elem j ws && is_sold db j then get j d else get j a)
              ≡ (if elem j (w ∷ ws) && is_sold db j then get j d else get j a))
            (==→≡ _ _ same) (rw t (ground arith))
      | inr f ↦ rw f refl
    ]

-- The issues name the keys that are not for sale.
pub elem-import_issues :
    (db : Db) (v : ℕ) (vs : List ℕ)
    → elem v (import_issues db vs) ≡ (elem v vs && not (is_sold db v))
elem-import_issues db v [] = refl
elem-import_issues db v (w ∷ ws) = elim (Bool-cases (w == v)) [
  | inl same ↦
      subst (λ j. elem j (import_issues db (w ∷ ws)) ≡ (elem j (w ∷ ws) && not (is_sold db j)))
        (==→≡ _ _ same) (of_self (elem-import_issues db w ws))
  | inr f ↦ rw f (elim (Bool-cases (is_sold db w)) [
    | inl t ↦ rw t (elem-import_issues db v ws)
    | inr u ↦ rw (u, f) (elem-import_issues db v ws)
  ])
]
  where
    of_self :
        elem w (import_issues db ws) ≡ (elem w ws && not (is_sold db w))
        → elem w (import_issues db (w ∷ ws)) ≡ (elem w (w ∷ ws) && not (is_sold db w))
    of_self h = elim (Bool-cases (is_sold db w)) [
      | inl t ↦ rw (t, ==-refl) (h ∙ rw t (ground arith))
      | inr u ↦ rw (u, ==-refl) refl
    ]
