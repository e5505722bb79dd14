-- ===== src/Base/Table.antt =====
-- A database table as the list of its rows in the order of its key, and what the statements do:
-- the first match, an update and a deletion by a condition. A table with a primary key holds a key
-- once (`Keyed`).
use alertthread.Base.{
  ◌≡◌, refl, inl, inr, Bool, true, false, ◌&&◌, ◌||◌, Option, none, some, List, [], ◌∷◌, ◌++◌,
  arith, if◌then◌else◌, Bool-cases, is_some, any, All,
}

module _ {ℓ} {A : Type ℓ} where
  abbrev pub select_one : (A → Bool) → List A → Option A
  select_one p [] = none
  select_one p (x ∷ xs) = if p x then some x else select_one p xs

  abbrev pub select_where : (A → Bool) → List A → List A
  select_where p [] = []
  select_where p (x ∷ xs) = let rest = select_where p xs in if p x then x ∷ rest else rest

  abbrev pub update_where : (A → Bool) → (A → A) → List A → List A
  update_where p f [] = []
  update_where p f (x ∷ xs) = (if p x then f x else x) ∷ update_where p f xs

  abbrev pub delete_where : (A → Bool) → List A → List A
  delete_where p [] = []
  delete_where p (x ∷ xs) = let rest = delete_where p xs in if p x then rest else x ∷ rest

module _ {ℓ} {A : Type ℓ} where
  pub any-append : (p : A → Bool) (xs ys : List A) → any p (xs ++ ys) ≡ (any p xs || any p ys)
  any-append p [] ys = refl
  any-append p (x ∷ xs) ys = ground (arith, any-append p xs ys)

  pub any-imp :
      (p q : A → Bool) (xs : List A)
      → ((x : A) → p x ≡ true → q x ≡ true)
      → any p xs ≡ true
      → any q xs ≡ true
  any-imp p q (x ∷ xs) f h = ground (arith, f x, any-imp p q xs f)
  any-imp p q [] f h = cc

  -- An update that keeps a test keeps what it says of the table.
  pub any-update_where :
      (p q : A → Bool) (f : A → A) (xs : List A)
      → ((x : A) → p (f x) ≡ p x)
      → any p (update_where q f xs) ≡ any p xs
  any-update_where p q f [] h = refl
  any-update_where p q f (x ∷ xs) h = ground (arith, h x, any-update_where p q f xs h)

  -- An update that makes a test pass no less often.
  pub any-update_where_mono :
      (p q : A → Bool) (f : A → A) (xs : List A)
      → ((x : A) → p x ≡ true → p (f x) ≡ true)
      → any p xs ≡ true
      → any p (update_where q f xs) ≡ true
  any-update_where_mono p q f [] h e = e
  any-update_where_mono p q f (x ∷ xs) h e = ground (arith, h x, any-update_where_mono p q f xs h)

  -- An update that makes another test pass wherever the first did.
  pub any-update_where_to :
      (p p' q : A → Bool) (f : A → A) (xs : List A)
      → ((x : A) → p x ≡ true → p' (if q x then f x else x) ≡ true)
      → any p xs ≡ true
      → any p' (update_where q f xs) ≡ true
  any-update_where_to p p' q f [] h e = cc
  any-update_where_to p p' q f (x ∷ xs) h e = ground (arith, h x, any-update_where_to p p' q f xs h)

  -- The same where no row passes a third test.
  pub any-update_where_unless :
      (s p p' q : A → Bool) (f : A → A) (xs : List A)
      → ((x : A) → s x ≡ false → p x ≡ true → p' (if q x then f x else x) ≡ true)
      → any s xs ≡ false
      → any p xs ≡ true
      → any p' (update_where q f xs) ≡ true
  any-update_where_unless s p p' q f [] h n e = cc
  any-update_where_unless s p p' q f (x ∷ xs) h n e =
      ground (arith, h x, any-update_where_unless s p p' q f xs h)

  pub any-select_where :
      (p q : A → Bool) (xs : List A) → any p (select_where q xs) ≡ any (λ x. q x && p x) xs
  any-select_where p q [] = refl
  any-select_where p q (x ∷ xs) = ground (arith, any-select_where p q xs)

  pub All-update_where {κ} :
      (P Q : A → Type κ) (q : A → Bool) (f : A → A) (xs : List A)
      → ((x : A) → q x ≡ true → P x → Q (f x))
      → ((x : A) → q x ≡ false → P x → Q x)
      → All P xs
      → All Q (update_where q f xs)
  All-update_where P Q q f [] hit miss h = tt
  All-update_where P Q q f (x ∷ xs) hit miss h = elim (Bool-cases (q x)) [
    | inl e ↦ (rw e (hit x e h.0), All-update_where P Q q f xs hit miss h.1)
    | inr e ↦ (rw e (miss x e h.0), All-update_where P Q q f xs hit miss h.1)
  ]

  pub All-delete_where {κ} :
      (P : A → Type κ) (q : A → Bool) (xs : List A) → All P xs → All P (delete_where q xs)
  All-delete_where P q [] h = tt
  All-delete_where P q (x ∷ xs) h = elim (Bool-cases (q x)) [
    | inl e ↦ rw e (All-delete_where P q xs h.1)
    | inr e ↦ rw e (h.0, All-delete_where P q xs h.1)
  ]

  pub select_one-any : (q : A → Bool) (xs : List A) → is_some (select_one q xs) ≡ any q xs
  select_one-any q [] = refl
  select_one-any q (x ∷ xs) = ground (arith, select_one-any q xs)

  pub select_one-holds :
      (q : A → Bool) (xs : List A) (x : A) → select_one q xs ≡ some x → q x ≡ true
  select_one-holds q [] x e = cc
  select_one-holds q (y ∷ xs) x e = ground (arith, select_one-holds q xs x)

  -- Keys: `same x y` says that two rows have one key, which a table holds once.
  abbrev pub Keyed : (A → A → Bool) → List A → Type 0
  Keyed same [] = Unit {0}
  Keyed same (x ∷ xs) = (any (same x) xs ≡ false) × Keyed same xs

  pub any-false_append :
      (p : A → Bool) (xs : List A) (y : A)
      → any p xs ≡ false
      → p y ≡ false
      → any p (xs ++ y ∷ []) ≡ false
  any-false_append p xs y h e = ground (arith, any-append p xs (y ∷ []))

  pub Keyed-append :
      (same : A → A → Bool) (xs : List A) (y : A)
      → ((x : A) → same x y ≡ same y x)
      → any (same y) xs ≡ false
      → Keyed same xs
      → Keyed same (xs ++ y ∷ [])
  Keyed-append same [] y swap h k = (refl, tt)
  Keyed-append same (x ∷ xs) y swap h k = (
    any-false_append (same x) xs y k.0 (ground (arith, swap x)),
    Keyed-append same xs y swap (ground arith) k.1,
  )

  pub any-ext : (p q : A → Bool) (xs : List A) → ((x : A) → p x ≡ q x) → any p xs ≡ any q xs
  any-ext p q [] h = refl
  any-ext p q (x ∷ xs) h = ground (arith, h x, any-ext p q xs h)

  pub Keyed-update_where :
      (same : A → A → Bool) (q : A → Bool) (f : A → A) (xs : List A)
      → ((x y : A) → same x (f y) ≡ same x y)
      → ((x y : A) → same (f x) y ≡ same x y)
      → Keyed same xs
      → Keyed same (update_where q f xs)
  Keyed-update_where same q f [] right left k = tt
  Keyed-update_where same q f (x ∷ xs) right left k = (
    ground (
      arith,
      any-update_where (same x) q f xs (right x),
      any-update_where (same (f x)) q f xs (right (f x)),
      any-ext (same (f x)) (same x) xs (left x),
    ),
    Keyed-update_where same q f xs right left k.1,
  )

  pub any-false-delete_where :
      (p q : A → Bool) (xs : List A) → any p xs ≡ false → any p (delete_where q xs) ≡ false
  any-false-delete_where p q [] h = h
  any-false-delete_where p q (x ∷ xs) h = ground (arith, any-false-delete_where p q xs)

  pub Keyed-delete_where :
      (same : A → A → Bool) (q : A → Bool) (xs : List A)
      → Keyed same xs
      → Keyed same (delete_where q xs)
  Keyed-delete_where same q [] k = tt
  Keyed-delete_where same q (x ∷ xs) k = elim (Bool-cases (q x)) [
    | inl e ↦ rw e (Keyed-delete_where same q xs k.1)
    | inr e ↦ rw e (any-false-delete_where (same x) q xs k.0, Keyed-delete_where same q xs k.1)
  ]
