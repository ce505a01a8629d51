-- ===== src/Base/Rows.antt =====
-- Rows that are over: some row has the key, and every row that has it is dead. What an UPDATE or an
-- INSERT that respects the key leaves of that, and what a SELECT of live rows finds.
use jiuyue.Base.Branch.{Bool-cases, find_first, update_where, is_some}
use jiuyue.Base.Lists.{any}
use mathlib.Core.Path.{◌≡◌, refl, ◌∙◌}
use mathlib.Core.Logic.{inl, inr}
use mathlib.Core.Bool.{Bool, true, false, not, ◌&&◌, ◌||◌}
use mathlib.Core.List.{List, [], ◌∷◌, ◌++◌}
use mathlib.Core.Option.{none, some}
use native.Mathlib.Omega.{arith}

module _ {ℓ} {A : Type ℓ} where
  abbrev pub undead : (A → Bool) → (A → Bool) → A → Bool
  undead key dead x = key x && not (dead x)

  pub record Over (key dead : A → Bool) (xs : List A) : Type ℓ where
    pub present : any key xs ≡ true
    pub all_dead : any (undead key dead) xs ≡ false

  any-update_where :
      (q : A → Bool) (p : A → Bool) (f : A → A) (xs : List A)
      → ((x : A) → q (f x) ≡ q x)
      → any q (update_where p f xs) ≡ any q xs
  any-update_where q p f [] h = refl
  any-update_where q p f (x ∷ xs) h = ground (arith, h x, any-update_where q p f xs h)

  any-update_where_less :
      (q : A → Bool) (p : A → Bool) (f : A → A) (xs : List A)
      → ((x : A) → q x ≡ false → q (f x) ≡ false)
      → any q xs ≡ false
      → any q (update_where p f xs) ≡ false
  any-update_where_less q p f [] h e = refl
  any-update_where_less q p f (x ∷ xs) h e = ground (arith, h x, any-update_where_less q p f xs h)

  pub any-append : (q : A → Bool) (xs ys : List A) → any q (xs ++ ys) ≡ (any q xs || any q ys)
  any-append q [] ys = refl
  any-append q (x ∷ xs) ys = ground (arith, any-append q xs ys)

  -- An UPDATE that keeps the key and wakes no row.
  pub update_where-Over :
      (key dead p : A → Bool) (f : A → A) (xs : List A)
      → ((x : A) → key (f x) ≡ key x)
      → ((x : A) → dead x ≡ true → dead (f x) ≡ true)
      → Over key dead xs
      → Over key dead (update_where p f xs)
  update_where-Over key dead p f xs k d o = record {
    present = any-update_where key p f xs k ∙ o.present;
    all_dead =
        any-update_where_less (undead key dead) p f xs (λ x e. ground (arith, k x, d x)) o.all_dead;
  }

  -- An INSERT under another key.
  pub append-Over :
      (key dead : A → Bool) (xs : List A) (x : A)
      → key x ≡ false
      → Over key dead xs
      → Over key dead (xs ++ x ∷ [])
  append-Over key dead xs x e o = record {
    present = any-append key xs (x ∷ []) ∙ ground (arith, o.present);
    all_dead = any-append (undead key dead) xs (x ∷ []) ∙ ground (arith, o.all_dead);
  }

  -- An UPDATE that kills every row with the key.
  pub update_where-kills :
      (key dead p : A → Bool) (f : A → A) (xs : List A)
      → ((x : A) → key (f x) ≡ key x)
      → ((x : A) → dead (f x) ≡ true)
      → ((x : A) → key x ≡ true → dead x ≡ false → p x ≡ true)
      → any key xs ≡ true
      → Over key dead (update_where p f xs)
  update_where-kills key dead p f xs k d h e = record {
    present = any-update_where key p f xs k ∙ e;
    all_dead = killed xs;
  }
    where
      killed : (ys : List A) → any (undead key dead) (update_where p f ys) ≡ false
      killed [] = refl
      killed (y ∷ ys) = ground (arith, k y, d y, h y, killed ys)

  pub find_first-none : (q : A → Bool) (xs : List A) → any q xs ≡ false → find_first q xs ≡ none
  find_first-none q [] h = refl
  find_first-none q (x ∷ xs) h = ground (arith, find_first-none q xs)

  pub any-find_first : (q : A → Bool) (xs : List A) → is_some (find_first q xs) ≡ any q xs
  any-find_first q [] = refl
  any-find_first q (x ∷ xs) = ground (arith, any-find_first q xs)

  pub any_weaken :
      (q r : A → Bool) (xs : List A)
      → ((x : A) → q x ≡ true → r x ≡ true)
      → any r xs ≡ false
      → any q xs ≡ false
  any_weaken q r [] h e = refl
  any_weaken q r (x ∷ xs) h e = ground (arith, h x, any_weaken q r xs h)

  -- A row that a SELECT finds passes its test.
  pub find_first-some : (q : A → Bool) (xs : List A) (x : A) → find_first q xs ≡ some x → q x ≡ true
  find_first-some q [] x h = ground arith
  find_first-some q (y ∷ xs) x h = ground (arith, find_first-some q xs x)

  -- A key that some row has is not one that no row had.
  pub other_key :
      (key taken : A → Bool) (xs : List A) (new : A)
      → ((x : A) → key new ≡ true → key x ≡ true → taken x ≡ true)
      → any key xs ≡ true
      → any taken xs ≡ false
      → key new ≡ false
  other_key key taken xs new h present free = elim (Bool-cases (key new)) [
    | inr e ↦ e
    | inl e ↦ ground (arith, present, any_weaken key taken xs (λ x. h x e) free)
  ]

  pub find_first-append :
      (q : A → Bool) (xs : List A) (x : A)
      → any q xs ≡ false
      → q x ≡ true
      → find_first q (xs ++ x ∷ []) ≡ some x
  find_first-append q [] x h e = ground arith
  find_first-append q (y ∷ xs) x h e = ground (arith, find_first-append q xs x)

  pub find_first-any :
      (q r : A → Bool) (xs : List A) (x : A)
      → find_first q xs ≡ some x
      → r x ≡ true
      → any r xs ≡ true
  find_first-any q r [] x h e = ground arith
  find_first-any q r (y ∷ xs) x h e = ground (arith, find_first-any q r xs x)

  pub any-update_where-false :
      (q p : A → Bool) (f : A → A) (xs : List A)
      → ((x : A) → p x ≡ false → q x ≡ false)
      → ((x : A) → p x ≡ true → q (f x) ≡ false)
      → any q (update_where p f xs) ≡ false
  any-update_where-false q p f [] out inside = refl
  any-update_where-false q p f (x ∷ xs) out inside =
      ground (arith, out x, inside x, any-update_where-false q p f xs out inside)

  pub find_first-update_where :
      (q : A → Bool) (f : A → A) (xs : List A) (x : A)
      → ((y : A) → q (f y) ≡ q y)
      → find_first q xs ≡ some x
      → find_first q (update_where q f xs) ≡ some (f x)
  find_first-update_where q f [] x k h = ground arith
  find_first-update_where q f (y ∷ xs) x k h =
      ground (arith, k y, find_first-update_where q f xs x k)
