-- ===== src/Realtime/Registry/Laws.antt =====
-- Facts on the session maps that the registry's proofs share.
use jiuyue.Base.{
  ℕ, ◌<◌, ◌≤◌, ◌≡◌, refl, Option, none, some, [], ◌∷◌, All, is_empty, arith, false, nat_key,
}
use jiuyue.Base.Map.{Map, keys, lookup, insert, remove, Distinct}

module _ {Q : Type 0} where
  -- Every id of the map lies below the bound.
  abbrev pub Below : ℕ → Map ℕ Q → Type 0
  Below n m = All (λ id. id < n) (keys m)

  pub lookup_fresh : (n : ℕ) (m : Map ℕ Q) → Below n m → lookup n m ≡ none
  unfolding lookup
  lookup_fresh n [] b = refl
  lookup_fresh n ((j, q) ∷ m) b = ground (arith, lookup_fresh n m b.1)

  pub Below-mono : (n k : ℕ) (m : Map ℕ Q) → n ≤ k → Below n m → Below k m
  Below-mono n k [] h b = tt
  Below-mono n k ((j, q) ∷ m) h b = (omega arith, Below-mono n k m h b.1)

  pub insert-Below : (n id : ℕ) (q : Q) (m : Map ℕ Q) → id < n → Below n m → Below n (insert id q m)
  unfolding insert
  insert-Below n id q [] h b = (h, tt)
  insert-Below n id q ((j, p) ∷ m) h b = ground (arith, insert-Below n id q m h b.1)

  pub remove-Below : (n id : ℕ) (m : Map ℕ Q) → Below n m → Below n (remove id m)
  unfolding remove
  remove-Below n id [] b = tt
  remove-Below n id ((j, q) ∷ m) b = ground (arith, remove-Below n id m b.1)

  pub is_empty-insert : (id : ℕ) (q : Q) (m : Map ℕ Q) → is_empty (insert id q m) ≡ false
  unfolding insert
  is_empty-insert id q [] = refl
  is_empty-insert id q ((j, p) ∷ m) = ground arith

  -- A User's entry: never without a connection, no id twice, every id below the next one.
  abbrev pub ValidSessions : ℕ → Option (Map ℕ Q) → Type 0
  ValidSessions n none = Unit
  ValidSessions n (some m) = (is_empty m ≡ false) × Distinct m × Below n m
