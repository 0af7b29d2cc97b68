-- ===== src/Base/Lists.antt =====
-- Lists measured by native numbers, and the option that stands for a pointer or for a fault.
use Prim.Native.Nat.{ℕ, suc, ◌+◌}
use mathlib.Core.Path.{◌≡◌, refl, ap}
use mathlib.Core.Bool.{Bool, true, false}
use mathlib.Core.List.{List, [], ◌∷◌, ◌++◌, Mem, mem-cons_self, mem-cons_of_mem}
use mathlib.Core.Option.{Option, none, some}
use native.Mathlib.Omega.{arith}

module _ {ℓ} {A : Type ℓ} where
  abbrev pub length : List A → ℕ
  length [] = 0
  length (x ∷ xs) = suc (length xs)

  pub length-append : (xs ys : List A) → length (xs ++ ys) ≡ length xs + length ys
  length-append [] ys = omega arith
  length-append (x ∷ xs) ys = omega (arith, length-append xs ys)

  -- `p != NULL`
  abbrev pub is_some : Option A → Bool
  is_some none = false
  is_some (some _) = true

  -- A pointer to overwrite: the new value if there is one, else the old one.
  abbrev pub or_keep : Option A → Option A → Option A
  or_keep (some a) old = some a
  or_keep none old = old

module _ {ℓ κ} {A : Type ℓ} {B : Type κ} where
  -- A result `none` is a fault: undefined behaviour of the C program, such as a read through `NULL`.
  infixl 5 ◌>>=◌
  abbrev pub ◌>>=◌ : Option A → (A → Option B) → Option B
  none >>= f = none
  some a >>= f = f a

  pub >>=-eq-some :
      (m : Option A) (f : A → Option B) {b : B}
      → (m >>= f) ≡ some b
      → (a : A) × (m ≡ some a) × (f a ≡ some b)
  >>=-eq-some none f h = cc
  >>=-eq-some (some a) f h = (a, refl, h)

module _ {ℓ} {A : Type ℓ} where
  -- `tail_get` and a write to the tail's `next`, or to the head of an empty list.
  abbrev pub add_last : List A → A → List A
  add_last [] a = a ∷ []
  add_last (x ∷ xs) a = x ∷ add_last xs a

  -- A write through a pointer to the last node; `none` where there is no node, or the write faults.
  abbrev pub update_last : (A → Option A) → List A → Option (List A)
  update_last f [] = none
  update_last f (x ∷ []) = f x >>= λ y. some (y ∷ [])
  update_last f (x ∷ y ∷ r) = update_last f (y ∷ r) >>= λ l. some (x ∷ l)

  -- The walk with `prev` and `curr` that unlinks the first node that passes a test. The test faults
  -- where it compares a `NULL`.
  pub unlink : (A → Option Bool) → List A → Option (List A)
  unlink test [] = some []
  unlink test (x ∷ xs) =
      let rest = unlink test xs in
      test x >>= λ hit. elim hit [ true ↦ some xs | false ↦ rest >>= λ l. some (x ∷ l) ]

  pub add_last-append : (xs : List A) (a : A) → add_last xs a ≡ xs ++ (a ∷ [])
  add_last-append [] a = refl
  add_last-append (x ∷ xs) a = ap (◌∷◌ x) (add_last-append xs a)

  pub update_last-append :
      (f : A → Option A) (xs : List A) (a b : A)
      → f a ≡ some b
      → update_last f (xs ++ (a ∷ [])) ≡ some (xs ++ (b ∷ []))
  update_last-append f [] a b h = rw h
  update_last-append f (x ∷ []) a b h = rw h
  update_last-append f (x ∷ y ∷ r) a b h = rw (update_last-append f (y ∷ r) a b h)

  -- No node before the removed one passes the test; the others keep their order.
  pub unlink_hit :
      (test : A → Option Bool) (xs : List A) (a : A) (ys : List A)
      → test a ≡ some true
      → ((b : A) → Mem b xs → test b ≡ some false)
      → unlink test (xs ++ (a ∷ ys)) ≡ some (xs ++ ys)
  unfolding unlink
  unlink_hit test [] a ys h miss = rw h
  unlink_hit test (x ∷ xs) a ys h miss =
      rw (miss x mem-cons_self, unlink_hit test xs a ys h (λ b m. miss b (mem-cons_of_mem x m)))

  pub unlink_miss :
      (test : A → Option Bool) (xs : List A)
      → ((b : A) → Mem b xs → test b ≡ some false)
      → unlink test xs ≡ some xs
  unfolding unlink
  unlink_miss test [] miss = refl
  unlink_miss test (x ∷ xs) miss =
      rw (miss x mem-cons_self, unlink_miss test xs (λ b m. miss b (mem-cons_of_mem x m)))
