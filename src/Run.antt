-- ===== src/Run.antt =====
-- A store of objects at addresses, and the outcome of C code that runs on one.
use mathlib.Core.Path.{fun_ext}
use libmio.Base.{
  ℕ, ◌≡◌, ◌≢◌, true, Option, none, some, arith, ◌==◌, ◌⊎◌, inl, inr, sym, ap, ◌∙◌, false,
  Bool-cases, ==_iff, if◌then◌else◌,
}

abbrev pub Ptr : Type 0
Ptr = ℕ

-- `none` where no object is allocated.
abbrev pub Store : Type 0 → Type 0
Store A = Ptr → Option A

unfoldable pub write : {A : Type 0} → Store A → Ptr → Option A → Store A
write h p a q = if p == q then a else h q

-- `fault` is undefined behaviour, and `blocked` a wait that nothing ends.
pub data Run (A : Type 0) : Type 0 where
  done : A → Run A
  fault : Run A
  blocked : Run A

module _ {A B : Type 0} where
  infixl 5 ◌>>=◌
  abbrev pub ◌>>=◌ : Run A → (A → Run B) → Run B
  done a >>= f = f a
  fault >>= f = fault
  blocked >>= f = blocked

-- The result of a run that ends, and a value where it does not.
abbrev pub run_or : {A : Type 0} → A → Run A → A
run_or a (done b) = b
run_or a fault = a
run_or a blocked = a

-- `*p`
unfoldable pub load : {A : Type 0} → Store A → Ptr → Run A
load h p = elim (h p) [ none ↦ fault | some a ↦ done a ]

module _ {A : Type 0} (h : Store A) (p : Ptr) where
  pub load-some : (a : A) → h p ≡ some a → load h p ≡ done a
  unfolding load
  load-some a e = ground arith

  pub load-none : h p ≡ none → load h p ≡ fault
  unfolding load
  load-none e = ground arith

  pub write-same : (a : Option A) → write h p a p ≡ a
  unfolding write
  write-same a = let same : (p == p) ≡ true = ground arith in rw same

  pub write-other : (q : Ptr) (a : Option A) → p ≢ q → write h p a q ≡ h q
  unfolding write
  write-other q a ne = ground arith

module _ {A : Type 0} (h : Store A) (p : Ptr) where
  pub load-write : (a : A) → load (write h p (some a)) p ≡ done a
  load-write a = load-some (write h p (some a)) p a (write-same h p (some a))

  pub load-freed : load (write h p none) p ≡ fault
  load-freed = load-none (write h p none) p (write-same h p none)

module _ {A : Type 0} (h : Store A) (p : Ptr) where
  pub write-write : (a b : Option A) → write (write h p a) p b ≡ write h p b
  unfolding write
  write-write a b = fun_ext λ q. ground arith

  pub write-unchanged : (a : Option A) → h p ≡ a → write h p a ≡ h
  unfolding write
  write-unchanged a e = fun_ext λ q. back q (Bool-cases (p == q))
    where
      back : (q : Ptr) → ((p == q) ≡ true) ⊎ ((p == q) ≡ false) → write h p a q ≡ h q
      back q (inl hit) = rw hit (sym e ∙ ap h ((==_iff p q).0 hit))
      back q (inr miss) = rw miss
