-- ===== src/Evm/State/Yields.antt =====
-- What the actions of the machine yield, and what that says of the actions behind them.
use dogesyncer.Prelude.{◌≡◌, refl, ap, subst, arith, fun_ext, Bool, if◌then◌else◌}
use dogesyncer.Evm.State.{
  State, Act, Outcome, next, returned, panicked, continue, ◌>>=◌, gets, pure,
}

-- What an action yields where it goes on.
pub record Yields {W A : Type 0} (Q : A → Type 0) (m : Act W A) : Type 0 where
  pub at : (s : State W) (a : A) → (m s).0 ≡ next a → Q a

module _ {W A B : Type 0} {Q : B → Type 0} where
  Yields-continue :
      (r : Outcome A) (f : A → Act W B) (t : State W) (b : B)
      → ((a : A) → Yields Q (f a))
      → (continue r f t).0 ≡ next b
      → Q b
  Yields-continue (next a) f t b k e = (k a).at t b e
  Yields-continue returned f t b k e = cc
  Yields-continue panicked f t b k e = cc

  pub Yields-bind :
      (m : Act W A) (f : A → Act W B) → ((a : A) → Yields Q (f a)) → Yields Q (m >>= f)
  unfolding ◌>>=◌
  Yields-bind m f k = record { at = λ s b. Yields-continue (m s).0 f (m s).1 b k }

  -- A value read from the state is known by its reading.
  pub Yields-gets :
      (g : State W → A) (f : A → Act W B)
      → ((s : State W) → Yields Q (f (g s)))
      → Yields Q (gets g >>= f)
  unfolding ◌>>=◌ gets
  Yields-gets g f k = record { at = λ s b. (k s).at s b }

module _ {W A : Type 0} {Q : A → Type 0} where
  pub Yields-pure : (a : A) → Q a → Yields {W = W} Q (pure a)
  unfolding pure
  Yields-pure a h = record { at = λ s b e. subst Q (ground arith) h }

module _ {W A B : Type 0} (Q : A → Type 0) (f g : A → Act W B)
    (same : (a : A) → Q a → f a ≡ g a) where
  continue-same :
      (r : Outcome A) (t : State W) → ((a : A) → r ≡ next a → Q a) → continue r f t ≡ continue r g t
  continue-same (next a) t k = ap (λ m. m t) (same a (k a refl))
  continue-same returned t k = refl
  continue-same panicked t k = refl

  -- Two actions behind one need agree only on what it yields.
  pub bind-same : (m : Act W A) → Yields Q m → (m >>= f) ≡ (m >>= g)
  unfolding ◌>>=◌
  bind-same m y = fun_ext (λ s. continue-same (m s).0 (m s).1 (y.at s))

-- Two tests or binds agree where what stands behind them does.
pub if-same :
    {A : Type 0} (b : Bool) (x : A) {y z : A} → y ≡ z → (if b then x else y) ≡ (if b then x else z)
if-same b x h = ap (λ y. if b then x else y) h

module _ {W A B : Type 0} where
  pub bind-same_left : (f : A → Act W B) {m n : Act W A} → m ≡ n → (m >>= f) ≡ (n >>= f)
  bind-same_left f h = ap (λ m. m >>= f) h

  pub bind-same_all :
      (m : Act W A) {f g : A → Act W B} → ((a : A) → f a ≡ g a) → (m >>= f) ≡ (m >>= g)
  bind-same_all m h = ap (λ k. m >>= k) (fun_ext h)
