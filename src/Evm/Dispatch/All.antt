-- ===== src/Evm/Dispatch/All.antt =====
-- Statements about every handler of the dispatch table.
use dogesyncer.Prelude.{
  ℕ, zero, suc, ◌+◌, ◌≡◌, some, List, [], ◌∷◌, ◌++◌, arith, ◌==◌, Bool-cases, inl, inr, subst,
}
use dogesyncer.Evm.State.{Act}
use dogesyncer.Evm.Dispatch.{Handler, Entry, register_range, find}

pub data All {W : Type 0} (P : Handler W → Type 0) : List (Entry W) → Type 0 where
  nil : All P []
  cons :
      {op : ℕ} {h : Handler W} {rest : List (Entry W)} → P h → All P rest → All P ((op, h) ∷ rest)

module _ {W : Type 0} (P : Handler W → Type 0) where
  pub All-append : {l m : List (Entry W)} → All P l → All P m → All P (l ++ m)
  All-append nil k = k
  All-append (cons x h) k = cons x (All-append h k)

  pub All-register_range :
      {factory : ℕ → Act W Unit} {gas : ℕ} (n op c : ℕ)
      → ((i : ℕ) → P (record { inst = factory i; stack = 0; gas = gas }))
      → All P (register_range n op c factory gas)
  unfolding register_range
  All-register_range zero op c h = nil
  All-register_range (suc n) op c h = cons (h c) (All-register_range n (op + 1) (c + 1) h)

  pub All-find : (op : ℕ) {l : List (Entry W)} (h : Handler W) → All P l → find op l ≡ some h → P h
  unfolding find
  All-find op h nil e = cc
  All-find op h (cons {op = o} {h = x} p a) e = elim (Bool-cases (op == o)) [
    | inl q ↦ subst P (ground arith) p
    | inr q ↦ All-find op h a (ground arith)
  ]
