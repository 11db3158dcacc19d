-- ===== src/Evm/State/Keeps.antt =====
-- What an action does to the state, as a relation between the state before it, whether it has
-- returned early, and the state after it. `Passive` lists what such a relation allows the actions
-- that only touch the machine; the rules below it prove `Keeps` of the actions built from them.
use dogesyncer.Prelude.{
  ℕ, ◌-◌, ◌≤◌, ◌≡◌, refl, Bool, true, false, some, List, [], ◌∷◌, if◌then◌else◌, arith,
}
use dogesyncer.Runtime.{Error, out_of_gas}
use dogesyncer.Evm.State.{
  State, Env, Act, Outcome, next, returned, panicked, continue, ◌>>=◌, pure, gets, panic, exit,
  done, halt, push, pop_from, pop, top_from, top, set_top_in, set_top, consume_gas, set_ip,
  set_return_data, set_ret, stack_at_least,
}
use dogesyncer.Evm.State.Bytes.{splice, slice}
use dogesyncer.Evm.State.Memory.{
  set_last_gas_cost, resize, expand, grow, extend_memory, get2, write_memory, write_slice,
}

abbrev pub Rel : Type 0 → Type 1
Rel W = State W → Bool → State W → Type 0

abbrev pub is_early : {A : Type 0} → Outcome A → Bool
is_early (next a) = false
is_early returned = true
is_early panicked = false

pub record Keeps {W A : Type 0} (R : Rel W) (m : Act W A) : Type 0 where
  pub at : (s : State W) → R s (is_early (m s).0) (m s).1

pub record Passive {W : Type 0} (R : Rel W) : Type 0 where
  pub rfl : (s : State W) → R s false s
  pub trans : (s t u : State W) (b : Bool) → R s false t → R t b u → R s b u
  pub on_exit : (x : Error) (s : State W) → R s true (record s { stop = true; err = some x })
  pub on_halt : (s : State W) → R s false (record s { stop = true })
  pub on_stack : (v : List ℕ) (s : State W) → R s false (record s { stack = v })
  pub on_gas : (c : ℕ) (s : State W) → c ≤ s.gas → R s false (record s { gas = s.gas - c })
  pub on_ip : (i : ℕ) (s : State W) → R s false (record s { ip = i })
  pub on_return_data : (v : List ℕ) (s : State W) → R s false (record s { return_data = v })
  pub on_ret : (v : List ℕ) (s : State W) → R s false (record s { ret = v })
  pub on_last_gas_cost : (c : ℕ) (s : State W) → R s false (record s { last_gas_cost = c })
  pub on_memory :
      (m : List ℕ) (c : ℕ) (s : State W) → R s false (record s { memory = m; mem_cap = c })

module _ {W : Type 0} {R : Rel W} (p : Passive R) where
  module _ {A B : Type 0} where
    Keeps-continue :
        (r : Outcome A) (f : A → Act W B) (s t : State W)
        → R s (is_early r) t
        → ((a : A) → Keeps R (f a))
        → R s (is_early (continue r f t).0) (continue r f t).1
    Keeps-continue (next a) f s t h k = p.trans s t _ _ h ((k a).at t)
    Keeps-continue returned f s t h k = h
    Keeps-continue panicked f s t h k = h

    pub Keeps-bind :
        (m : Act W A) (f : A → Act W B) → Keeps R m → ((a : A) → Keeps R (f a)) → Keeps R (m >>= f)
    unfolding ◌>>=◌
    Keeps-bind m f km kf = record { at = λ s. Keeps-continue (m s).0 f s (m s).1 (km.at s) kf }

  module _ {A : Type 0} where
    pub Keeps-pure : (a : A) → Keeps R (pure a)
    unfolding pure
    Keeps-pure a = record { at = λ s. p.rfl s }

    pub Keeps-gets : (f : State W → A) → Keeps R (gets f)
    unfolding gets
    Keeps-gets f = record { at = λ s. p.rfl s }

    pub Keeps-panic : Keeps R (panic {A = A})
    unfolding panic
    Keeps-panic = record { at = λ s. p.rfl s }

    pub Keeps-exit : (x : Error) → Keeps R (exit {A = A} x)
    unfolding exit
    Keeps-exit x = record { at = λ s. p.on_exit x s }

    pub Keeps-if :
        (b : Bool) (m n : Act W A)
        → (b ≡ true → Keeps R m)
        → (b ≡ false → Keeps R n)
        → Keeps R (if b then m else n)
    Keeps-if true m n on_true on_false = on_true refl
    Keeps-if false m n on_true on_false = on_false refl

  pub Keeps-done : Keeps R done
  unfolding done
  Keeps-done = record { at = λ s. p.rfl s }

  pub Keeps-halt : Keeps R halt
  unfolding halt
  Keeps-halt = record { at = λ s. p.on_halt s }

  pub Keeps-push : (v : ℕ) → Keeps R (push v)
  unfolding push
  Keeps-push v = record { at = λ s. p.on_stack (v ∷ s.stack) s }

  Keeps-pop_from : (v : List ℕ) → Keeps R (pop_from v)
  unfolding pop_from
  Keeps-pop_from [] = record { at = λ s. p.rfl s }
  Keeps-pop_from (x ∷ rest) = record { at = λ s. p.on_stack rest s }

  pub Keeps-pop : Keeps R pop
  unfolding pop
  Keeps-pop = record { at = λ s. (Keeps-pop_from s.stack).at s }

  Keeps-top_from : (v : List ℕ) → Keeps R (top_from v)
  unfolding top_from
  Keeps-top_from [] = record { at = λ s. p.rfl s }
  Keeps-top_from (x ∷ rest) = record { at = λ s. p.rfl s }

  pub Keeps-top : Keeps R top
  unfolding top
  Keeps-top = record { at = λ s. (Keeps-top_from s.stack).at s }

  Keeps-set_top_in : (x : ℕ) (v : List ℕ) → Keeps R (set_top_in x v)
  unfolding set_top_in
  Keeps-set_top_in x [] = record { at = λ s. p.rfl s }
  Keeps-set_top_in x (y ∷ rest) = record { at = λ s. p.on_stack (x ∷ rest) s }

  pub Keeps-set_top : (x : ℕ) → Keeps R (set_top x)
  unfolding set_top
  Keeps-set_top x = record { at = λ s. (Keeps-set_top_in x s.stack).at s }

  pub Keeps-consume_gas : (c : ℕ) → Keeps R (consume_gas c)
  unfolding consume_gas
  Keeps-consume_gas c = record { at = λ s. ground (arith, p.on_exit out_of_gas s, p.on_gas c s) }

  pub Keeps-set_ip : (i : ℕ) → Keeps R (set_ip i)
  unfolding set_ip
  Keeps-set_ip i = record { at = λ s. p.on_ip i s }

  pub Keeps-set_return_data : (v : List ℕ) → Keeps R (set_return_data v)
  unfolding set_return_data
  Keeps-set_return_data v = record { at = λ s. p.on_return_data v s }

  pub Keeps-set_ret : (v : List ℕ) → Keeps R (set_ret v)
  unfolding set_ret
  Keeps-set_ret v = record { at = λ s. p.on_ret v s }

  pub Keeps-stack_at_least : (n : ℕ) → Keeps R (stack_at_least n)
  unfolding stack_at_least
  Keeps-stack_at_least n = record { at = λ s. p.rfl s }

  pub Keeps-set_last_gas_cost : (c : ℕ) → Keeps R (set_last_gas_cost c)
  unfolding set_last_gas_cost
  Keeps-set_last_gas_cost c = record { at = λ s. p.on_last_gas_cost c s }

  pub Keeps-resize : (e : Env W) (n : ℕ) → Keeps R (resize e n)
  unfolding resize
  Keeps-resize e n = record { at = λ s. p.on_memory _ _ s }

  pub Keeps-write_memory : (o : ℕ) (bytes : List ℕ) → Keeps R (write_memory o bytes)
  unfolding write_memory panic
  Keeps-write_memory o bytes = record {
    at = λ s. ground (arith, p.rfl s, p.on_memory (splice o bytes s.memory) s.mem_cap s);
  }

  pub Keeps-write_slice : (o n : ℕ) (bytes : List ℕ) → Keeps R (write_slice o n bytes)
  unfolding write_slice panic
  Keeps-write_slice o n bytes = record {
    at =
        λ s. ground (arith, p.rfl s, p.on_memory (splice o (slice 0 n bytes) s.memory) s.mem_cap s);
  }

pub ruleset keeps_rules = (
  Keeps-bind, Keeps-pure, Keeps-gets, Keeps-panic, Keeps-exit, Keeps-if, Keeps-done, Keeps-halt,
  Keeps-push, Keeps-pop, Keeps-top, Keeps-set_top, Keeps-consume_gas, Keeps-set_ip,
  Keeps-set_return_data, Keeps-set_ret, Keeps-stack_at_least, Keeps-set_last_gas_cost, Keeps-resize,
  Keeps-write_memory, Keeps-write_slice,
)

module _ {W : Type 0} {R : Rel W} (p : Passive R) (e : Env W) where
  Keeps-expand : (n last : ℕ) → Keeps R (expand e n last)
  unfolding expand
  Keeps-expand n last = search keeps_rules

  pub Keeps-grow : (n : ℕ) → Keeps R (grow e n)
  unfolding grow
  Keeps-grow n = search (keeps_rules, Keeps-expand) depth 8

  pub Keeps-extend_memory : (o n : ℕ) → Keeps R (extend_memory e o n)
  unfolding extend_memory
  Keeps-extend_memory o n = search (keeps_rules, Keeps-grow) depth 8

  pub Keeps-get2 : (o n : ℕ) → Keeps R (get2 e o n)
  unfolding get2
  Keeps-get2 o n = search (keeps_rules, Keeps-extend_memory) depth 8
