-- ===== src/Evm/Run/Static.antt =====
-- Static calls: what the instructions do to the host where the contract has `Static` set.
use dogesyncer.Prelude.{
  ℕ, ◌≡◌, refl, ap, Bool, true, false, Option, some, List, [], ◌∷◌, arith, not, ◌==◌, Bool-cases,
  inl, inr, if◌then◌else◌,
}
use dogesyncer.Runtime.{
  CallType, call, call_code, delegate_call, static_call, Contract, ExecutionResult, Host, Error,
  is_creation, write_protection,
}
use dogesyncer.Evm.State.{
  State, Env, Act, Outcome, next, returned, panicked, continue, ◌>>=◌, exit, gets, pure, pop, panic,
  set_return_data, to_address,
}
use dogesyncer.Evm.State.Keeps.{
  Rel, Keeps, Passive, keeps_rules, Keeps-exit, Keeps-if, Keeps-bind, Keeps-set_return_data,
}
use dogesyncer.Evm.State.Yields.{Yields, Yields-bind, Yields-gets, Yields-pure}
use dogesyncer.Evm.Ops.Passive.{Keeps-build_with, Keeps-build_call_contract}
use dogesyncer.Evm.Ops.Storage.{op_sstore, op_self_destruct}
use dogesyncer.Evm.Ops.Flow.{op_log, peeked, peek_at}
use dogesyncer.Evm.Ops.Create.{op_create}
use dogesyncer.Evm.Ops.Call.{
  Built, transfers_value, call_contract, charge_call, build_with, build_call_contract, pop_value,
  callx, make_call, finish_call, run_call, op_call,
}
use dogesyncer.Evm.Dispatch.{Handler, dispatch}
use dogesyncer.Evm.Dispatch.All.{All-find}
use dogesyncer.Evm.Dispatch.Keeps.{Kept-dispatch_table}
use dogesyncer.Evm.Run.Worlds.{IsPreorder, World, World-Passive, World-add_gas, evm_run-world}
use dogesyncer.Evm.Run.{evm_run}

-- What the host promises of a static contract: `Callx` leaves the state the same, in a sense that
-- the host chooses, as long as no value is transferred.
pub record Quiet {W : Type 0} (h : Host W) (Same : W → W → Type 0) : Type 0 where
  pub same_refl : (w : W) → Same w w
  pub same_trans : (u v w : W) → Same u v → Same v w → Same u w
  pub callx_same :
      (w : W) (c : Contract)
      → c.static ≡ true
      → is_creation c.typ ≡ false
      → (c.typ ≡ call → transfers_value c.value ≡ false)
      → Same w (h.callx w c).1

-- A contract that a quiet host leaves its state the same for.
IsHarmless : Contract → Type 0
IsHarmless c =
    (c.static ≡ true)
    × (is_creation c.typ ≡ false)
    × (c.typ ≡ call → transfers_value c.value ≡ false)

module _ {W : Type 0} {Same : W → W → Type 0} {h : Host W} (q : Quiet h Same) where
  abbrev Quiet-order : IsPreorder Same
  Quiet-order = record { rfl = q.same_refl; trans = q.same_trans }

  abbrev SameWorld : Rel W
  SameWorld = World Same

  SameWorld-Passive : Passive SameWorld
  SameWorld-Passive = World-Passive Quiet-order

module _ {W : Type 0} {Same : W → W → Type 0} (e : Env W) (q : Quiet e.host Same)
    (static : e.msg.static ≡ true) where
  harmless :
      (typ : CallType) (addr : ℕ) (value : Option ℕ) (gas : ℕ) (args : List ℕ) (s : State W)
      → is_creation typ ≡ false
      → (typ ≡ call → transfers_value value ≡ false)
      → IsHarmless (record (call_contract e typ addr value gas args s) { typ = typ })
  unfolding IsHarmless call_contract
  harmless call addr value gas args s n h = (ground arith, n, h)
  harmless call_code addr value gas args s n h = (ground arith, n, λ x. cc)
  harmless delegate_call addr value gas args s n h = (ground arith, n, λ x. cc)
  harmless static_call addr value gas args s n h = (refl, n, λ x. cc)
  harmless _ addr value gas args s n h = (ground arith, n, λ x. cc)

  Yields-charge_call :
      (typ : CallType) (initial addr : ℕ) (value : Option ℕ) (args : List ℕ) (o n : ℕ)
      → is_creation typ ≡ false
      → (typ ≡ call → transfers_value value ≡ false)
      → Yields (λ b. IsHarmless b.contract) (charge_call e typ initial addr value args o n)
  unfolding charge_call
  Yields-charge_call typ initial addr value args o n k h = Yields-bind _ _ λ cost.
      Yields-bind _ _ λ gas. Yields-bind _ _ λ _.
        Yields-gets _ _
          λ s. Yields-bind _ _ λ bad. Yields-pure _ (harmless typ addr value _ args s k h)

  Yields-build_with :
      (typ : CallType) (initial addr : ℕ) (value : Option ℕ)
      → is_creation typ ≡ false
      → (typ ≡ call → transfers_value value ≡ false)
      → Yields (λ b. IsHarmless b.contract) (build_with e typ initial addr value)
  unfolding build_with
  Yields-build_with typ initial addr value n h = search (Yields-bind, Yields-charge_call) depth 12

  SameWorld-callx : (c : Contract) → IsHarmless c → Keeps (SameWorld q) (callx e c)
  unfolding callx IsHarmless
  SameWorld-callx c h = record { at = λ s. q.callx_same s.world c h.0 h.1 h.2 }

  SameWorld-finish_call :
      (b : Built) → IsHarmless b.contract → Keeps (SameWorld q) (finish_call e b)
  unfolding finish_call make_call
  SameWorld-finish_call b h =
      search (keeps_rules, SameWorld-Passive q, World-add_gas, Quiet-order q, SameWorld-callx) depth
        10

  -- A contract that has been built is harmless, and then its call is.
  SameWorld-built :
      (m : Act W Built)
      → Keeps (SameWorld q) m
      → Yields (λ b. IsHarmless b.contract) m
      → Keeps (SameWorld q) (m >>= finish_call e)
  unfolding ◌>>=◌
  SameWorld-built m k y = record { at = λ s. go (m s).0 s (m s).1 (k.at s) (y.at s) }
    where
      go :
          (r : Outcome Built) (s t : State W)
          → Same s.world t.world
          → ((b : Built) → r ≡ next b → IsHarmless b.contract)
          → Same s.world (continue r (finish_call e) t).1.world
      go (next b) s t h f =
          q.same_trans s.world t.world _ h ((SameWorld-finish_call b (f b refl)).at t)
      go returned s t h f = h
      go panicked s t h f = h

  SameWorld-build_with :
      (typ : CallType) (initial addr : ℕ) (value : Option ℕ)
      → is_creation typ ≡ false
      → (typ ≡ call → transfers_value value ≡ false)
      → Keeps (SameWorld q) (build_with e typ initial addr value >>= finish_call e)
  SameWorld-build_with typ initial addr value n h =
      SameWorld-built (build_with e typ initial addr value)
        (Keeps-build_with (SameWorld-Passive q) e typ initial addr value)
        (Yields-build_with typ initial addr value n h)

  Yields-build_call_contract :
      (typ : CallType)
      → is_creation typ ≡ false
      → (typ ≡ call → ⊥)
      → Yields (λ b. IsHarmless b.contract) (build_call_contract e typ)
  unfolding build_call_contract
  Yields-build_call_contract typ n h = Yields-bind _ _ λ initial. Yields-bind _ _ λ a.
      Yields-bind _ _
        λ value. Yields-build_with typ initial (to_address a) value n (λ x. absurd (h x))

  -- The other three calls transfer no value, whatever they build.
  SameWorld-run_call :
      (typ : CallType)
      → is_creation typ ≡ false
      → (typ ≡ call → ⊥)
      → Keeps (SameWorld q) (run_call e typ)
  unfolding run_call
  SameWorld-run_call typ n h =
      search
        (
          keeps_rules,
          SameWorld-Passive q,
          SameWorld-built,
          Keeps-build_call_contract,
          Yields-build_call_contract typ n h,
        )
        depth 8

  -- CALL looks at the value on the stack first.
  guarded_call : Act W Unit
  guarded_call = do val ← peek_at 3; (if val == 0 then run_call e call else exit write_protection)

  SameWorld-guarded_call :
      (v : List ℕ) (s : State W) → Same s.world (guarded_call (record s { stack = v })).1.world
  unfolding guarded_call peek_at peeked run_call build_call_contract pop_value pop gets panic pure
      exit ◌>>=◌ is_creation
  SameWorld-guarded_call [] s = q.same_refl s.world
  SameWorld-guarded_call (x ∷ []) s = q.same_refl s.world
  SameWorld-guarded_call (x ∷ y ∷ []) s = q.same_refl s.world
  SameWorld-guarded_call (x ∷ y ∷ z ∷ rest) s = elim (Bool-cases (z == 0)) [
    | inl zero_value ↦ rw zero_value (
        (SameWorld-build_with call x (to_address y) (some z) refl (λ _. ap not zero_value)).at
          (record s { stack = rest }))
    | inr positive ↦ rw positive (q.same_refl s.world)
  ]

  SameWorld-guarded : Keeps (SameWorld q) guarded_call
  SameWorld-guarded = record { at = λ s. SameWorld-guarded_call s.stack s }

  SameWorld-reset_call :
      (typ : CallType)
      → is_creation typ ≡ false
      → (typ ≡ call → ⊥)
      → Keeps (SameWorld q) (set_return_data [] >>= λ _. run_call e typ)
  SameWorld-reset_call typ n h =
      Keeps-bind (SameWorld-Passive q) _ _ (Keeps-set_return_data (SameWorld-Passive q) [])
        λ _. SameWorld-run_call typ n h

  SameWorld-op_call :
      (typ : CallType) → is_creation typ ≡ false → Keeps (SameWorld q) (op_call e typ)
  unfolding op_call guarded_call
  SameWorld-op_call call n =
      Keeps-bind (SameWorld-Passive q) _ _ (Keeps-set_return_data (SameWorld-Passive q) [])
        λ _. Keeps-if (SameWorld-Passive q) e.msg.static _ _ (λ _. SameWorld-guarded) (λ x. cc)
  SameWorld-op_call call_code n = SameWorld-reset_call call_code n (λ x. cc)
  SameWorld-op_call delegate_call n = SameWorld-reset_call delegate_call n (λ x. cc)
  SameWorld-op_call static_call n = SameWorld-reset_call static_call n (λ x. cc)
  SameWorld-op_call CallType.create n = SameWorld-reset_call CallType.create n (λ x. cc)
  SameWorld-op_call CallType.create2 n = SameWorld-reset_call CallType.create2 n (λ x. cc)

  SameWorld-refused :
      (b : Bool) (x : Error) (m : Act W Unit)
      → b ≡ true
      → Keeps (SameWorld q) (if b then exit x else m)
  SameWorld-refused b x m h = rw h (Keeps-exit (SameWorld-Passive q) x)

  SameWorld-dispatch :
      (op : ℕ) (h : Handler W) → dispatch e op ≡ some h → Keeps (SameWorld q) h.inst
  unfolding dispatch op_log op_sstore op_self_destruct op_create
  SameWorld-dispatch op h =
      All-find (λ k. Keeps (SameWorld q) k.inst) op h
        (Kept-dispatch_table (SameWorld-Passive q) e
          (λ n. SameWorld-refused e.msg.static _ _ static)
          (SameWorld-refused e.msg.static _ _ static) (SameWorld-refused e.msg.static _ _ static)
          (λ typ. SameWorld-refused e.msg.static _ _ static) SameWorld-op_call)

  -- A contract that runs with `Static` set, and ends, leaves the host's state the same, in a
  -- reflexive and transitive sense of the host's: one in which its `Callx` leaves the state the same
  -- for every static contract that is not a creation and transfers no value.
  pub evm_run-static :
      (fuel : ℕ) (w w' : W) (cap : ℕ) (r : ExecutionResult)
      → evm_run fuel e w cap ≡ some (r, w')
      → Same w w'
  evm_run-static = evm_run-world (Quiet-order q) e SameWorld-dispatch
