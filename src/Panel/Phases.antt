-- ===== src/Panel/Phases.antt =====
-- apps/extension/src/panel-model.ts: what the phases promise, and late answers.
use mima.Prelude.{
  ℕ, ◌+◌, ◌≤◌, Bool, true, false, ◌&&◌, List, [], ◌∷◌, any, ◌==◌, nat_eq, is_some, if◌then◌else◌,
  Bool-cases, ◌≡◌, refl, inl, inr, arith,
}
use mima.Panel.{
  Protocol, PanelPhase, loading, unlocking, ready, PanelModel, PanelOp, set_loading, set_pairing,
  set_awaiting_approval, set_locked, set_unlocking, set_ready, set_revoked, set_error,
  handle_crypto_worker_failure, bump_security_generation, clear_decrypted_state, lock, fail,
  panel_step, panel_run, is_security_generation_current,
}

-- The phases in which nothing may be shown.
abbrev pub is_closed : PanelPhase → Bool
is_closed loading = false
is_closed unlocking = false
is_closed ready = false
is_closed _ = true

abbrev add_if : Bool → ℕ → ℕ
add_if b n = if b then n + 1 else n

module _ {P : Protocol} where
  -- The operations that end what was begun before them.
  abbrev pub is_ending : PanelOp P → Bool
  is_ending (set_locked message available) = true
  is_ending set_revoked = true
  is_ending (set_error message) = true
  is_ending (handle_crypto_worker_failure message) = true
  is_ending bump_security_generation = true
  is_ending _ = false

  unfoldable pub IsHidden : PanelModel P → Type 0
  IsHidden m = is_closed m.state.phase ≡ true → m.state.items ≡ []

  step-IsHidden : (op : PanelOp P) (m : PanelModel P) → IsHidden m → IsHidden (panel_step op m)
  unfolding IsHidden panel_step clear_decrypted_state lock fail
  step-IsHidden set_loading m h k = cc k
  step-IsHidden (set_pairing message) m h k = refl
  step-IsHidden (set_awaiting_approval pending) m h k = refl
  step-IsHidden (set_locked message available) m h k = refl
  step-IsHidden set_unlocking m h k = cc k
  step-IsHidden (set_ready items offline) m h k = cc k
  step-IsHidden set_revoked m h k = refl
  step-IsHidden (set_error message) m h k = refl
  step-IsHidden (handle_crypto_worker_failure message) m h k =
      elim (Bool-cases (is_some m.state.session && is_some m.state.device)) [
        | inl e ↦ rw (panel_step, e) refl
        | inr e ↦ rw (panel_step, e) refl
      ]
  step-IsHidden bump_security_generation m h k = h k

  step-generation :
      (op : PanelOp P) (m : PanelModel P)
      → (panel_step op m).security_generation ≡ add_if (is_ending op) m.security_generation
  unfolding panel_step lock fail
  step-generation set_loading m = refl
  step-generation (set_pairing message) m = refl
  step-generation (set_awaiting_approval pending) m = refl
  step-generation (set_locked message available) m = refl
  step-generation set_unlocking m = refl
  step-generation (set_ready items offline) m = refl
  step-generation set_revoked m = refl
  step-generation (set_error message) m = refl
  step-generation (handle_crypto_worker_failure message) m =
      elim (Bool-cases (is_some m.state.session && is_some m.state.device)) [
        | inl e ↦ rw (panel_step, e) refl
        | inr e ↦ rw (panel_step, e) refl
      ]
  step-generation bump_security_generation m = refl

  run-IsHidden :
      (ops : List (PanelOp P)) (m : PanelModel P) → IsHidden m → IsHidden (panel_run ops m)
  unfolding panel_run
  run-IsHidden [] m h = h
  run-IsHidden (op ∷ ops) m h = run-IsHidden ops (panel_step op m) (step-IsHidden op m h)

  run-generation :
      (ops : List (PanelOp P)) (m : PanelModel P)
      → m.security_generation ≤ (panel_run ops m).security_generation
  unfolding panel_run
  run-generation [] m = omega arith
  run-generation (op ∷ ops) m =
      ground (arith, run-generation ops (panel_step op m), step-generation op m)

  run-current :
      (ops : List (PanelOp P)) (m : PanelModel P) (n : ℕ)
      → n ≡ m.security_generation
      → (n == (panel_run ops m).security_generation) ≡ (if any is_ending ops then false else true)
  unfolding panel_run
  run-current [] m n h = ground (arith, h)
  run-current (op ∷ ops) m n h = elim (Bool-cases (is_ending op)) [
    | inl e ↦
        rw e (
          ground (arith, h, run-generation ops (panel_step op m), (rw e at (step-generation op m))))
    | inr e ↦
        rw e (
          run-current ops (panel_step op m) n (ground (arith, h, (rw e at (step-generation op m)))))
  ]

  -- Whatever a panel does, in any order: while it waits for a pairing or an approval, is locked, revoked
  -- or in error, it holds no decrypted item, if that was so at the start; and the generation that was
  -- captured at the start is still current exactly if nothing locked, revoked, failed or bumped it since.
  pub panel_run-IsHidden :
      (ops : List (PanelOp P)) (m : PanelModel P)
      → IsHidden m
      → IsHidden (panel_run ops m)
        × (is_security_generation_current m.security_generation (panel_run ops m)
            ≡ (if any is_ending ops then false else true))
  unfolding is_security_generation_current
  panel_run-IsHidden ops m h = (run-IsHidden ops m h, run-current ops m m.security_generation refl)
