-- ===== src/Modules/Plan/Propagation.antt =====
-- `while changed` of `build_activation_plan` ends where no eligible module has a blocked dependency.
use llm_api_mind.Base.{
  ℕ, zero, suc, String, none, some, List, [], ◌∷◌, Bool, true, false, ◌||◌, not, ◌≡◌, refl, sym, ap,
  ◌∙◌, subst, arith, All, Bool-cases, Option-cases, inl, inr, if◌then◌else◌, contains, eq_iff,
}
use llm_api_mind.Modules.Ledger.{Blocked, Ledger, is_blocked, block}
use llm_api_mind.Modules.Graph.{Graph, edges}
use llm_api_mind.Modules.Plan.{first_blocked, propagate_one, propagate_round, propagate}
use llm_api_mind.Modules.Plan.Blocking.{Grows, Grows-refl, block-Grows}

some_inj : {a b : Ledger} → some a ≡ some b → a ≡ b
some_inj e = cc

module _ (eligible : String → Bool) (g : Graph) where
  -- the module is not eligible, is blocked, or has no blocked dependency
  abbrev pub Settled : Ledger → String → Type 0
  Settled l i =
      eligible i ≡ true
      → is_blocked l.blocked i ≡ false
      → first_blocked l.blocked (edges g i) ≡ none

  pub one_skips :
      (i : String) (l : Ledger) (c : Bool)
      → (not (eligible i) || is_blocked l.blocked i) ≡ true
      → propagate_one eligible g i (l, c) ≡ (l, c)
  unfolding propagate_one
  one_skips i l c e = rw (propagate_one, e) refl

  pub one_free :
      (i : String) (l : Ledger) (c : Bool)
      → (not (eligible i) || is_blocked l.blocked i) ≡ false
      → first_blocked l.blocked (edges g i) ≡ none
      → propagate_one eligible g i (l, c) ≡ (l, c)
  unfolding propagate_one
  one_free i l c e n = rw (propagate_one, e, n) refl

  pub one_blocks :
      (i : String) (l : Ledger) (c : Bool) {d : String}
      → (not (eligible i) || is_blocked l.blocked i) ≡ false
      → first_blocked l.blocked (edges g i) ≡ some d
      → propagate_one eligible g i (l, c) ≡ (block l i "dependency.required_blocked" (some d), true)
  unfolding propagate_one
  one_blocks i l c e n = rw (propagate_one, e, n) refl

  -- a turn that keeps the ledger and the mark
  quiet_turn :
      (l : Ledger) (c : Bool) (s : Ledger × Bool)
      → s ≡ (l, c)
      → s.1 ≡ false
      → (s ≡ (l, false)) × (c ≡ false)
  quiet_turn l c s e q =
      let off : c ≡ false = sym (ap (λ t. t.1) e) ∙ q in (e ∙ ap (λ b. (l, b)) off, off)

  propagate_one-Grows :
      (i : String) (s : Ledger × Bool) → Grows s.0 (propagate_one eligible g i s).0
  unfolding propagate_one
  propagate_one-Grows i (l, c) = elim (Bool-cases (not (eligible i) || is_blocked l.blocked i)) [
    | inl e ↦ rw (propagate_one, e) (Grows-refl l)
    | inr e ↦ elim (Option-cases (first_blocked l.blocked (edges g i))) [
      | inl n ↦ rw (propagate_one, e, n) (Grows-refl l)
      | inr (d, n) ↦
          rw (propagate_one, e, n) (block-Grows l i "dependency.required_blocked" (some d))
    ]
  ]

  -- a turn without a change leaves the ledger alone, where the module is settled
  propagate_one_quiet :
      (i : String) (l : Ledger) (c : Bool)
      → (propagate_one eligible g i (l, c)).1 ≡ false
      → (propagate_one eligible g i (l, c) ≡ (l, false)) × (c ≡ false) × Settled l i
  propagate_one_quiet i l c q = elim (Bool-cases (not (eligible i) || is_blocked l.blocked i)) [
    | inl e ↦
        let (same, off) =
          quiet_turn l c (propagate_one eligible g i (l, c)) (one_skips i l c e) q in
        (same, off, λ on open_. absurd (ground (arith, e, on, open_)))
    | inr e ↦ elim (Option-cases (first_blocked l.blocked (edges g i))) [
      | inl n ↦
          let (same, off) =
            quiet_turn l c (propagate_one eligible g i (l, c)) (one_free i l c e n) q in
          (same, off, λ on open_. n)
      | inr (d, n) ↦ absurd (ground (arith, ap (λ s. s.1) (one_blocks i l c e n), q))
    ]
  ]

  propagate_round-Grows :
      (ids : List String) (s : Ledger × Bool) → Grows s.0 (propagate_round eligible g ids s).0
  unfolding propagate_round
  propagate_round-Grows [] s j h = h
  propagate_round-Grows (i ∷ ids) s j h =
      propagate_one-Grows i s j (propagate_round-Grows ids (propagate_one eligible g i s) j h)

  propagate_round_quiet :
      (ids : List String) (l : Ledger) (c : Bool)
      → (propagate_round eligible g ids (l, c)).1 ≡ false
      → ((propagate_round eligible g ids (l, c)).0 ≡ l) × (c ≡ false) × All (Settled l) ids
  unfolding propagate_round
  propagate_round_quiet [] l c q = (refl, q, tt)
  propagate_round_quiet (i ∷ ids) l c q =
      let s : Ledger × Bool = propagate_one eligible g i (l, c) in
      let (same, off, rest) = propagate_round_quiet ids s.0 s.1 q in
      let (kept, quiet, here) = propagate_one_quiet i l c off in
      (
        same ∙ ap (λ t. t.0) kept,
        quiet,
        (here, subst (λ k. All (Settled k) ids) (ap (λ t. t.0) kept) rest),
      )

  -- Where the loop ends, every module is settled, and no module that the loop found blocked is free.
  pub propagate-Settled :
      (fuel : ℕ) (ids : List String) (l k : Ledger)
      → propagate fuel eligible g ids l ≡ some k
      → Grows l k × All (Settled k) ids
  unfolding propagate
  propagate-Settled zero ids l k e = cc
  propagate-Settled (suc fuel) ids l k e =
      let s : Ledger × Bool = propagate_round eligible g ids (l, false) in
      elim (Bool-cases s.1) [
        | inl changed ↦
            let again : propagate fuel eligible g ids s.0 ≡ some k =
              subst (λ b. (if b then propagate fuel eligible g ids s.0 else some s.0) ≡ some k)
                changed e in
            let (grows, settled) = propagate-Settled fuel ids s.0 k again in
            ((λ j h. propagate_round-Grows ids (l, false) j (grows j h)), settled)
        | inr quiet ↦
            let ends : some s.0 ≡ some k =
              subst (λ b. (if b then propagate fuel eligible g ids s.0 else some s.0) ≡ some k)
                quiet e in
            let (same, off, settled) = propagate_round_quiet ids l false quiet in
            let last : l ≡ k = sym same ∙ some_inj ends in
            subst (λ m. Grows l m × All (Settled m) ids) last (Grows-refl l, settled)
      ]

module _ (b : Blocked) where
  -- no dependency of a list without a blocked one is blocked
  pub first_blocked-none :
      (deps : List String) (d : String)
      → first_blocked b deps ≡ none
      → contains deps d ≡ true
      → is_blocked b d ≡ false
  unfolding first_blocked
  first_blocked-none [] d n h = cc
  first_blocked-none (e ∷ deps) d n h = ground (arith, first_blocked-none deps d, eq_iff d e)
