-- ===== src/Cmd/Main/Runs.antt =====
-- When the process runs, and with which reconciler.
use reloader_operator.Base.{
  String, false, ◌≡◌, ◌≢◌, ◌⊎◌, ◌↔◌, ◌==◌, refl, inl, inr, arith, eq_iff, Bool-cases,
}
use reloader_operator.Kube.{GoError, ok, err, Result-cases}
use reloader_operator.Platform.{Selector}
use reloader_operator.Controller.Reconciler.{Reconciler}
use reloader_operator.Cmd.Flags.{Flags}
use reloader_operator.Cmd.Servers.{manager_options}
use reloader_operator.Cmd.Process.{Process}
use reloader_operator.Cmd.Configure.{selector_of_flag, reconciler_of}
use reloader_operator.Cmd.Main.{
  exited, ran, resource_selector, namespace_selector, step, run_manager, run, with_namespaces,
  with_resources, main,
}

-- The check of the alert flags passes.
abbrev pub AlertsConfigured : Flags → Type 0
AlertsConfigured flags = (flags.alert_on_reload ≡ false) ⊎ (flags.alert_webhook_url ≢ "")

module _ (o : Process) where
  -- The text of a selector is not empty and cannot be parsed.
  abbrev pub Unparsable : String → Type 0
  Unparsable text = (text ≢ "") × (e : GoError) × (o.parse_selector text ≡ err e)

  selector-Unparsable :
      (text : String) → ((e : GoError) × (selector_of_flag o text ≡ err e)) ↔ Unparsable text
  unfolding selector_of_flag
  selector-Unparsable text = elim (Bool-cases (text == "")) [
    | inl h ↦
        ((λ (e, q). absurd (ground (arith, q, h))), λ (n, e, q). absurd (n ((eq_iff text "").0 h)))
    | inr h ↦ (
      (λ (e, q). ((λ same. ground (arith, eq_iff text "")), e, rw h at q)),
      λ (n, e, q). (e, rw h q),
    )
  ]

module _ (o : Process) (flags : Flags) where
  -- The reconciler is the one of the flags, with both selectors parsed.
  abbrev pub Configured : Reconciler → Type 0
  Configured r =
      (resources : Selector) × (namespaces : Selector) × (selector_of_flag o
          flags.resource_label_selector
        ≡ ok resources)
      × (selector_of_flag o flags.namespace_selector ≡ ok namespaces)
      × (r ≡ reconciler_of flags resources namespaces)

  run_manager-ran : (r r' : Reconciler) (w : o.World) → (run_manager o r w).0 ≡ ran r' → r' ≡ r
  unfolding run_manager step
  run_manager-ran r r' w h = ground arith

  run-ran :
      (resources namespaces : Selector) (r : Reconciler) (w : o.World)
      → (run o flags resources namespaces w).0 ≡ ran r
      → AlertsConfigured flags × (r ≡ reconciler_of flags resources namespaces)
  unfolding run step
  run-ran resources namespaces r w h =
      let w' = (o.new_manager (manager_options flags) w).1 in
      ground (
        arith,
        eq_iff flags.alert_webhook_url "",
        run_manager-ran (reconciler_of flags resources namespaces) r w',
      )

  -- A process that runs, runs with both selectors parsed, with the reconciler of its flags, and not
  -- with alerts on and no URL for them.
  pub main-ran :
      (w : o.World) (r : Reconciler)
      → (main o flags w).0 ≡ ran r
      → AlertsConfigured flags × Configured r
  unfolding main with_resources with_namespaces
  main-ran w r h = elim (Result-cases (selector_of_flag o flags.resource_label_selector)) [
    | inl (resources, e) ↦ elim (Result-cases (selector_of_flag o flags.namespace_selector)) [
      | inl (namespaces, e') ↦
          let (configured, same) = run-ran resources namespaces r w (rw (e, e') at h) in
          (configured, (resources, namespaces, e, e', same))
      | inr (x, e') ↦ absurd (ground arith)
    ]
    | inr (x, e) ↦ absurd (ground arith)
  ]

  -- What comes after the selectors does not exit for them.
  run-later :
      (resources namespaces : Selector) (w : o.World)
      → ((run o flags resources namespaces w).0 ≢ exited resource_selector)
        × ((run o flags resources namespaces w).0 ≢ exited namespace_selector)
  unfolding run run_manager step
  run-later resources namespaces w = (λ h. ground arith, λ h. ground arith)

  -- The process exits for the selector of resources exactly if that cannot be parsed, and for the one
  -- of namespaces exactly if the first can be parsed and the second cannot; an empty selector counts
  -- as parsed. Nothing was called before such an exit.
  pub main-bad_selector :
      (w : o.World)
      → (((main o flags w).0 ≡ exited resource_selector)
          ↔ Unparsable o flags.resource_label_selector)
        × (((main o flags w).0 ≡ exited namespace_selector) ↔ (
            (Unparsable o flags.resource_label_selector → ⊥)
            × Unparsable o flags.namespace_selector))
        × (((main o flags w).1 ≡ w)
            ⊎ (((main o flags w).0 ≢ exited resource_selector)
                × ((main o flags w).0 ≢ exited namespace_selector)))
  unfolding main with_resources with_namespaces
  main-bad_selector w =
      let first = selector-Unparsable o flags.resource_label_selector in
      let second = selector-Unparsable o flags.namespace_selector in
      elim (Result-cases (selector_of_flag o flags.resource_label_selector)) [
        | inr (x, e) ↦
            let bad = first.0 (x, e) in
            rw e (
              (λ h. bad, λ h. refl),
              (λ h. absurd (ground arith), λ (fine, h). absurd (fine bad)),
              inl refl,
            )
        | inl (resources, e) ↦
            let fine : Unparsable o flags.resource_label_selector → ⊥ =
              λ bad. let (x, q) = first.1 bad in absurd (ground (arith, e, q)) in
            elim (Result-cases (selector_of_flag o flags.namespace_selector)) [
              | inr (x, e') ↦
                  let bad = second.0 (x, e') in
                  rw (e, e')
                    (
                      (λ h. absurd (ground arith), λ h. absurd (fine h)),
                      (λ h. (fine, bad), λ h. refl),
                      inl refl,
                    )
              | inl (namespaces, e') ↦
                  let (later, later') = run-later resources namespaces w in
                  rw (e, e')
                    (
                      (λ h. absurd (later h), λ h. absurd (fine h)),
                      (
                        λ h. absurd (later' h),
                        λ (_, h). let (x, q) = second.1 h in absurd (ground (arith, e', q)),
                      ),
                      inr (later, later'),
                    )
            ]
      ]
